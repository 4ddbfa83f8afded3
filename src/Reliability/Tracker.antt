-- ===== src/Reliability/Tracker.antt =====
-- src/reliability/packet_tracker.h: 16-bit packet sequence numbers, the acknowledgement bitmask
-- that the receiver keeps, and the ring of 33 sent packets that the sender matches it against.
-- A time is only stored and handed back, so it is of any type `T`, except in `build_ack_fields`.
pub mod Receive
pub mod Acked
pub mod Send
mod Tests
use netudp.Base.{
  ℕ, zero, suc, ◌+◌, ◌-◌, ◌%◌, ◌^◌, Bool, true, false, not, ◌&&◌, ltb, leb, ◌==◌, if◌then◌else◌,
  Array, update, Option, some, none, List, ◌++◌,
}
use netudp.Base.Bits.{test_bit, set_bit, shift_left, low_bits}
use netudp.Base.Bytes.{bytes_le, read_le}
use netudp.Base.Float64.{Float64}
use netudp.Base.Lists.{drop}
use netudp.Base.Words.{u16_mod, sub16}

pub record AckFields : Type 0 where
  pub ack : ℕ
  pub ack_bits : ℕ
  pub ack_delay_us : ℕ

pub record SentPacketRecord (T : Type 0) : Type 0 where
  pub send_time : T
  pub sequence : ℕ
  pub acked : Bool

abbrev pub packet_window_size : ℕ
packet_window_size = 33

pub record PacketTracker (T : Type 0) : Type 0 where
  pub send_sequence : ℕ
  pub oldest_unacked : ℕ
  pub recv_ack : ℕ
  pub recv_ack_bits : ℕ
  pub recv_time : T
  pub received_any : Bool
  pub sent : Array (SentPacketRecord T)

-- `seq % PACKET_WINDOW_SIZE`
abbrev pub slot : ℕ → ℕ
slot seq = seq % packet_window_size

-- `int16_t diff = sequence - recv_ack_` is positive: the packet is newer.
abbrev pub is_newer : ℕ → ℕ → Bool
is_newer sequence ack = not (sub16 sequence ack == 0) && ltb (sub16 sequence ack) (2 ^ 15)

-- The bits after `shift` newer packets, in a 32-bit word. The two operands of `|` share no bit.
unfoldable pub shifted_bits : ℕ → ℕ → ℕ
shifted_bits bits shift =
    if ltb shift 32 then set_bit (low_bits 32 (shift_left bits shift)) (shift - 1) else 0

module _ {T : Type 0} where
  -- The sequence number that the packet gets, and the new state.
  unfoldable pub send_packet : PacketTracker T → T → ℕ × PacketTracker T
  send_packet t time = (
    t.send_sequence,
    record t {
      send_sequence = (t.send_sequence + 1) % u16_mod;
      sent =
          update t.sent (slot t.send_sequence)
            (record { send_time = time; sequence = t.send_sequence; acked = false });
    },
  )

  unfoldable pub is_window_full : PacketTracker T → Bool
  is_window_full t = leb packet_window_size (sub16 t.send_sequence t.oldest_unacked)

  -- `diff < 0 && diff > -32`: `-diff` is the distance back from the newest packet.
  unfoldable pub on_packet_received : PacketTracker T → ℕ → T → PacketTracker T
  on_packet_received t sequence time =
      if not t.received_any
      then record t { recv_ack = sequence; recv_time = time; received_any = true }
      else if is_newer sequence t.recv_ack
      then record t {
        recv_ack_bits = shifted_bits t.recv_ack_bits (sub16 sequence t.recv_ack);
        recv_ack = sequence;
        recv_time = time;
      }
      else if not (sequence == t.recv_ack) && ltb (sub16 t.recv_ack sequence) 32
      then record t { recv_ack_bits = set_bit t.recv_ack_bits (sub16 t.recv_ack sequence - 1) }
      else t

  -- Whether the record was changed, and the new state.
  unfoldable pub mark_acked : PacketTracker T → ℕ → Bool × PacketTracker T
  mark_acked t seq =
      if (t.sent (slot seq)).sequence == seq && not (t.sent (slot seq)).acked
      then (
        true,
        record t { sent = update t.sent (slot seq) (record (t.sent (slot seq)) { acked = true }) },
      )
      else (false, t)

  -- One more acknowledged packet if `mark_acked` says so.
  unfoldable pub count_acked : ℕ → Bool × PacketTracker T → ℕ × PacketTracker T
  count_acked n (newly, t) = (if newly then n + 1 else n, t)

  -- `for (i = 0; i < 32; ++i)`, with `rounds` still to go; bit `i` stands for `ack - i - 1`.
  unfoldable pub process_bits : AckFields → ℕ → ℕ → ℕ × PacketTracker T → ℕ × PacketTracker T
  process_bits fields zero i s = s
  process_bits fields (suc rounds) i (n, t) = process_bits fields rounds (i + 1) (
      if test_bit fields.ack_bits i
      then count_acked n (mark_acked t (sub16 fields.ack (i + 1)))
      else (n, t))

  -- The `while` loop over `oldest_unacked_`; the fuel is the distance to `send_sequence_`.
  unfoldable pub advance_oldest : ℕ → PacketTracker T → PacketTracker T
  advance_oldest zero t = t
  advance_oldest (suc fuel) t =
      let rest =
        advance_oldest fuel (record t { oldest_unacked = (t.oldest_unacked + 1) % u16_mod }) in
      if t.oldest_unacked == t.send_sequence
      then t
      else if (t.sent (slot t.oldest_unacked)).acked
          && ((t.sent (slot t.oldest_unacked)).sequence == t.oldest_unacked)
      then rest
      else t

  -- The number of newly acknowledged packets, and the new state.
  unfoldable pub process_acks : PacketTracker T → AckFields → ℕ × PacketTracker T
  process_acks t fields =
      let (n, t') = process_bits fields 32 0 (count_acked 0 (mark_acked t fields.ack)) in
      (n, advance_oldest (sub16 t'.send_sequence t'.oldest_unacked) t')

  unfoldable pub is_acked : PacketTracker T → ℕ → Bool
  is_acked t seq = (t.sent (slot seq)).acked && ((t.sent (slot seq)).sequence == seq)

  -- `none` is the code's -1.0.
  unfoldable pub get_send_time : PacketTracker T → ℕ → Option T
  get_send_time t seq =
      if (t.sent (slot seq)).sequence == seq then some (t.sent (slot seq)).send_time else none

-- The state after construction and after `reset`; `memset` leaves every record zero.
unfoldable pub reset : {T : Type 0} → T → PacketTracker T
reset zero_time = record {
  send_sequence = 0;
  oldest_unacked = 0;
  recv_ack = 0;
  recv_ack_bits = 0;
  recv_time = zero_time;
  received_any = false;
  sent = λ i. record { send_time = zero_time; sequence = 0; acked = false };
}

module _ (F : Float64) where
  open F use {Carrier, of_nat, sub, mul, lt, to_uint}

  -- `delay * 1000000.0` in microseconds, with a negative delay taken for 0.
  unfoldable pub delay_us : Carrier → Carrier → ℕ
  delay_us now recv_time =
      let delay = sub now recv_time in
      to_uint (mul (if lt delay (of_nat 0) then of_nat 0 else delay) (of_nat 1000000))

  unfoldable pub build_ack_fields : PacketTracker Carrier → Carrier → AckFields
  build_ack_fields t now = record {
    ack = t.recv_ack;
    ack_bits = t.recv_ack_bits;
    ack_delay_us =
        if t.received_any
        then (if ltb 65535 (delay_us now t.recv_time) then 65535 else delay_us now t.recv_time)
        else 0;
  }

unfoldable pub write_ack_fields : AckFields → List ℕ
write_ack_fields f = bytes_le 2 f.ack ++ (bytes_le 4 f.ack_bits ++ bytes_le 2 f.ack_delay_us)

unfoldable pub read_ack_fields : List ℕ → AckFields
read_ack_fields buf = record {
  ack = read_le 2 buf;
  ack_bits = read_le 4 (drop 2 buf);
  ack_delay_us = read_le 2 (drop 6 buf);
}
