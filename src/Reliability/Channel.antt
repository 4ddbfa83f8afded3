-- ===== src/Reliability/Channel.antt =====
-- src/reliability/reliable_channel.h: the sequence numbers, the 64 sent messages and the 64 received
-- ones of a reliable channel. A message's bytes are a list: `data` up to `data_len`.
pub mod Order
pub mod Receive
pub mod Genuine
pub mod Sending
pub mod Awaited
pub mod Stream
mod Tests
use netudp.Base.{
  ℕ, zero, suc, ◌+◌, ◌%◌, ◌^◌, Bool, true, false, not, ◌&&◌, ◌||◌, ltb, leb, ◌==◌, if◌then◌else◌,
  min, Array, update, Option, some, none, List, [], ◌∷◌,
}
use netudp.Base.Float64.{Float64}
use netudp.Base.Lists.{length, take}
use netudp.Base.Words.{u16_mod, u32_mod, sub16}

abbrev pub Bytes : Type 0
Bytes = List ℕ

pub record SentMessage (T : Type 0) : Type 0 where
  pub sequence : ℕ
  pub packet_sequence : ℕ
  pub send_time : T
  pub retry_count : ℕ
  pub payload : Bytes
  pub acked : Bool
  pub valid : Bool

pub record ReceivedMessage : Type 0 where
  pub sequence : ℕ
  pub payload : Bytes
  pub valid : Bool

abbrev pub reliable_buffer_size : ℕ
reliable_buffer_size = 64

abbrev pub max_retries : ℕ
max_retries = 10

abbrev pub max_payload : ℕ
max_payload = 1200

pub record ReliableChannelState (T : Type 0) : Type 0 where
  pub send_seq : ℕ
  pub recv_seq : ℕ
  pub oldest_unacked : ℕ
  pub sent_buffer : Array (SentMessage T)
  pub recv_buffer : Array ReceivedMessage
  pub messages_dropped : ℕ

-- `seq % RELIABLE_BUFFER_SIZE`
abbrev pub slot : ℕ → ℕ
slot seq = seq % reliable_buffer_size

module _ {T : Type 0} where
  unfoldable pub record_send :
      ReliableChannelState T → Bytes → ℕ → T → Bool × ReliableChannelState T
  record_send s payload packet_seq time =
      if leb (length payload) 0 || ltb max_payload (length payload) then (false, s) else (
        true,
        record s {
          sent_buffer = update s.sent_buffer (slot s.send_seq) (record {
            sequence = s.send_seq;
            packet_sequence = packet_seq;
            send_time = time;
            retry_count = 0;
            payload = payload;
            acked = false;
            valid = true;
          });
          send_seq = (s.send_seq + 1) % u16_mod;
        },
      )

  -- The `while` loop of `mark_acked`; the fuel is the distance to `send_seq`.
  unfoldable pub advance_oldest : ℕ → ReliableChannelState T → ReliableChannelState T
  advance_oldest zero s = s
  advance_oldest (suc fuel) s =
      let rest = advance_oldest fuel (record s {
        sent_buffer =
            update s.sent_buffer (slot s.oldest_unacked)
              (record (s.sent_buffer (slot s.oldest_unacked)) { valid = false });
        oldest_unacked = (s.oldest_unacked + 1) % u16_mod;
      }) in
      if s.oldest_unacked == s.send_seq
      then s
      else if (s.sent_buffer (slot s.oldest_unacked)).acked
          && ((s.sent_buffer (slot s.oldest_unacked)).sequence == s.oldest_unacked)
      then rest
      else s

  unfoldable pub mark : ReliableChannelState T → ℕ → ReliableChannelState T
  mark s msg_seq =
      if (s.sent_buffer (slot msg_seq)).valid
        && ((s.sent_buffer (slot msg_seq)).sequence == msg_seq)
      then record s {
        sent_buffer =
            update s.sent_buffer (slot msg_seq)
              (record (s.sent_buffer (slot msg_seq)) { acked = true });
      }
      else s

  unfoldable pub mark_acked : ReliableChannelState T → ℕ → ReliableChannelState T
  mark_acked s msg_seq = advance_oldest (sub16 s.send_seq s.oldest_unacked) (mark s msg_seq)

  -- `none` is the null pointer.
  unfoldable pub get_for_retransmit : ReliableChannelState T → ℕ → Option (SentMessage T)
  get_for_retransmit s msg_seq =
      if (s.sent_buffer (slot msg_seq)).valid
        && (((s.sent_buffer (slot msg_seq)).sequence == msg_seq)
            && not (s.sent_buffer (slot msg_seq)).acked)
      then some (s.sent_buffer (slot msg_seq))
      else none

  -- `diff < 0` or `diff >= 64`, for the signed 16-bit difference to `recv_seq`.
  unfoldable pub buffer_received_ordered :
      ReliableChannelState T → ℕ → Bytes → Bool × ReliableChannelState T
  buffer_received_ordered s msg_seq payload =
      if leb (2 ^ 15) (sub16 msg_seq s.recv_seq)
      then (false, s)
      else if leb reliable_buffer_size (sub16 msg_seq s.recv_seq)
      then (false, s)
      else if (s.recv_buffer (slot msg_seq)).valid
          && ((s.recv_buffer (slot msg_seq)).sequence == msg_seq)
      then (false, s)
      else (
        true,
        record s {
          recv_buffer =
              update s.recv_buffer (slot msg_seq)
                (record { sequence = msg_seq; payload = take max_payload payload; valid = true });
        },
      )

  -- The next expected message is in its slot.
  abbrev pub is_ready : ReliableChannelState T → Bool
  is_ready s =
      (s.recv_buffer (slot s.recv_seq)).valid
      && ((s.recv_buffer (slot s.recv_seq)).sequence == s.recv_seq)

  -- The state after the next expected message was handed over.
  unfoldable pub taken : ReliableChannelState T → ReliableChannelState T
  taken s = record s {
    recv_buffer =
        update s.recv_buffer (slot s.recv_seq)
          (record (s.recv_buffer (slot s.recv_seq)) { valid = false });
    recv_seq = (s.recv_seq + 1) % u16_mod;
  }

  -- The `while (true)` loop: the messages that the callback gets, each with its number, and the new
  -- state. 65 rounds are enough: `Order.deliver_ordered-stops`.
  unfoldable pub deliver_loop :
      ℕ → ReliableChannelState T → List (ℕ × Bytes) × ReliableChannelState T
  deliver_loop zero s = ([], s)
  deliver_loop (suc fuel) s =
      let rest = deliver_loop fuel (taken s) in
      if is_ready s
      then ((s.recv_seq, (s.recv_buffer (slot s.recv_seq)).payload) ∷ rest.0, rest.1)
      else ([], s)

  unfoldable pub deliver_ordered :
      ReliableChannelState T → List (ℕ × Bytes) × ReliableChannelState T
  deliver_ordered s = deliver_loop 65 s

  unfoldable pub is_received_unordered : ReliableChannelState T → ℕ → Bool
  is_received_unordered s msg_seq =
      (s.recv_buffer (slot msg_seq)).valid && ((s.recv_buffer (slot msg_seq)).sequence == msg_seq)

  unfoldable pub mark_received_unordered : ReliableChannelState T → ℕ → ReliableChannelState T
  mark_received_unordered s msg_seq = record s {
    recv_buffer =
        update s.recv_buffer (slot msg_seq)
          (record (s.recv_buffer (slot msg_seq)) { sequence = msg_seq; valid = true });
  }

module _ (F : Float64) where
  open F use {Carrier, of_nat, sub, mul, le}

  -- `rto * (1 << min(retry_count, 5))` seconds or more have passed.
  unfoldable pub is_timed_out : SentMessage Carrier → Carrier → Carrier → Bool
  is_timed_out msg now rto =
      le (mul rto (of_nat (2 ^ min msg.retry_count 5))) (sub now msg.send_time)

  -- The `for` loop from `seq` on, with `rounds` numbers left before `send_seq` and room for `room`
  -- more results: the numbers to retransmit and the new state.
  unfoldable pub retransmit_loop :
      ℕ
      → ℕ
      → ℕ
      → ReliableChannelState Carrier
      → Carrier
      → Carrier
      → List ℕ × ReliableChannelState Carrier
  retransmit_loop zero room seq s now rto = ([], s)
  retransmit_loop (suc rounds) zero seq s now rto = ([], s)
  retransmit_loop (suc rounds) (suc room) seq s now rto =
      let msg = s.sent_buffer (slot seq) in
      let next = (seq + 1) % u16_mod in
      let skip = retransmit_loop rounds (suc room) next s now rto in
      let dropped =
        retransmit_loop rounds (suc room) next
          (record s {
            sent_buffer = update s.sent_buffer (slot seq) (record msg { valid = false });
            messages_dropped = (s.messages_dropped + 1) % u32_mod;
          })
          now rto in
      let found = retransmit_loop rounds room next s now rto in
      if not msg.valid || (not (msg.sequence == seq) || msg.acked)
      then skip
      else if not (is_timed_out msg now rto)
      then skip
      else if leb max_retries msg.retry_count
      then dropped
      else (seq ∷ found.0, found.1)

  unfoldable pub find_retransmits :
      ReliableChannelState Carrier → Carrier → Carrier → ℕ → List ℕ × ReliableChannelState Carrier
  find_retransmits s now rto max_count =
      retransmit_loop (sub16 s.send_seq s.oldest_unacked) max_count s.oldest_unacked s now rto

-- The state after construction and after `reset`.
unfoldable pub reset : {T : Type 0} → T → ReliableChannelState T
reset zero_time = record {
  send_seq = 0;
  recv_seq = 0;
  oldest_unacked = 0;
  sent_buffer = λ i. record {
    sequence = 0;
    packet_sequence = 0;
    send_time = zero_time;
    retry_count = 0;
    payload = [];
    acked = false;
    valid = false;
  };
  recv_buffer = λ i. record { sequence = 0; payload = []; valid = false };
  messages_dropped = 0;
}
