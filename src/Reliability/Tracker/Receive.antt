-- ===== src/Reliability/Tracker/Receive.antt =====
-- src/reliability/packet_tracker.h, the receiving side: which packets the acknowledgement fields
-- report, against the packets that arrived.
use netudp.Base.{
  ℕ, ◌-◌, ◌^◌, ◌<◌, ◌≡◌, ◌≢◌, ◌⊎◌, inl, inr, Bool, true, false, ◌&&◌, ltb, leb, ◌==◌, if◌then◌else◌,
  List, [], ◌∷◌, ◌++◌, arith,
}
use netudp.Base.Bits.{test_bit, set_bit, shift_left, low_bits}
use netudp.Base.Bits.{test_bit-set_bit, test_bit-shift_left, test_bit-low_bits, test_bit-zero}
use netudp.Base.Bytes.{bytes_le, read_le}
use netudp.Base.Words.{u16_mod, sub16}
use netudp.Reliability.Tracker.{
  AckFields, PacketTracker, is_newer, shifted_bits, on_packet_received, write_ack_fields,
  read_ack_fields, reset,
}

-- What an `ack` and its bits tell the peer about packet `q`: it is `ack`, or bit `ack - q - 1` is
-- set.
abbrev pub reports : ℕ → ℕ → ℕ → Bool
reports ack bits q =
    if ack == q then true else leb (sub16 ack q) 32 && test_bit bits (sub16 ack q - 1)

test_bit-shifted_bits :
    (bits shift j : ℕ)
    → 0 < shift
    → j < 32
    → test_bit (shifted_bits bits shift) j ≡ (
        if ltb shift 32
        then (if shift - 1 == j
            then true
            else (if ltb j shift then false else test_bit bits (j - shift)))
        else false)
unfolding shifted_bits
test_bit-shifted_bits bits shift j hs hj = ground (
  arith,
  test_bit-zero j,
  test_bit-set_bit (low_bits 32 (shift_left bits shift)) (shift - 1) j,
  test_bit-low_bits 32 (shift_left bits shift) j,
  test_bit-shift_left bits shift j,
)

-- A newer packet: the report of `q` moves along with the shift.
reports_newer :
    (ack bits s q : ℕ)
    → ack < u16_mod
    → s < u16_mod
    → q < u16_mod
    → is_newer s ack ≡ true
    → reports s (shifted_bits bits (sub16 s ack)) q ≡ true
    → (q ≡ s) ⊎ (reports ack bits q ≡ true)
reports_newer ack bits s q ha hs hq newer r =
    ground (arith, test_bit-shifted_bits bits (sub16 s ack) (sub16 s q - 1))

newer_reports :
    (ack bits s q : ℕ)
    → ack < u16_mod
    → s < u16_mod
    → q < u16_mod
    → is_newer s ack ≡ true
    → sub16 s q < 32
    → (q ≡ s) ⊎ (reports ack bits q ≡ true)
    → reports s (shifted_bits bits (sub16 s ack)) q ≡ true
newer_reports ack bits s q ha hs hq newer near r =
    ground (arith, test_bit-shifted_bits bits (sub16 s ack) (sub16 s q - 1))

-- An older packet inside the window sets one bit.
reports_older :
    (ack bits s q : ℕ)
    → ack < u16_mod
    → s < u16_mod
    → q < u16_mod
    → ack ≢ s
    → sub16 ack s < 32
    → reports ack (set_bit bits (sub16 ack s - 1)) q ≡ (if q == s then true else reports ack bits q)
reports_older ack bits s q ha hs hq ne near =
    ground (arith, test_bit-set_bit bits (sub16 ack s - 1) (sub16 ack q - 1))

module _ {T : Type 0} where
  abbrev pub Tracked : PacketTracker T → ℕ → Type 0
  Tracked t q = (t.received_any ≡ true) × (reports t.recv_ack t.recv_ack_bits q ≡ true)

  on_packet_received_sound :
      (t : PacketTracker T) (s q : ℕ) (time : T)
      → t.recv_ack < u16_mod
      → t.recv_ack_bits ≡ 0 ⊎ (t.received_any ≡ true)
      → s < u16_mod
      → q < u16_mod
      → Tracked (on_packet_received t s time) q
      → (q ≡ s) ⊎ Tracked t q
  unfolding on_packet_received
  on_packet_received_sound t s q time ha hb hs hq r = ground (
    arith,
    reports_newer t.recv_ack t.recv_ack_bits s q,
    reports_older t.recv_ack t.recv_ack_bits s q,
    test_bit-zero (sub16 s q - 1),
  )

  -- A packet that arrives, and one that was reported before, is reported as long as it lies less
  -- than 32 behind the newest packet.
  pub on_packet_received-reports :
      (t : PacketTracker T) (s q : ℕ) (time : T)
      → t.recv_ack < u16_mod
      → s < u16_mod
      → q < u16_mod
      → (q ≡ s) ⊎ Tracked t q
      → sub16 (on_packet_received t s time).recv_ack q < 32
      → Tracked (on_packet_received t s time) q
  unfolding on_packet_received
  on_packet_received-reports t s q time ha hs hq r near = ground (
    arith,
    newer_reports t.recv_ack t.recv_ack_bits s q,
    reports_older t.recv_ack t.recv_ack_bits s q,
  )

  -- Packets that arrive one after the other, each with its time.
  unfoldable pub receive_all : PacketTracker T → List (ℕ × T) → PacketTracker T
  receive_all t [] = t
  receive_all t ((s, time) ∷ ps) = receive_all (on_packet_received t s time) ps

  -- `q` is the sequence number of one of the packets.
  abbrev pub Arrived : ℕ → List (ℕ × T) → Type 0
  Arrived q [] = ⊥
  Arrived q ((s, time) ∷ ps) = (q ≡ s) ⊎ Arrived q ps

  -- The sender's 16-bit numbers.
  abbrev pub AreSequences : List (ℕ × T) → Type 0
  AreSequences [] = Unit
  AreSequences ((s, time) ∷ ps) = (s < u16_mod) × AreSequences ps

  record IsReceiver (t : PacketTracker T) : Type 0 where
    in_range : t.recv_ack < u16_mod
    blank : (t.recv_ack_bits ≡ 0) ⊎ (t.received_any ≡ true)

  on_packet_received-IsReceiver :
      (t : PacketTracker T) (s : ℕ) (time : T)
      → s < u16_mod
      → IsReceiver t
      → IsReceiver (on_packet_received t s time)
  unfolding on_packet_received
  on_packet_received-IsReceiver t s time hs v = ground arith

  receive_all_sound :
      (t : PacketTracker T) (ps : List (ℕ × T)) (q : ℕ)
      → IsReceiver t
      → AreSequences ps
      → q < u16_mod
      → Tracked (receive_all t ps) q
      → Arrived q ps ⊎ Tracked t q
  unfolding receive_all
  receive_all_sound t [] q v hs hq r = inr r
  receive_all_sound t ((s, time) ∷ ps) q v hs hq r =
      elim (receive_all_sound (on_packet_received t s time) ps q
        (on_packet_received-IsReceiver t s time hs.0 v) hs.1 hq r) [
          | inl later ↦ inl (inr later)
          | inr before ↦
              elim (on_packet_received_sound t s q time v.in_range v.blank hs.0 hq before) [
                | inl e ↦ inl (inl e)
                | inr old ↦ inr old
              ]
        ]

  -- Whatever 16-bit sequence numbers arrive, in any order and with duplicates, a tracker that
  -- started from a reset and received something reports to its peer only packets that arrived.
  pub reports-Arrived :
      (zero_time : T) (ps : List (ℕ × T)) (q : ℕ)
      → AreSequences ps
      → q < u16_mod
      → Tracked (receive_all (reset zero_time) ps) q
      → Arrived q ps
  unfolding reset
  reports-Arrived zero_time ps q hs hq r =
      elim (receive_all_sound (reset zero_time) ps q (omega arith) hs hq r) [
        | inl a ↦ a
        | inr old ↦ cc
      ]

-- The eight bytes of the wire hold the three fields.
pub read_ack_fields-write_ack_fields :
    (f : AckFields) (rest : List ℕ)
    → f.ack < u16_mod
    → f.ack_bits < 2 ^ 32
    → f.ack_delay_us < u16_mod
    → read_ack_fields (write_ack_fields f ++ rest) ≡ f
unfolding read_ack_fields write_ack_fields bytes_le read_le
read_ack_fields-write_ack_fields f rest h1 h2 h3 = ground arith
