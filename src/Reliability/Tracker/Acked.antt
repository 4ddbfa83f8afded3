-- ===== src/Reliability/Tracker/Acked.antt =====
-- src/reliability/packet_tracker.h, the sending side: which sent packets count as acknowledged after
-- the fields of a received packet have been processed.
pub mod Progress
use netudp.Base.{
  ℕ, zero, suc, ◌+◌, ◌-◌, ◌%◌, ◌^◌, ◌≤◌, ◌<◌, ◌≡◌, ◌≢◌, ◌⊎◌, inl, inr, refl, ap, sym, ◌∙◌, Bool,
  true, false, not, ◌&&◌, ◌||◌, ltb, leb, ◌==◌, if◌then◌else◌, Array, update, arith, Bool-cases,
}
use native.Mathlib.Decide.{dec_lt}
use netudp.Base.Bits.{test_bit}
use netudp.Base.Words.{u16_mod, sub16}
use netudp.Reliability.Tracker.{
  AckFields, SentPacketRecord, PacketTracker, slot, mark_acked, count_acked, process_bits,
  advance_oldest, process_acks, is_acked,
}
use netudp.Reliability.Tracker.Receive.{reports}

-- One of the bits `i`, …, `i + rounds - 1` stands for `q` and is set.
reports_bits : AckFields → ℕ → ℕ → ℕ → Bool
reports_bits f zero i q = false
reports_bits f (suc rounds) i q =
    (test_bit f.ack_bits i && (sub16 f.ack (i + 1) == q)) || reports_bits f rounds (i + 1) q

reports_bits_lem :
    (f : AckFields) (rounds i q : ℕ)
    → i + rounds ≤ 32
    → f.ack < u16_mod
    → q < u16_mod
    → reports_bits f rounds i q ≡ (
        ltb i (sub16 f.ack q)
        && leb (sub16 f.ack q) (i + rounds)
        && test_bit f.ack_bits (sub16 f.ack q - 1))
unfolding reports_bits
reports_bits_lem f zero i q hi ha hq = ground arith
reports_bits_lem f (suc rounds) i q hi ha hq = elim (dec_lt (sub16 f.ack q) (i + 1)) [
  | yes below ↦ ground (arith, reports_bits_lem f rounds (i + 1) q)
  | no above ↦ elim (Bool-cases (sub16 f.ack q == i + 1)) [
    | inl here ↦ rw (sym (at_bit f i q here)) (ground (arith, reports_bits_lem f rounds (i + 1) q))
    | inr past ↦ ground (arith, reports_bits_lem f rounds (i + 1) q)
  ]
]
  where
    at_bit : (f : AckFields) (i q : ℕ) → (sub16 f.ack q == i + 1) ≡ true → sub16 f.ack q - 1 ≡ i
    at_bit f i q h = ground arith

module _ {T : Type 0} where
  -- The slot of `q` still holds packet `q`.
  abbrev pub holds : PacketTracker T → ℕ → Bool
  holds t q = (t.sent (slot q)).sequence == q

  is_acked-mark_acked :
      (t : PacketTracker T) (seq q : ℕ)
      → is_acked (mark_acked t seq).1 q ≡ (is_acked t q || ((seq == q) && holds t q))
  unfolding is_acked mark_acked
  is_acked-mark_acked t seq q = ground arith

  holds-mark_acked : (t : PacketTracker T) (seq q : ℕ) → holds (mark_acked t seq).1 q ≡ holds t q
  unfolding mark_acked
  holds-mark_acked t seq q = ground arith

  mark_acked_keeps :
      (t : PacketTracker T) (seq : ℕ)
      → ((mark_acked t seq).1.oldest_unacked ≡ t.oldest_unacked)
        × ((mark_acked t seq).1.send_sequence ≡ t.send_sequence)
  unfolding mark_acked
  mark_acked_keeps t seq = ground arith

  process_bits-is_acked :
      (f : AckFields) (rounds i n : ℕ) (t : PacketTracker T) (q : ℕ)
      → (is_acked (process_bits f rounds i (n, t)).1 q
          ≡ (is_acked t q || (reports_bits f rounds i q && holds t q)))
        × (holds (process_bits f rounds i (n, t)).1 q ≡ holds t q)
  unfolding process_bits reports_bits count_acked
  process_bits-is_acked f zero i n t q = ground arith
  process_bits-is_acked f (suc rounds) i n t q = elim (Bool-cases (test_bit f.ack_bits i)) [
    | inl on ↦ rw on (
        ground (
          arith,
          process_bits-is_acked f rounds (i + 1)
              (if (mark_acked t (sub16 f.ack (i + 1))).0 then n + 1 else n)
              (mark_acked t (sub16 f.ack (i + 1))).1 q,
          is_acked-mark_acked t (sub16 f.ack (i + 1)) q,
          holds-mark_acked t (sub16 f.ack (i + 1)) q,
        ))
    | inr off ↦ rw off (ground (arith, process_bits-is_acked f rounds (i + 1) n t q))
  ]

  advance_oldest-sent :
      (fuel : ℕ) (t : PacketTracker T)
      → ((advance_oldest fuel t).sent ≡ t.sent)
        × ((advance_oldest fuel t).send_sequence ≡ t.send_sequence)
  unfolding advance_oldest
  advance_oldest-sent zero t = (refl, refl)
  advance_oldest-sent (suc fuel) t = ground (
    arith,
    advance_oldest-sent fuel (record t { oldest_unacked = (t.oldest_unacked + 1) % u16_mod }),
  )

  is_acked-advance_oldest :
      (fuel : ℕ) (t : PacketTracker T) (q : ℕ) → is_acked (advance_oldest fuel t) q ≡ is_acked t q
  unfolding is_acked
  is_acked-advance_oldest fuel t q = rw ((advance_oldest-sent fuel t).0)

  -- The state when both the `ack` and its 32 bits have been gone through.
  after_bits : PacketTracker T → AckFields → ℕ × PacketTracker T
  after_bits t f = process_bits f 32 0 (count_acked 0 (mark_acked t f.ack))

  after_bits-is_acked :
      (t : PacketTracker T) (f : AckFields) (q : ℕ)
      → is_acked (after_bits t f).1 q
        ≡ (is_acked t q || (((f.ack == q) || reports_bits f 32 0 q) && holds t q))
  unfolding after_bits count_acked
  after_bits-is_acked t f q = ground (
    arith,
    process_bits-is_acked f 32 0 (if (mark_acked t f.ack).0 then 1 else 0) (mark_acked t f.ack).1 q,
    is_acked-mark_acked t f.ack q,
    holds-mark_acked t f.ack q,
  )

  -- After the fields of a packet have been processed, a packet counts as acknowledged exactly when
  -- it did before, or the fields report it and its slot still holds it.
  pub process_acks-is_acked :
      (t : PacketTracker T) (f : AckFields) (q : ℕ)
      → f.ack < u16_mod
      → q < u16_mod
      → is_acked (process_acks t f).1 q
        ≡ (is_acked t q || (reports f.ack f.ack_bits q && holds t q))
  unfolding process_acks after_bits
  process_acks-is_acked t f q ha hq =
      is_acked-advance_oldest _ (after_bits t f).1 q
      ∙ after_bits-is_acked t f q
      ∙ ap (λ b. is_acked t q || (b && holds t q)) (same_report f q ha hq)
    where
      same_report :
          (f : AckFields) (q : ℕ)
          → f.ack < u16_mod
          → q < u16_mod
          → ((f.ack == q) || reports_bits f 32 0 q) ≡ reports f.ack f.ack_bits q
      same_report f q ha hq = ground (arith, reports_bits_lem f 32 0 q)
