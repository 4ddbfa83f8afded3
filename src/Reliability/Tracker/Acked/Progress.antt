-- ===== src/Reliability/Tracker/Acked/Progress.antt =====
-- src/reliability/packet_tracker.h: how far the loop over `oldest_unacked_` gets when the fields of a
-- packet have been processed.
use netudp.Base.{
  ℕ, zero, suc, ◌+◌, ◌%◌, ◌≤◌, ◌<◌, ◌≡◌, ◌⊎◌, inl, inr, refl, sym, true, false, ◌==◌, if◌then◌else◌,
  arith, Bool-cases,
}
use netudp.Base.Bits.{test_bit}
use netudp.Base.Words.{u16_mod, sub16}
use netudp.Reliability.Tracker.{
  AckFields, PacketTracker, mark_acked, count_acked, process_bits, advance_oldest, process_acks,
  is_acked,
}
use netudp.Reliability.Tracker.Acked.{advance_oldest-sent, after_bits, mark_acked_keeps}

module _ {T : Type 0} where
  -- The `n` packets from `first` on are acknowledged in `u`.
  abbrev pub AllAcked : PacketTracker T → ℕ → ℕ → Type 0
  AllAcked u first zero = Unit
  AllAcked u first (suc n) = (is_acked u first ≡ true) × AllAcked u ((first + 1) % u16_mod) n

  -- Where the loop over `oldest_unacked_` gets to from `t`: it passes `n` packets, all of them
  -- acknowledged, and stops at the end of what was sent or at a packet that is not acknowledged.
  record Advanced (t u : PacketTracker T) : Type 0 where
    passed : ℕ
    moved : u.oldest_unacked ≡ (t.oldest_unacked + passed) % u16_mod
    all_acked : AllAcked t t.oldest_unacked passed
    stopped : (u.oldest_unacked ≡ u.send_sequence) ⊎ (is_acked u u.oldest_unacked ≡ false)

  AllAcked-sent :
      (t u : PacketTracker T) (first n : ℕ)
      → t.sent ≡ u.sent
      → AllAcked t first n
      → AllAcked u first n
  unfolding is_acked
  AllAcked-sent t u first zero e a = tt
  AllAcked-sent t u first (suc n) e a =
      (rw (← e) a.0, AllAcked-sent t u ((first + 1) % u16_mod) n e a.1)

  step_past : PacketTracker T → PacketTracker T
  step_past t = record t { oldest_unacked = (t.oldest_unacked + 1) % u16_mod }

  Advanced-step_past :
      (t u : PacketTracker T)
      → t.oldest_unacked < u16_mod
      → is_acked t t.oldest_unacked ≡ true
      → Advanced (step_past t) u
      → Advanced t u
  unfolding step_past is_acked
  Advanced-step_past t u ho first a = record {
    passed = suc a.passed;
    moved = omega (arith, a.moved);
    all_acked = (first, AllAcked-sent (step_past t) t _ _ refl a.all_acked);
    stopped = a.stopped;
  }

  advance_oldest-Advanced :
      (fuel : ℕ) (t : PacketTracker T)
      → t.oldest_unacked < u16_mod
      → t.send_sequence < u16_mod
      → sub16 t.send_sequence t.oldest_unacked ≤ fuel
      → Advanced t (advance_oldest fuel t)
  unfolding advance_oldest step_past is_acked
  advance_oldest-Advanced zero t ho hs enough = record {
    passed = 0;
    moved = omega arith;
    all_acked = tt;
    stopped = inl (omega arith);
  }
  advance_oldest-Advanced (suc fuel) t ho hs enough =
      elim (Bool-cases (t.oldest_unacked == t.send_sequence)) [
        | inl done ↦ rw done (stays (inl (ground arith)))
        | inr more ↦ elim (Bool-cases (is_acked t t.oldest_unacked)) [
          | inl acked ↦
              rw (more, acked)
                (Advanced-step_past t _ ho acked
                  (advance_oldest-Advanced fuel (step_past t) (omega arith) hs (ground arith)))
          | inr open_ ↦ rw (more, open_) (stays (inr open_))
        ]
      ]
    where
      stays :
          (t.oldest_unacked ≡ t.send_sequence) ⊎ (is_acked t t.oldest_unacked ≡ false)
          → Advanced t t
      stays stop = record { passed = 0; moved = omega arith; all_acked = tt; stopped = stop }

  process_bits_keeps :
      (f : AckFields) (rounds i n : ℕ) (t : PacketTracker T)
      → ((process_bits f rounds i (n, t)).1.oldest_unacked ≡ t.oldest_unacked)
        × ((process_bits f rounds i (n, t)).1.send_sequence ≡ t.send_sequence)
  unfolding process_bits count_acked
  process_bits_keeps f zero i n t = (refl, refl)
  process_bits_keeps f (suc rounds) i n t = elim (Bool-cases (test_bit f.ack_bits i)) [
    | inl on ↦
        rw (on, process_bits)
          (ground (
            arith,
            process_bits_keeps f rounds (i + 1)
                (if (mark_acked t (sub16 f.ack (i + 1))).0 then n + 1 else n)
                (mark_acked t (sub16 f.ack (i + 1))).1,
            mark_acked_keeps t (sub16 f.ack (i + 1)),
          ))
    | inr off ↦ rw (off, process_bits) (process_bits_keeps f rounds (i + 1) n t)
  ]

  after_bits_keeps :
      (t : PacketTracker T) (f : AckFields)
      → ((after_bits t f).1.oldest_unacked ≡ t.oldest_unacked)
        × ((after_bits t f).1.send_sequence ≡ t.send_sequence)
  unfolding after_bits count_acked
  after_bits_keeps t f = ground (
    arith,
    process_bits_keeps f 32 0 (if (mark_acked t f.ack).0 then 1 else 0) (mark_acked t f.ack).1,
    mark_acked_keeps t f.ack,
  )

  -- How `oldest_unacked_` moves from `t` to `u`: over `passed` packets, every one of them
  -- acknowledged in `u`, up to the end of what was sent or to a packet that is not acknowledged.
  pub record Progress (t u : PacketTracker T) : Type 0 where
    pub passed : ℕ
    pub moved : u.oldest_unacked ≡ (t.oldest_unacked + passed) % u16_mod
    pub all_acked : AllAcked u t.oldest_unacked passed
    pub stopped : (u.oldest_unacked ≡ u.send_sequence) ⊎ (is_acked u u.oldest_unacked ≡ false)

  -- Processing the fields of a packet moves `oldest_unacked_` over acknowledged packets only, and
  -- as far as it can: the loop ends for its own reason, within the fuel.
  pub process_acks-Progress :
      (t : PacketTracker T) (f : AckFields)
      → t.oldest_unacked < u16_mod
      → t.send_sequence < u16_mod
      → Progress t (process_acks t f).1
  unfolding process_acks after_bits
  process_acks-Progress t f ho hs = progress _ (after_bits t f).1 ((after_bits_keeps t f).0) (
      advance_oldest-Advanced _ (after_bits t f).1 (omega (arith, after_bits_keeps t f))
        (omega (arith, after_bits_keeps t f)) (omega arith))
    where
      progress :
          (fuel : ℕ) (m : PacketTracker T)
          → m.oldest_unacked ≡ t.oldest_unacked
          → Advanced m (advance_oldest fuel m)
          → Progress t (advance_oldest fuel m)
      progress fuel m e a = record {
        passed = a.passed;
        moved = rw (← e) a.moved;
        all_acked =
            AllAcked-sent m (advance_oldest fuel m) _ _ (sym ((advance_oldest-sent fuel m).0))
              (rw (← e) a.all_acked);
        stopped = a.stopped;
      }
