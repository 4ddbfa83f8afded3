-- ===== src/Channel/Scheduler/Choice.antt =====
-- src/channel/channel.h, `ChannelScheduler`: which channel it chooses, and that the scan by mask
-- chooses the same.
use netudp.Base.{
  ℕ, zero, suc, ◌≤◌, ◌<◌, ◌≡◌, refl, ap, ◌∙◌, ◌==◌, ltb, true, false, ◌&&◌, Bool-cases, if-elim,
  Array, Option, some, none, min, arith,
}
use netudp.Base.Bits.{test_bit, test_bit-set_bit, test_bit-zero}
use netudp.Base.Float64.{Float64}
use netudp.Channel.Queue.{Channel, has_pending}
use netudp.Channel.Scheduler.{Best, scan, next_channel, scan_fast, next_channel_fast}

module _ (F : Float64) where
  open F use {Carrier}

  -- `best` is the pending channel of the highest priority among the first `n`, the first such one.
  pub record IsBest (channels : Array (Channel Carrier)) (n : ℕ) (now : Carrier) (best : ℕ)
      : Type 0 where
    pub within : best < n
    pub pending : has_pending F (channels best) now ≡ true
    pub highest :
        (i : ℕ)
        → i < n
        → has_pending F (channels i) now ≡ true
        → (channels i).config.priority ≤ (channels best).config.priority
    pub first :
        (i : ℕ)
        → i < best
        → has_pending F (channels i) now ≡ true
        → (channels i).config.priority < (channels best).config.priority

  -- What the scan may answer: a best channel, or none where none is pending.
  abbrev pub IsChoice : Array (Channel Carrier) → ℕ → Carrier → Option ℕ → Type 0
  IsChoice channels n now (some best) = IsBest channels n now best
  IsChoice channels n now none = (i : ℕ) → i < n → has_pending F (channels i) now ≡ false

  abbrev Scanned : Array (Channel Carrier) → ℕ → Carrier → Best → Type 0
  Scanned channels n now (some best, priority) =
      IsBest channels n now best × (priority ≡ (channels best).config.priority)
  Scanned channels n now (none, priority) = (i : ℕ) → i < n → has_pending F (channels i) now ≡ false

  scan_fast-scan :
      (channels : Array (Channel Carrier)) (n : ℕ) (now : Carrier) (mask : ℕ)
      → ((i : ℕ) → i < n → has_pending F (channels i) now ≡ true → test_bit mask i ≡ true)
      → (scan_fast F channels n now mask).0 ≡ scan F channels n now
  unfolding scan_fast scan
  scan_fast-scan channels zero now mask h = refl
  scan_fast-scan channels (suc n) now mask h = ground (
    arith,
    h n,
    scan_fast-scan channels n now mask (λ i lt e. h i (omega (arith, lt)) e),
    Bool-cases (has_pending F (channels n) now),
  )

  scan-idle :
      (channels : Array (Channel Carrier)) (n : ℕ) (now : Carrier)
      → ((i : ℕ) → i < n → has_pending F (channels i) now ≡ false)
      → (scan F channels n now).0 ≡ none
  unfolding scan
  scan-idle channels zero now h = refl
  scan-idle channels (suc n) now h =
      ground (arith, h n, scan-idle channels n now (λ i lt. h i (omega (arith, lt))))

  scan_fast-mask :
      (channels : Array (Channel Carrier)) (n : ℕ) (now : Carrier) (mask i : ℕ)
      → test_bit (scan_fast F channels n now mask).1 i
        ≡ (ltb i n && (test_bit mask i && has_pending F (channels i) now))
  unfolding scan_fast
  scan_fast-mask channels zero now mask i = ground (arith, test_bit-zero i)
  scan_fast-mask channels (suc n) now mask i = ground (
    arith,
    scan_fast-mask channels n now mask i,
    test_bit-set_bit (scan_fast F channels n now mask).1 n i,
  )

  -- With at most eight channels, whose pending ones all have their bit in the mask, the scan by mask
  -- chooses what `next_channel` chooses, and the new mask has exactly the bits of the pending
  -- channels that had theirs.
  pub next_channel_fast-next_channel :
      (channels : Array (Channel Carrier)) (n : ℕ) (now : Carrier) (mask i : ℕ)
      → n ≤ 8
      → ((i : ℕ) → i < n → has_pending F (channels i) now ≡ true → test_bit mask i ≡ true)
      → let r = next_channel_fast F channels n now mask in
        (r.0 ≡ next_channel F channels n now)
        × (test_bit r.1 i ≡ (ltb i n && (test_bit mask i && has_pending F (channels i) now)))
  unfolding next_channel_fast next_channel
  next_channel_fast-next_channel channels n now mask i small h =
      if-elim
        (λ (r : Option ℕ × ℕ).
          (r.0 ≡ (scan F channels n now).0)
          × (test_bit r.1 i ≡ (ltb i n && (test_bit mask i && has_pending F (channels i) now))))
        (mask == 0)
        (λ e. (
          ground (
            arith,
            scan-idle channels n now (λ i lt.
                ground
                  (arith, e, h i lt, test_bit-zero i, Bool-cases (has_pending F (channels i) now))),
          ),
          ground (arith, e, test_bit-zero i),
        ))
        (λ ne. (
          ap (λ k. (scan_fast F channels k now mask).0.0) (all_of n small)
              ∙ ap (λ b. b.0) (scan_fast-scan channels n now mask h),
          ap (λ k. test_bit (scan_fast F channels k now mask).1 i) (all_of n small)
              ∙ scan_fast-mask channels n now mask i,
        ))
    where
      all_of : (n : ℕ) → n ≤ 8 → min n 8 ≡ n
      all_of n h = omega (arith, h)
