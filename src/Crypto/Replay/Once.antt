-- ===== src/Crypto/Replay/Once.antt =====
-- src/crypto/replay.h: a nonce is let through at most once, and a nonce that was never seen and is
-- inside the window is let through.
use netudp.Base.{ℕ, ◌+◌, ◌%◌, ◌≤◌, ◌<◌, ◌≡◌, ◌≢◌, ◌⊎◌, true, false, List, [], ◌∷◌, arith}
use netudp.Base.Lists.{All}
use netudp.Base.Words.{u64_mod}
use netudp.Crypto.Replay.{
  ReplayProtection, window_size, is_duplicate, advance, offer, offer_all, reset,
}

-- The window rejects `n`: it lies too far back, or its slot holds it.
abbrev pub Covered : ReplayProtection → ℕ → Type 0
Covered r n =
    (n ≤ r.most_recent) × ((n + window_size ≤ r.most_recent) ⊎ (r.received (n % window_size) ≡ n))

pub advance-Covered : (r : ReplayProtection) (n : ℕ) → Covered (advance r n) n
unfolding advance
advance-Covered r n = ground arith

pub advance-Covered_other :
    (r : ReplayProtection) (n m : ℕ)
    → n < u64_mod
    → m < u64_mod
    → r.most_recent < u64_mod
    → is_duplicate r m ≡ false
    → Covered r n
    → Covered (advance r m) n
unfolding advance is_duplicate
advance-Covered_other r n m hn hm hr fresh c = ground arith

pub Covered-is_duplicate :
    (r : ReplayProtection) (n : ℕ)
    → n < u64_mod
    → r.most_recent < u64_mod
    → Covered r n
    → is_duplicate r n ≡ true
unfolding is_duplicate
Covered-is_duplicate r n hn hr c = ground arith

abbrev pub InRange : ReplayProtection → Type 0
InRange r = r.most_recent < u64_mod

offer-InRange : (r : ReplayProtection) (n : ℕ) → n < u64_mod → InRange r → InRange (offer r n)
unfolding offer advance
offer-InRange r n hn h = ground arith

offer-Covered :
    (r : ReplayProtection) (n m : ℕ)
    → n < u64_mod
    → m < u64_mod
    → InRange r
    → Covered r n
    → Covered (offer r m) n
unfolding offer
offer-Covered r n m hn hm hr c = ground (arith, advance-Covered_other r n m)

offer_all-Covered :
    (ms : List ℕ) (r : ReplayProtection) (n : ℕ)
    → n < u64_mod
    → All (λ m. m < u64_mod) ms
    → InRange r
    → Covered r n
    → is_duplicate (offer_all r ms) n ≡ true
unfolding offer_all
offer_all-Covered [] r n hn hs hr c = Covered-is_duplicate r n hn hr c
offer_all-Covered (m ∷ ms) r n hn hs hr c =
    offer_all-Covered ms (offer r m) n hn hs.1 (offer-InRange r m hs.0 hr)
      (offer-Covered r n m hn hs.0 hr c)

-- A 64-bit nonce that was recorded is a duplicate ever after: no sequence of 64-bit nonces offered
-- to the window in between makes it pass the test again.
pub advance-is_duplicate :
    (r : ReplayProtection) (n : ℕ) (ms : List ℕ)
    → n < u64_mod
    → r.most_recent < u64_mod
    → All (λ m. m < u64_mod) ms
    → is_duplicate (offer_all (advance r n) ms) n ≡ true
advance-is_duplicate r n ms hn hr hs =
    offer_all-Covered ms (advance r n) n hn hs (in_range r n hn hr) (advance-Covered r n)
  where
    in_range : (r : ReplayProtection) (n : ℕ) → n < u64_mod → InRange r → InRange (advance r n)
    in_range r n hn hr = unfold advance in (ground arith)

-- What the slots may hold when only nonces other than `n` were offered.
abbrev Unseen : ReplayProtection → ℕ → Type 0
Unseen r n = (i : ℕ) → r.received i ≢ n

offer-Unseen : (r : ReplayProtection) (n m : ℕ) → m ≢ n → Unseen r n → Unseen (offer r m) n
unfolding offer advance
offer-Unseen r n m h u i = ground (arith, u i)

offer_all-Unseen :
    (ms : List ℕ) (r : ReplayProtection) (n : ℕ)
    → All (λ m. m ≢ n) ms
    → Unseen r n
    → Unseen (offer_all r ms) n
unfolding offer_all
offer_all-Unseen [] r n hs u = u
offer_all-Unseen (m ∷ ms) r n hs u =
    offer_all-Unseen ms (offer r m) n hs.1 (offer-Unseen r n m hs.0 u)

-- After a reset, a nonce other than the reserved `UINT64_MAX` that was never offered and is less
-- than 256 behind the most recent one is not a duplicate, provided that `nonce + 256` does not wrap.
pub offer_all-fresh :
    (ms : List ℕ) (n : ℕ)
    → n + window_size < u64_mod
    → All (λ m. m ≢ n) ms
    → (offer_all reset ms).most_recent < n + window_size
    → is_duplicate (offer_all reset ms) n ≡ false
unfolding is_duplicate
offer_all-fresh ms n hn hs near =
    ground (arith, offer_all-Unseen ms reset n hs (reset-Unseen n hn) (n % window_size))
  where
    reset-Unseen : (n : ℕ) → n + window_size < u64_mod → Unseen reset n
    reset-Unseen n hn i e = unfold reset in (omega arith)
