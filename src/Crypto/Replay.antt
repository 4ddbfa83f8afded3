-- ===== src/Crypto/Replay.antt =====
-- src/crypto/replay.h: the 256-entry window over 64-bit nonce counters. A `uint64_t` sum is taken
-- modulo 2^64.
pub mod Once
mod Tests
use netudp.Base.{
  ℕ, ◌+◌, ◌-◌, ◌%◌, ◌^◌, Bool, true, false, not, ◌&&◌, ltb, leb, ◌==◌, if◌then◌else◌, Array, update,
  List, [], ◌∷◌,
}
use netudp.Base.Words.{u64_mod}

abbrev pub window_size : ℕ
window_size = 256

-- `UINT64_MAX`
abbrev pub empty_slot : ℕ
empty_slot = u64_mod - 1

pub record ReplayProtection : Type 0 where
  pub most_recent : ℕ
  pub received : Array ℕ

-- The slot of a nonce is `nonce % WINDOW_SIZE`, so every index is in range.
unfoldable pub is_duplicate : ReplayProtection → ℕ → Bool
is_duplicate r nonce =
    if leb window_size r.most_recent && leb ((nonce + window_size) % u64_mod) r.most_recent
    then true
    else not (r.received (nonce % window_size) == empty_slot)
      && (r.received (nonce % window_size) == nonce)

unfoldable pub advance : ReplayProtection → ℕ → ReplayProtection
advance r nonce = record {
  most_recent = if ltb r.most_recent nonce then nonce else r.most_recent;
  received = update r.received (nonce % window_size) nonce;
}

unfoldable pub reset : ReplayProtection
reset = record { most_recent = 0; received = λ i. empty_slot }

-- One incoming nonce as the receiver treats it: tested, and recorded if it is let through.
unfoldable pub offer : ReplayProtection → ℕ → ReplayProtection
offer r nonce = if is_duplicate r nonce then r else advance r nonce

-- The nonces that arrive one after the other.
unfoldable pub offer_all : ReplayProtection → List ℕ → ReplayProtection
offer_all r [] = r
offer_all r (n ∷ ns) = offer_all (offer r n) ns
