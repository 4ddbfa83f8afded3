-- ===== src/Base/Int.antt =====
-- Signed integers over the native numbers: `negsuc n` is -(n + 1).
use netudp.Base.Tests.{ltb, leb, if◌then◌else◌}
use Prim.Native.Nat.{ℕ, ◌+◌, ◌-◌}
use mathlib.Core.Bool.{Bool, true, false}

pub data ℤ : Type 0 where
  pos : ℕ → ℤ
  negsuc : ℕ → ℤ

unfoldable pub ltℤ : ℤ → ℤ → Bool
ltℤ (pos m) (pos n) = ltb m n
ltℤ (pos m) (negsuc n) = false
ltℤ (negsuc m) (pos n) = true
ltℤ (negsuc m) (negsuc n) = ltb n m

-- `v + n`
unfoldable pub add_nat : ℤ → ℕ → ℤ
add_nat (pos m) n = pos (m + n)
add_nat (negsuc m) n = if ltb m n then pos (n - (m + 1)) else negsuc (m - n)

-- `v - n`
unfoldable pub sub_nat : ℤ → ℕ → ℤ
sub_nat (pos m) n = if leb n m then pos (m - n) else negsuc (n - m - 1)
sub_nat (negsuc m) n = negsuc (m + n)

-- Of a number that is not negative, its value.
unfoldable pub to_nat : ℤ → ℕ
to_nat (pos m) = m
to_nat (negsuc m) = 0

-- `(v < lo) ? lo : (v > hi) ? hi : v`
unfoldable pub clamp_i : ℤ → ℤ → ℤ → ℤ
clamp_i v lo hi = if ltℤ v lo then lo else if ltℤ hi v then hi else v
