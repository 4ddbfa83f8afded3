-- ===== src/Base/Bits.antt =====
-- Bits of an unsigned word by recursion on the position, with the laws of setting, shifting and
-- truncating at every width. `test_bit-pow` ties the recursion to `(x >> i) & 1`.
use Prim.Native.Nat.{ℕ, zero, suc, ◌+◌, ◌-◌, ◌*◌, ◌/◌, ◌%◌, ◌^◌, ◌≤◌, ◌<◌, bit_or, bit_or-bitwise}
use mathlib.Core.Path.{◌≡◌, refl, ap, sym, ◌∙◌}
use mathlib.Core.Bool.{Bool, true, false}
use native.Mathlib.Nat.{pow-suc, pow-succ', div-div-eq-div-mul, div-add-mod, mul_comm}
use native.Mathlib.Omega.{arith}
use netudp.Base.Tests.{◌==◌, ltb, if◌then◌else◌}

-- `(x & (1 << i)) != 0`
unfoldable pub test_bit : ℕ → ℕ → Bool
test_bit x zero = x % 2 == 1
test_bit x (suc i) = test_bit (x / 2) i

-- `x | (1 << i)`
unfoldable pub set_bit : ℕ → ℕ → ℕ
set_bit x zero = x / 2 * 2 + 1
set_bit x (suc i) = set_bit (x / 2) i * 2 + x % 2

-- `x << s`, unbounded
unfoldable pub shift_left : ℕ → ℕ → ℕ
shift_left x zero = x
shift_left x (suc s) = shift_left x s * 2

-- the low `k` bits of `x`: a cast to a `k`-bit word
unfoldable pub low_bits : ℕ → ℕ → ℕ
low_bits zero x = 0
low_bits (suc k) x = low_bits k (x / 2) * 2 + x % 2

-- `x | (y << s)`
unfoldable pub or_shifted : ℕ → ℕ → ℕ → ℕ
or_shifted zero x y = bit_or x y
or_shifted (suc s) x y = or_shifted s (x / 2) y * 2 + x % 2

-- `x & ~(1 << i)`
unfoldable pub clear_bit : ℕ → ℕ → ℕ
clear_bit x zero = x / 2 * 2
clear_bit x (suc i) = clear_bit (x / 2) i * 2 + x % 2

bit_or-zero : (y : ℕ) → bit_or 0 y ≡ y
bit_or-zero y = simp bit_or-bitwise refl

-- Where no bit of `x` is in the way, the or is a sum.
pub or_shifted-sum : (s x y : ℕ) → x < 2 ^ s → or_shifted s x y ≡ x + y * 2 ^ s
unfolding or_shifted
or_shifted-sum zero x y h =
    ap (λ t. bit_or t y) (omega (arith, h)) ∙ bit_or-zero y ∙ omega (arith, h)
or_shifted-sum (suc s) x y h = omega (
  arith,
  h,
  pow-suc 2 s,
  or_shifted-sum s (x / 2) y (omega (arith, h, pow-suc 2 s)),
  ap (λ (t : ℕ). y * t) (pow-suc 2 s),
)

pub test_bit-set_bit :
    (x i j : ℕ) → test_bit (set_bit x i) j ≡ (if i == j then true else test_bit x j)
unfolding test_bit set_bit
test_bit-set_bit x zero zero = ground arith
test_bit-set_bit x zero (suc j) = ap (λ t. test_bit t j) (half x) ∙ ground arith
  where
    half : (x : ℕ) → (x / 2 * 2 + 1) / 2 ≡ x / 2
    half x = omega arith
test_bit-set_bit x (suc i) zero = ground arith
test_bit-set_bit x (suc i) (suc j) =
    ap (λ t. test_bit t j) (half x (set_bit (x / 2) i))
    ∙ test_bit-set_bit (x / 2) i j
    ∙ ground arith
  where
    half : (x y : ℕ) → (y * 2 + x % 2) / 2 ≡ y
    half x y = omega arith

pub test_bit-shift_left :
    (x s j : ℕ) → test_bit (shift_left x s) j ≡ (if ltb j s then false else test_bit x (j - s))
unfolding test_bit shift_left
test_bit-shift_left x zero j = ground arith
test_bit-shift_left x (suc s) zero = ground arith
test_bit-shift_left x (suc s) (suc j) =
    ap (λ t. test_bit t j) (half (shift_left x s)) ∙ test_bit-shift_left x s j ∙ ground arith
  where
    half : (y : ℕ) → y * 2 / 2 ≡ y
    half y = omega arith

pub test_bit-low_bits :
    (k x j : ℕ) → test_bit (low_bits k x) j ≡ (if ltb j k then test_bit x j else false)
unfolding test_bit low_bits
test_bit-low_bits zero x zero = ground arith
test_bit-low_bits zero x (suc j) = test_bit-zero j ∙ ground arith
  where
    test_bit-zero : (j : ℕ) → test_bit 0 j ≡ false
    test_bit-zero zero = refl
    test_bit-zero (suc j) = test_bit-zero j
test_bit-low_bits (suc k) x zero = ground arith
test_bit-low_bits (suc k) x (suc j) =
    ap (λ t. test_bit t j) (half x (low_bits k (x / 2)))
    ∙ test_bit-low_bits k (x / 2) j
    ∙ ground arith
  where
    half : (x y : ℕ) → (y * 2 + x % 2) / 2 ≡ y
    half x y = omega arith

pub test_bit-zero : (j : ℕ) → test_bit 0 j ≡ false
unfolding test_bit
test_bit-zero zero = refl
test_bit-zero (suc j) = test_bit-zero j

pub low_bits-lt : (k x : ℕ) → low_bits k x < 2 ^ k
unfolding low_bits
low_bits-lt zero x = omega arith
low_bits-lt (suc k) x = omega (arith, low_bits-lt k (x / 2), pow-suc 2 k)

halved : (x m : ℕ) → x / (m * 2) ≡ x / 2 / m
halved x m = rw (mul_comm m 2) (sym (div-div-eq-div-mul x 2 m))

split_mod : (x m : ℕ) → x / 2 % m * 2 + x % 2 ≡ x % (m * 2)
split_mod x m =
    omega (arith, div-add-mod (x / 2) m, div-add-mod x (m * 2), ap (λ (t : ℕ). m * t) (halved x m))

-- A cast to a `k`-bit word is the remainder modulo `2 ^ k`.
pub low_bits-mod : (k x : ℕ) → low_bits k x ≡ x % 2 ^ k
unfolding low_bits
low_bits-mod zero x = omega arith
low_bits-mod (suc k) x = rw (low_bits-mod k (x / 2), pow-suc) (split_mod x (2 ^ k))

-- The recursion reads the bit that `(x >> i) & 1` reads.
pub test_bit-pow : (x i : ℕ) → test_bit x i ≡ (x / 2 ^ i % 2 == 1)
unfolding test_bit
test_bit-pow x zero = ap (λ t. t % 2 == 1) (omega arith)
test_bit-pow x (suc i) =
    test_bit-pow (x / 2) i
    ∙ ap (λ t. t % 2 == 1) (sym (rw (pow-succ' 2 i) (sym (div-div-eq-div-mul x 2 (2 ^ i)))))

pub test_bit-clear_bit :
    (x i j : ℕ) → test_bit (clear_bit x i) j ≡ (if i == j then false else test_bit x j)
unfolding test_bit clear_bit
test_bit-clear_bit x zero zero = ground arith
test_bit-clear_bit x zero (suc j) = ap (λ t. test_bit t j) (half x) ∙ ground arith
  where
    half : (x : ℕ) → x / 2 * 2 / 2 ≡ x / 2
    half x = omega arith
test_bit-clear_bit x (suc i) zero = ground arith
test_bit-clear_bit x (suc i) (suc j) =
    ap (λ t. test_bit t j) (half x (clear_bit (x / 2) i))
    ∙ test_bit-clear_bit (x / 2) i j
    ∙ ground arith
  where
    half : (x y : ℕ) → (y * 2 + x % 2) / 2 ≡ y
    half x y = omega arith

pub clear_bit-le : (x i : ℕ) → clear_bit x i ≤ x
unfolding clear_bit
clear_bit-le x zero = omega arith
clear_bit-le x (suc i) = omega (arith, clear_bit-le (x / 2) i)
