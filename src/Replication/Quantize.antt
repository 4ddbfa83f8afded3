-- ===== src/Replication/Quantize.antt =====
-- src/replication/replicate.cpp: three coordinates in 11 + 11 + 10 bits, and a unit quaternion as its
-- three smaller components. The operations of `float` are an interface. The fields that `|` joins do
-- not overlap, so it is a sum.
pub mod Vec3
use netudp.Base.{
  ℕ, zero, suc, ◌+◌, ◌-◌, ◌*◌, ◌/◌, ◌%◌, ◌^◌, ◌==◌, ltb, Bool, true, false, if◌then◌else◌,
}
use netudp.Base.Int.{ℤ, pos, negsuc, add_nat, sub_nat, to_nat, clamp_i}

-- `float`, with its bits and its conversions from and to `int32_t`.
pub record Float32 : Type 1 where
  pub Carrier : Type 0
  pub of_bits : ℕ → Carrier
  pub to_bits : Carrier → ℕ
  pub of_int : ℤ → Carrier
  pub to_int : Carrier → ℤ
  -- a literal, given as a quotient
  pub of_ratio : ℕ → ℕ → Carrier
  pub add : Carrier → Carrier → Carrier
  pub sub : Carrier → Carrier → Carrier
  pub mul : Carrier → Carrier → Carrier
  pub div : Carrier → Carrier → Carrier
  pub neg : Carrier → Carrier
  pub fabs : Carrier → Carrier
  pub sqrt : Carrier → Carrier
  pub lt : Carrier → Carrier → Bool

abbrev pub Triple : Type 0 → Type 0
Triple T = T × T × T

-- One coordinate's field of `bits` bits: the number clamped to its signed range and made unsigned.
unfoldable pub field : ℕ → ℤ → ℕ
field half v = to_nat (add_nat (clamp_i v (negsuc (half - 1)) (pos (half - 1))) half) % (2 * half)

module _ (F : Float32) where
  open F use {Carrier, of_int, to_int, of_ratio, add, sub, mul, div, neg, fabs, sqrt, lt}

  -- `static_cast<int32_t>(v * 2.0f)`
  unfoldable pub half_steps : Carrier → ℤ
  half_steps v = to_int (mul v (of_ratio 2 1))

  unfoldable pub vec3_quantize : Triple Carrier → ℕ
  vec3_quantize (x, y, z) =
      field 1024 (half_steps x)
      + field 1024 (half_steps y) * 2 ^ 11
      + field 512 (half_steps z) * 2 ^ 22

  -- `static_cast<float>(v) * 0.5f`
  unfoldable pub from_steps : ℤ → Carrier
  from_steps v = mul (of_int v) (of_ratio 1 2)

  unfoldable pub vec3_dequantize : ℕ → Triple Carrier
  vec3_dequantize packed = (
    from_steps (sub_nat (pos (packed % 2 ^ 11)) 1024),
    from_steps (sub_nat (pos (packed / 2 ^ 11 % 2 ^ 11)) 1024),
    from_steps (sub_nat (pos (packed / 2 ^ 22 % 2 ^ 10)) 512),
  )

  -- The four components as a function of the index; the index of the largest, and its absolute value.
  unfoldable pub largest : (ℕ → Carrier) → ℕ → ℕ × Carrier
  largest q zero = (0, fabs (q 0))
  largest q (suc n) =
      let (i, most) = largest q n in
      let a = fabs (q (suc n)) in if lt most a then (suc n, a) else (i, most)

  -- The place among the four of the `k`-th component that is kept.
  unfoldable pub kept : ℕ → ℕ → ℕ
  kept max_idx k = if ltb k max_idx then k else k + 1

  unfoldable pub to10 : Carrier → ℕ
  to10 v = to_nat (
      clamp_i
        (to_int
          (add (mul (add (mul v (of_ratio 1 2)) (of_ratio 1 2)) (of_ratio 1023 1)) (of_ratio 1 2)))
        (pos 0) (pos 1023))

  unfoldable pub quat_quantize : (ℕ → Carrier) → ℕ
  quat_quantize q =
      let max_idx = (largest q 3).0 in
      let sign = if lt (q max_idx) (of_ratio 0 1) then neg (of_ratio 1 1) else of_ratio 1 1 in
      let small = λ (k : ℕ). mul (q (kept max_idx k)) sign in
      max_idx * 2 ^ 30 + to10 (small 0) * 2 ^ 20 + to10 (small 1) * 2 ^ 10 + to10 (small 2)

  unfoldable pub from10 : ℕ → Carrier
  from10 v = mul (sub (div (of_int (pos v)) (of_ratio 1023 1)) (of_ratio 1 2)) (of_ratio 2 1)

  unfoldable pub quat_dequantize : ℕ → ℕ → Carrier
  quat_dequantize packed i =
      let max_idx = packed / 2 ^ 30 % 4 in
      let small = λ (k : ℕ). from10 (packed / 2 ^ ((2 - k) * 10) % 2 ^ 10) in
      let sum_sq =
        add (add (mul (small 0) (small 0)) (mul (small 1) (small 1))) (mul (small 2) (small 2)) in
      if i == max_idx
      then (if lt sum_sq (of_ratio 1 1) then sqrt (sub (of_ratio 1 1) sum_sq) else of_ratio 0 1)
      else small (if ltb i max_idx then i else i - 1)
