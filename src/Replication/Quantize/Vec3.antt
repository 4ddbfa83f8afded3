-- ===== src/Replication/Quantize/Vec3.antt =====
-- src/replication/replicate.cpp: what is left of three coordinates after the packing.
use netudp.Base.{ℕ, ◌+◌, ◌*◌, ◌/◌, ◌%◌, ◌^◌, ◌<◌, ◌≡◌, ap, ◌∙◌, arith}
use netudp.Base.Int.{ℤ, pos, negsuc, ltℤ, add_nat, sub_nat, to_nat, clamp_i}
use netudp.Replication.Quantize.{
  Float32, Triple, field, half_steps, from_steps, vec3_quantize, vec3_dequantize,
}

field-lt : (v : ℤ) → (field 1024 v < 2 ^ 11) × (field 512 v < 2 ^ 10)
unfolding field
field-lt v = (omega arith, omega arith)

-- A field gives back the clamped number.
field-back :
    (v : ℤ)
    → (sub_nat (pos (field 1024 v)) 1024 ≡ clamp_i v (negsuc 1023) (pos 1023))
      × (sub_nat (pos (field 512 v)) 512 ≡ clamp_i v (negsuc 511) (pos 511))
unfolding field to_nat add_nat sub_nat clamp_i ltℤ
field-back (pos n) = ground arith
field-back (negsuc n) = ground arith

-- The fields of three numbers are read off the packed word.
unpacked :
    (x y z : ℕ)
    → x < 2 ^ 11
    → y < 2 ^ 11
    → z < 2 ^ 10
    → let packed = x + y * 2 ^ 11 + z * 2 ^ 22 in
      (packed % 2 ^ 11 ≡ x) × (packed / 2 ^ 11 % 2 ^ 11 ≡ y) × (packed / 2 ^ 22 % 2 ^ 10 ≡ z)
unpacked x y z hx hy hz = (omega arith, omega arith, omega arith)

-- Coordinates come back in steps of one half, rounded as the cast to an integer rounds twice the
-- coordinate, and clamped to -1024 … 1023 steps, the third one to -512 … 511.
pub vec3_dequantize-vec3_quantize :
    (F : Float32) (x y z : F.Carrier)
    → vec3_dequantize F (vec3_quantize F (x, y, z)) ≡ (
      from_steps F (clamp_i (half_steps F x) (negsuc 1023) (pos 1023)),
      from_steps F (clamp_i (half_steps F y) (negsuc 1023) (pos 1023)),
      from_steps F (clamp_i (half_steps F z) (negsuc 511) (pos 511)),
    )
unfolding vec3_dequantize vec3_quantize
vec3_dequantize-vec3_quantize F x y z =
    let fx = field 1024 (half_steps F x) in
    let fy = field 1024 (half_steps F y) in
    let fz = field 512 (half_steps F z) in
    let words =
      unpacked fx fy fz (field-lt (half_steps F x)).0 (field-lt (half_steps F y)).0
        (field-lt (half_steps F z)).1 in
    triple
      (ap (from_steps F) (ap (λ n. sub_nat (pos n) 1024) words.0 ∙ (field-back (half_steps F x)).0))
      (ap (from_steps F) (ap (λ n. sub_nat (pos n) 1024) words.1 ∙ (field-back (half_steps F y)).0))
      (ap (from_steps F) (ap (λ n. sub_nat (pos n) 512) words.2 ∙ (field-back (half_steps F z)).1))
  where
    triple :
        {A : Type 0} {a b c a' b' c' : A}
        → a ≡ a'
        → b ≡ b'
        → c ≡ c'
        → ◌≡◌ {A = Triple A} (a, b, c) (a', b', c')
    triple p q r = λ i. (p i, q i, r i)
