-- ===== src/Replication/Varint/RoundTrip.antt =====
-- src/replication/replicate.cpp: a number of 64 bits is read back as it was written.
use netudp.Base.{
  ℕ, zero, suc, ◌+◌, ◌*◌, ◌/◌, ◌%◌, ◌^◌, ◌≤◌, ◌<◌, ◌≡◌, ◌≢◌, ap, ap₂, ◌∙◌, ◌==◌, some, List, ◌∷◌,
  ◌++◌, if-elim, arith,
}
use native.Mathlib.Nat.{div-add-mod, pow-suc, mul-le-mul_right}
use native.Mathlib.Numerals.{towards_suc}
use netudp.Base.Bits.{test_bit, or_shifted-sum}
use netudp.Base.Lists.{length}
use netudp.Base.Words.{u64_mod}
use netudp.Replication.Varint.{
  max_bytes, encode_loop, varint_encode, merge, decode_loop, varint_decode,
}

merge-sum :
    (result byte shift : ℕ)
    → result < 2 ^ shift
    → result + byte % 128 * 2 ^ shift < u64_mod
    → merge result byte shift ≡ result + byte % 128 * 2 ^ shift
merge-sum result byte shift h fits = omega (arith, fits, or_shifted-sum shift result (byte % 128) h)

next_power : (s : ℕ) → 2 ^ (s + 7) ≡ 128 * 2 ^ s
next_power s = simp towards_suc (omega arith)

-- The lowest group and the rest, both shifted.
groups : (w s : ℕ) → w * 2 ^ s ≡ w % 128 * 2 ^ s + w / 128 * 2 ^ (s + 7)
groups w s = omega (
  arith,
  ap (λ (t : ℕ). t * 2 ^ s) (div-add-mod w 128),
  ap (λ (t : ℕ). w / 128 * t) (next_power s),
)

-- A byte below 128 ends the number, one with the top bit over it does not.
decode_loop_last :
    (byte result shift pos : ℕ) (rest : List ℕ)
    → byte < 128
    → shift < 64
    → decode_loop (byte ∷ rest) result shift pos ≡ some (pos + 1, merge result byte shift)
unfolding decode_loop test_bit
decode_loop_last byte result shift pos rest hb hs = ground (arith, hb, hs)

decode_loop_more :
    (group result shift pos : ℕ) (rest : List ℕ)
    → group < 128
    → shift < 64
    → decode_loop ((group + 128) ∷ rest) result shift pos
      ≡ decode_loop rest (merge result group shift) (shift + 7) (pos + 1)
unfolding decode_loop test_bit
decode_loop_more group result shift pos rest hb hs = ground (arith, hb, hs)

-- The lowest group goes into the result.
merge_group :
    (result w shift : ℕ)
    → result < 2 ^ shift
    → result + w * 2 ^ shift < u64_mod
    → merge result (w % 128) shift ≡ result + w % 128 * 2 ^ shift
merge_group result w shift h fits =
    omega
      (arith, merge-sum result (w % 128) shift h (omega (arith, once, groups w shift, fits)), once)
  where
    once : w % 128 % 128 * 2 ^ shift ≡ w % 128 * 2 ^ shift
    once = ap (λ (t : ℕ). t * 2 ^ shift) (omega arith)

group_fits :
    (result w shift : ℕ) → result < 2 ^ shift → result + w % 128 * 2 ^ shift < 2 ^ (shift + 7)
group_fits result w shift h =
    omega (arith, h, next_power shift, mul-le-mul_right (2 ^ shift) (most w))
  where
    most : (w : ℕ) → w % 128 ≤ 127
    most w = omega arith

decode_loop-encode_loop :
    (fuel w result shift pos : ℕ) (rest : List ℕ)
    → w < 128 ^ fuel
    → shift + 7 * fuel ≤ 70
    → result < 2 ^ shift
    → result + w * 2 ^ shift < u64_mod
    → 0 < fuel
    → decode_loop (encode_loop fuel w ++ rest) result shift pos
      ≡ some (pos + length (encode_loop fuel w), result + w * 2 ^ shift)
unfolding encode_loop
decode_loop-encode_loop zero w result shift pos rest hw hs hr fits hf = absurd (omega (arith, hf))
decode_loop-encode_loop (suc fuel) w result shift pos rest hw hs hr fits hf =
    if-elim
      (λ bs.
        decode_loop (bs ++ rest) result shift pos ≡ some (pos + length bs, result + w * 2 ^ shift))
      (w / 128 == 0)
      (λ small.
        decode_loop_last (w % 128) result shift pos rest (omega arith) (omega (arith, hs))
        ∙ ap (λ t. some (pos + 1, t))
            (merge_group result w shift hr fits
              ∙ ap (λ t. result + t * 2 ^ shift) (ground (arith, small))))
      (λ big.
        decode_loop_more (w % 128) result shift pos (encode_loop fuel (w / 128) ++ rest)
          (omega arith) (omega (arith, hs))
        ∙ ap (λ t. decode_loop (encode_loop fuel (w / 128) ++ rest) t (shift + 7) (pos + 1))
            (merge_group result w shift hr fits)
        ∙ decode_loop-encode_loop fuel (w / 128) (result + w % 128 * 2 ^ shift) (shift + 7)
            (pos + 1) rest (omega (arith, hw, pow-suc 128 fuel)) (omega (arith, hs))
            (group_fits result w shift hr) (omega (arith, fits, groups w shift))
            (more_fuel w fuel hw (ground (arith, big)))
        ∙ ap some (ap₂ (λ a b. (a, b)) (omega arith) (omega (arith, groups w shift))))
  where
    more_fuel : (w fuel : ℕ) → w < 128 ^ suc fuel → w / 128 ≢ 0 → 0 < fuel
    more_fuel w zero hw big = absurd (omega (arith, hw, big))
    more_fuel w (suc fuel) hw big = omega arith

-- A 64-bit number that was written is read back, with the number of bytes that it took, whatever
-- follows it.
pub varint_decode-varint_encode :
    (val : ℕ) (rest : List ℕ)
    → val < u64_mod
    → varint_decode (varint_encode val ++ rest) ≡ some (length (varint_encode val), val)
unfolding varint_decode varint_encode
varint_decode-varint_encode val rest h =
    decode_loop-encode_loop max_bytes val 0 0 0 rest (omega (arith, h)) (omega arith) (omega arith)
      (omega (arith, h)) (omega arith)
    ∙ ap some (ap₂ (λ a b. (a, b)) (omega arith) (omega arith))

-- At least one byte is written.
pub varint_encode-length : (val : ℕ) → 0 < length (varint_encode val)
unfolding varint_encode encode_loop
varint_encode-length val =
    if-elim (λ (bs : List ℕ). 0 < length bs) (val / 128 == 0) (λ small. omega arith)
      (λ big. omega arith)
