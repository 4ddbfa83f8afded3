-- ===== src/Fragment/Counts.antt =====
-- src/fragment/fragment.h: how many fragments a message has, their headers, and the mask of those that
-- were received.
use netudp.Base.{
  ℕ, zero, suc, ◌+◌, ◌-◌, ◌*◌, ◌/◌, ◌%◌, ◌^◌, ◌≤◌, ◌<◌, ◌≡◌, ap, ◌∙◌, ◌⊎◌, inl, inr, ltb, ◌==◌,
  true, Bool-cases, if◌then◌else◌, arith,
}
use native.Mathlib.Nat.{div-add-mod, mod-lt, mul-suc, mul-le-mul_right, mul-zero, suc-mul, mul_comm}
use netudp.Base.Bits.{test_bit, test_bit-set_bit}
use netudp.Base.Bytes.{bytes_le, read_le}
use netudp.Base.Int.{pos, negsuc, ltℤ}
use netudp.Base.Words.{u16_mod, u32_mod}
use netudp.Fragment.{
  max_fragment_count, FragmentHeader, write_fragment_header, read_fragment_header,
  calc_fragment_count, div_int, FragmentTracker, has_fragment, mark_fragment,
}

-- A header is read back as it was written, its message number a 16-bit word.
pub read_fragment_header-write_fragment_header :
    (hdr : FragmentHeader)
    → hdr.message_id < u16_mod
    → read_fragment_header (write_fragment_header hdr) ≡ hdr
unfolding read_fragment_header write_fragment_header bytes_le read_le
read_fragment_header-write_fragment_header hdr h =
    ap (λ id. record hdr { message_id = id }) (omega (arith, h))

-- Marking a fragment marks that one and no other.
pub has_fragment-mark_fragment :
    {T : Type 0} (t : FragmentTracker T) (i j : ℕ)
    → has_fragment (mark_fragment t i) j ≡ (if i == j then true else has_fragment t j)
unfolding has_fragment mark_fragment
has_fragment-mark_fragment t i j = ground (
  arith,
  test_bit-set_bit (t.received_mask (i / 8)) (i % 8) (j % 8),
  Bool-cases (test_bit (t.received_mask (i / 8)) (i % 8)),
)

-- Rounding up: the quotient holds `n`, and one less does not.
tight :
    (n m q r : ℕ) → 0 < n → 0 < m → m * q + r ≡ n + m - 1 → r < m → (n ≤ q * m) × ((q - 1) * m < n)
tight n m zero r hn hm e lt = absurd (omega (arith, hn, hm, e, lt, mul-zero m))
tight n m (suc q) r hn hm e lt = (
  omega (arith, hm, e, lt, mul-suc m q, suc-mul q m, mul_comm q m),
  omega (arith, hm, e, lt, mul-suc m q, ap (λ k. k * m) (less q), mul_comm q m),
)
  where
    less : (q : ℕ) → suc q - 1 ≡ q
    less q = omega arith

no_overflow :
    (size max_payload : ℕ)
    → 0 < max_payload
    → size + max_payload ≤ 2 ^ 31
    → div_int ((size + max_payload - 1) % u32_mod) max_payload
      ≡ pos ((size + max_payload - 1) / max_payload)
unfolding div_int
no_overflow size max_payload hm small =
    ap (λ x. div_int x max_payload) (unwrapped (size + max_payload - 1) (omega (arith, hm, small)))
    ∙ ground (arith, hm, small)
  where
    unwrapped : (x : ℕ) → x < 2 ^ 31 → x % u32_mod ≡ x
    unwrapped x h = omega (arith, h)

-- With one more fragment than the 255 needed, 255 do not hold the message.
too_many :
    (q m size : ℕ) → max_fragment_count < q → (q - 1) * m < size → max_fragment_count * m < size
too_many q m size h lt = omega (arith, lt, mul-le-mul_right m (below q h))
  where
    below : (q : ℕ) → max_fragment_count < q → max_fragment_count ≤ q - 1
    below q h = omega (arith, h)

-- For a message and a payload that are not empty, the two sizes together inside the range of `int`,
-- there are two cases. Either 255 fragments do not hold the message, and the result is -1, or the
-- result is a number of fragments, 255 at most, that holds the message with no fragment to spare.
pub calc_fragment_count-tight :
    (size max_payload : ℕ)
    → 0 < size
    → 0 < max_payload
    → size + max_payload ≤ 2 ^ 31
    → ((max_fragment_count * max_payload < size)
        × (calc_fragment_count size max_payload ≡ negsuc 0))
      ⊎ ((count : ℕ) × (calc_fragment_count size max_payload ≡ pos count)
          × (size ≤ count * max_payload)
          × ((count - 1) * max_payload < size)
          × (count ≤ max_fragment_count))
unfolding calc_fragment_count ltℤ
calc_fragment_count-tight size m hs hm small =
    let q = (size + m - 1) / m in
    let (holds, spare) =
      tight size m q ((size + m - 1) % m) hs hm (div-add-mod (size + m - 1) m)
        (mod-lt (size + m - 1) {m = m} hm) in
    elim (Bool-cases (ltb max_fragment_count q)) [
      | inl many ↦ inl (
        too_many q m size (ground (arith, many)) spare,
        ground (arith, hs, hm, no_overflow size m hm small, many),
      )
      | inr few ↦ inr (
        q,
        ground (arith, hs, hm, no_overflow size m hm small, few),
        holds,
        spare,
        ground (arith, few),
      )
    ]
