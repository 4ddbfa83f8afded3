-- ===== src/Replication/Codec/Update.antt =====
-- src/replication/replicate.cpp: an update puts the properties of its mask into the receiver's values
-- and leaves the others.
use netudp.Base.{
  ℕ, zero, suc, ◌+◌, ◌≤◌, ◌<◌, ◌≡◌, refl, sym, ap, ap₂, ◌∙◌, subst, ◌==◌, Bool, true, false,
  if◌then◌else◌, Array, ◌++◌, inl, inr, Bool-cases, if-elim, arith,
}
use netudp.Base.Bits.{test_bit}
use netudp.Base.Bytes.{bytes_le, length-bytes_le}
use netudp.Base.Lists.{length, length-append}
use netudp.Base.Memory.{copy_at, bytes_from, copy_at-outside, bytes_from-ext, bytes_from-copy_at}
use netudp.Replication.Quantize.{Float32}
use netudp.Replication.Schema.{PropDesc, Schema}
use netudp.Replication.Schema.Layout.{IsLaidOut}
use netudp.Replication.Codec.{
  Bytes, Coding, raw, half, packed_vec3, packed_quat, coding, wire_len, value_len, decode_vec3,
  decode_quat, decode, value_of,
}
use netudp.Replication.Codec.RoundTrip.{
  length-bytes_from, length-take, length-encode, restored, applied,
}

-- The values of the entity take the bytes that the schema has for them.
abbrev pub HasFullSizes : Schema → Type 0
HasFullSizes s =
    (i : ℕ)
    → i < s.prop_count
    → value_len (coding (s.props i)) (s.props i).raw_size ≡ (s.props i).raw_size

word_before : (x : ℕ) (bs : Bytes) (n : ℕ) → length bs ≡ n → length (bytes_le 4 x ++ bs) ≡ 4 + n
word_before x bs n h = length-append (bytes_le 4 x) bs ∙ ap₂ ◌+◌ (length-bytes_le 4 x) h

module _ (F : Float32) where
  length-decode :
      (c : Coding) (raw_size : ℕ) (wire : Bytes)
      → length wire ≡ wire_len c raw_size
      → length (decode F c raw_size wire) ≡ value_len c raw_size
  unfolding decode wire_len value_len decode_vec3 decode_quat
  length-decode raw r wire h = length-take r wire (omega (arith, h))
  length-decode half r wire h = length-bytes_le 4 _
  length-decode packed_vec3 r wire h = word_before _ _ 8 (word_before _ _ 4 (length-bytes_le 4 _))
  length-decode packed_quat r wire h =
      word_before _ _ 12 (word_before _ _ 8 (word_before _ _ 4 (length-bytes_le 4 _)))

  length-restored :
      (values : Array ℕ) (pd : PropDesc)
      → length (restored F values pd) ≡ value_len (coding pd) pd.raw_size
  unfolding value_of
  length-restored values pd =
      length-decode (coding pd) pd.raw_size _
        (length-encode F (coding pd) pd.raw_size _ (length-bytes_from values pd.offset _))

  module _ (s : Schema) (laid_out : IsLaidOut s) (full : HasFullSizes s) (sent : Array ℕ) where
    abbrev put : Array ℕ → ℕ → Array ℕ
    put values i = copy_at values (s.props i).offset (restored F sent (s.props i))

    value_of-put_later :
        (values : Array ℕ) (i j : ℕ)
        → i < s.prop_count
        → j < i
        → value_of F (put values i) (s.props j) ≡ value_of F values (s.props j)
    unfolding value_of
    value_of-put_later values i j hi lt = bytes_from-ext _ _ _ _ (λ k lo up.
        copy_at-outside values (s.props i).offset (restored F sent (s.props i)) k
          (inl (omega (arith, up, laid_out.apart j i lt hi, full j (omega (arith, lt, hi))))))

    value_of-put_earlier :
        (values : Array ℕ) (i j : ℕ)
        → j < s.prop_count
        → i < j
        → value_of F (put values i) (s.props j) ≡ value_of F values (s.props j)
    unfolding value_of
    value_of-put_earlier values i j hj lt = bytes_from-ext _ _ _ _ (λ k lo up.
        copy_at-outside values (s.props i).offset (restored F sent (s.props i)) k (
          inr (
            omega (
              arith,
              lo,
              laid_out.apart i j lt hj,
              full i (omega (arith, lt, hj)),
              length-restored sent (s.props i),
            ))))

    value_of-put :
        (values : Array ℕ) (i : ℕ)
        → value_of F (put values i) (s.props i) ≡ restored F sent (s.props i)
    unfolding value_of
    value_of-put values i =
        ap (bytes_from (put values i) (s.props i).offset) (sym (length-restored sent (s.props i)))
        ∙ bytes_from-copy_at values (s.props i).offset (restored F sent (s.props i))

    abbrev step : ℕ → ℕ → Array ℕ → Array ℕ
    step mask i values = if test_bit mask i then put values i else values

    applied-before :
        (mask i n j : ℕ) (values : Array ℕ)
        → i + n ≤ s.prop_count
        → j < i
        → value_of F (applied F sent s mask i n values) (s.props j) ≡ value_of F values (s.props j)
    applied-before mask i zero j values fits lt = refl
    applied-before mask i (suc n) j values fits lt =
        applied-before mask (i + 1) n j (step mask i values) (omega (arith, fits))
          (omega (arith, lt))
        ∙ if-elim (λ (v : Array ℕ). value_of F v (s.props j) ≡ value_of F values (s.props j))
            (test_bit mask i) (λ in_mask. value_of-put_later values i j (omega (arith, fits)) lt)
            (λ out. refl)

    -- The values after an update.
    pub value_of-applied :
        (mask i n j : ℕ) (values : Array ℕ)
        → i + n ≤ s.prop_count
        → i ≤ j
        → j < i + n
        → value_of F (applied F sent s mask i n values) (s.props j)
          ≡ (if test_bit mask j then restored F sent (s.props j) else value_of F values (s.props j))
    value_of-applied mask i zero j values fits lo up = absurd (omega (arith, lo, up))
    value_of-applied mask i (suc n) j values fits lo up = elim (Bool-cases (i == j)) [
      | inl same ↦
          applied-before mask (i + 1) n j (step mask i values) (omega (arith, fits))
            (ground (arith, same))
          ∙ subst
              (λ (k : ℕ). value_of F (step mask i values) (s.props k) ≡ (
                if test_bit mask k
                then restored F sent (s.props k)
                else value_of F values (s.props k)))
              (ground (arith, same)) (now i)
      | inr other ↦
          value_of-applied mask (i + 1) n j (step mask i values) (omega (arith, fits))
            (ground (arith, other, lo)) (omega (arith, up))
          ∙ ap (λ (v : Bytes). if test_bit mask j then restored F sent (s.props j) else v)
              (if-elim (λ (v : Array ℕ). value_of F v (s.props j) ≡ value_of F values (s.props j))
                (test_bit mask i)
                (λ in_mask.
                  value_of-put_earlier values i j (omega (arith, fits, up))
                    (ground (arith, other, lo)))
                (λ out. refl))
    ]
      where
        now :
            (k : ℕ)
            → value_of F (step mask k values) (s.props k) ≡ (
                if test_bit mask k
                then restored F sent (s.props k)
                else value_of F values (s.props k))
        now k =
            elim (test_bit mask k)
              as (λ (b : Bool).
                value_of F (if b then put values k else values) (s.props k)
                ≡ (if b then restored F sent (s.props k) else value_of F values (s.props k))) [
                  | false ↦ refl
                  | true ↦ value_of-put values k
                ]

-- What comes out of an update: the receiver's position, and for each property the sender's value
-- after the way over the wire or the receiver's own.
abbrev pub HasUpdate : (F : Float32) → Schema → Array ℕ → ℕ → Array ℕ → Array ℕ → Type 0
HasUpdate F s sent mask before after =
    (i : ℕ)
    → i < s.prop_count
    → value_of F after (s.props i)
      ≡ (if test_bit mask i then restored F sent (s.props i) else value_of F before (s.props i))
