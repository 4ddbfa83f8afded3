-- ===== src/Replication/Codec/RoundTrip.antt =====
-- src/replication/replicate.cpp: what the receiver reads out of an update.
use netudp.Base.{
  ℕ, zero, suc, ◌+◌, ◌≤◌, ◌≡◌, refl, sym, ap, ap₂, ◌∙◌, subst, ltb, Bool, true, false,
  if◌then◌else◌, Array, Option, some, none, [], ◌∷◌, ◌++◌, Bool-cases, inl, inr, if-elim, arith,
}
use mathlib.Core.List.{append_assoc}
use mathlib.Core.Option.{some-injective}
use netudp.Base.Bits.{test_bit}
use netudp.Base.Bytes.{bytes_le, joined-some, length-bytes_le, read_le-append}
use netudp.Base.Lists.{length, take, length-append, drop-append}
use netudp.Base.Memory.{copy_at, bytes_from}
use netudp.Replication.Half.{half_to_f32}
use netudp.Replication.Quantize.{Float32}
use netudp.Replication.Schema.{PropDesc, Schema}
use netudp.Replication.Codec.{
  Bytes, Coding, raw, half, packed_vec3, packed_quat, coding, wire_len, value_len, encode,
  decode_vec3, decode_quat, decode, write_prop, read_prop, written_on, advanced, read_on, value_of,
  write_props, read_props,
}

pub length-bytes_from : (a : Array ℕ) (offset n : ℕ) → length (bytes_from a offset n) ≡ n
unfolding bytes_from
length-bytes_from a offset zero = refl
length-bytes_from a offset (suc n) = ap suc (length-bytes_from a (offset + 1) n)

pub length-take : (k : ℕ) (xs : Bytes) → k ≤ length xs → length (take k xs) ≡ k
length-take zero xs h = refl
length-take (suc k) [] h = absurd (omega (arith, h))
length-take (suc k) (x ∷ xs) h = ap suc (length-take k xs (omega (arith, h)))

take-prefix : (k : ℕ) (xs ys : Bytes) → k ≤ length xs → take k (xs ++ ys) ≡ take k xs
take-prefix zero xs ys h = refl
take-prefix (suc k) [] ys h = absurd (omega (arith, h))
take-prefix (suc k) (x ∷ xs) ys h = ap (◌∷◌ x) (take-prefix k xs ys (omega (arith, h)))

module _ (F : Float32) where
  pub length-encode :
      (c : Coding) (raw_size : ℕ) (val : Bytes)
      → length val ≡ value_len c raw_size
      → length (encode F c raw_size val) ≡ wire_len c raw_size
  unfolding encode wire_len value_len
  length-encode raw r val h = length-take r val (omega (arith, h))
  length-encode half r val h = length-bytes_le 2 _
  length-encode packed_vec3 r val h = length-bytes_le 4 _
  length-encode packed_quat r val h = length-bytes_le 4 _

  decode-append :
      (c : Coding) (raw_size : ℕ) (wire rest : Bytes)
      → length wire ≡ wire_len c raw_size
      → decode F c raw_size (wire ++ rest) ≡ decode F c raw_size wire
  unfolding decode wire_len
  decode-append raw r wire rest h = take-prefix r wire rest (omega (arith, h))
  decode-append half r wire rest h =
      ap (λ n. bytes_le 4 (half_to_f32 n)) (read_le-append 2 wire rest (omega (arith, h)))
  decode-append packed_vec3 r wire rest h =
      ap (decode_vec3 F) (read_le-append 4 wire rest (omega (arith, h)))
  decode-append packed_quat r wire rest h =
      ap (decode_quat F) (read_le-append 4 wire rest (omega (arith, h)))

  -- What a property's value is after the way over the wire.
  abbrev pub restored : Array ℕ → PropDesc → Bytes
  restored values pd =
      decode F (coding pd) pd.raw_size (encode F (coding pd) pd.raw_size (value_of F values pd))

  -- The receiver's values with the properties of the mask put in, from `i` on, `n` of them.
  abbrev pub applied : Array ℕ → Schema → ℕ → ℕ → ℕ → Array ℕ → Array ℕ
  applied sent s mask i zero values = values
  applied sent s mask i (suc n) values = applied sent s mask (i + 1) n (
      if test_bit mask i
      then copy_at values (s.props i).offset (restored sent (s.props i))
      else values)

  read_prop-of_length :
      (pd : PropDesc) (w rest : Bytes)
      → length w ≡ wire_len (coding pd) pd.raw_size
      → read_prop F pd (w ++ rest) ≡ some (decode F (coding pd) pd.raw_size w, length w)
  unfolding read_prop
  read_prop-of_length pd w rest e =
      if-elim (λ r. r ≡ some (decode F (coding pd) pd.raw_size w, length w))
        (ltb (length (w ++ rest)) (wire_len (coding pd) pd.raw_size))
        (λ short. ground (arith, short, length-append w rest, e))
        (λ enough.
          ap₂ (λ (v : Bytes) (k : ℕ). some (v, k)) (decode-append (coding pd) pd.raw_size w rest e)
            (sym e))

  -- What `write_prop` writes, where it does.
  write_prop-encode :
      (pd : PropDesc) (values : Array ℕ) (w : Bytes) (out_cap pos : ℕ)
      → write_prop F pd (value_of F values pd) out_cap pos ≡ some w
      → encode F (coding pd) pd.raw_size (value_of F values pd) ≡ w
  unfolding write_prop
  write_prop-encode pd values w out_cap pos e =
      elim (Bool-cases (ltb out_cap (pos + wire_len (coding pd) pd.raw_size))) [
        | inl full ↦ ground (arith, e, full)
        | inr room ↦ some-injective _ _ (ground (arith, e, room))
      ]

  read_prop-write_prop :
      (pd : PropDesc) (values : Array ℕ) (w rest : Bytes) (out_cap pos : ℕ)
      → write_prop F pd (value_of F values pd) out_cap pos ≡ some w
      → read_prop F pd (w ++ rest) ≡ some (restored values pd, length w)
  unfolding value_of
  read_prop-write_prop pd values w rest out_cap pos e =
      subst (λ (v : Bytes). read_prop F pd (v ++ rest) ≡ some (restored values pd, length v))
        (write_prop-encode pd values w out_cap pos e)
        (read_prop-of_length pd (encode F (coding pd) pd.raw_size (value_of F values pd)) rest (
          length-encode (coding pd) pd.raw_size (value_of F values pd)
            (length-bytes_from values pd.offset (value_len (coding pd) pd.raw_size))))

  written_on-some :
      (others : ℕ → Option Bytes) (pos : ℕ) (o : Option Bytes) (ps : Bytes)
      → written_on others pos o ≡ some ps
      → (w : Bytes) × ((o ≡ some w)
          × ((more : Bytes) × ((others (pos + length w) ≡ some more) × (ps ≡ w ++ more))))
  unfolding written_on
  written_on-some others pos none ps e = ground (arith, e)
  written_on-some others pos (some w) ps e = (w, (refl, joined-some w ps _ e))

  read_on-append :
      (others : Array ℕ → Bytes → Option (Array ℕ × ℕ)) (values : Array ℕ) (offset : ℕ)
      (w more rest val : Bytes) (after : Array ℕ)
      → others (copy_at values offset val) (more ++ rest) ≡ some (after, length more)
      → read_on others values offset (w ++ (more ++ rest)) (some (val, length w))
        ≡ some (after, length (w ++ more))
  unfolding read_on advanced
  read_on-append others values offset w more rest val after e =
      ap (λ (bs : Bytes). advanced (length w) (others (copy_at values offset val) bs))
        (drop-append w (more ++ rest))
      ∙ ap (advanced (length w)) e
      ∙ ap (λ (k : ℕ). some (after, k)) (sym (length-append w more))

  read_on-written_on :
      (s : Schema) (sent : Array ℕ) (mask out_cap pos i n : ℕ) (values : Array ℕ) (ps rest : Bytes)
      → ((pos' : ℕ) (more : Bytes)
          → write_props F sent s mask out_cap pos' (i + 1) n ≡ some more
          → read_props F s mask
              (i + 1)
              n
              (copy_at values (s.props i).offset (restored sent (s.props i)))
              (more ++ rest)
            ≡ some (
              applied sent s mask
                  (i + 1)
                  n
                  (copy_at values (s.props i).offset (restored sent (s.props i))),
              length more,
            ))
      → written_on
          (λ p. write_props F sent s mask out_cap p (i + 1) n)
          pos
          (write_prop F (s.props i) (value_of F sent (s.props i)) out_cap pos)
        ≡ some ps
      → read_on
          (read_props F s mask (i + 1) n)
          values
          (s.props i).offset
          (ps ++ rest)
          (read_prop F (s.props i) (ps ++ rest))
        ≡ some (
          applied sent s mask
              (i + 1)
              n
              (copy_at values (s.props i).offset (restored sent (s.props i))),
          length ps,
        )
  read_on-written_on s sent mask out_cap pos i n values ps rest h e =
      let (w, (ew, (more, (em, eq)))) = written_on-some _ pos _ ps e in
      subst
        (λ (bs : Bytes).
          read_on (read_props F s mask (i + 1) n) values (s.props i).offset (bs ++ rest)
            (read_prop F (s.props i) (bs ++ rest))
          ≡ some (
            applied sent s mask (i + 1) n
                (copy_at values (s.props i).offset (restored sent (s.props i))),
            length bs,
          ))
        (sym eq)
        (subst
          (λ (bs : Bytes).
            read_on (read_props F s mask (i + 1) n) values (s.props i).offset bs
              (read_prop F (s.props i) bs)
            ≡ some (
              applied sent s mask (i + 1) n
                  (copy_at values (s.props i).offset (restored sent (s.props i))),
              length (w ++ more),
            ))
          (sym (append_assoc w more rest))
          (ap
              (read_on (read_props F s mask (i + 1) n) values (s.props i).offset
                (w ++ (more ++ rest)))
              (read_prop-write_prop (s.props i) sent w (more ++ rest) out_cap pos ew)
            ∙ read_on-append (read_props F s mask (i + 1) n) values (s.props i).offset w more rest
                (restored sent (s.props i)) _ (h (pos + length w) more em)))

  pub read_props-write_props :
      (s : Schema) (sent : Array ℕ) (mask out_cap pos i n : ℕ) (values : Array ℕ) (ps rest : Bytes)
      → write_props F sent s mask out_cap pos i n ≡ some ps
      → read_props F s mask i n values (ps ++ rest)
        ≡ some (applied sent s mask i n values, length ps)
  unfolding write_props read_props
  read_props-write_props s sent mask out_cap pos i zero values ps rest e =
      ap (λ (k : Bytes). some (values, length k)) (some-injective [] ps e)
  read_props-write_props s sent mask out_cap pos i (suc n) values ps rest e =
      elim (test_bit mask i)
          as (λ (b : Bool).
            elim b [
              | false ↦ write_props F sent s mask out_cap pos (i + 1) n
              | true ↦
                  written_on (λ p. write_props F sent s mask out_cap p (i + 1) n) pos
                    (write_prop F (s.props i) (value_of F sent (s.props i)) out_cap pos)
            ]
              ≡ some ps
            → elim b [
              | false ↦ read_props F s mask (i + 1) n values (ps ++ rest)
              | true ↦
                  read_on (read_props F s mask (i + 1) n) values (s.props i).offset (ps ++ rest)
                    (read_prop F (s.props i) (ps ++ rest))
            ]
              ≡ some (
                applied sent s mask (i + 1) n (
                    if b
                    then copy_at values (s.props i).offset (restored sent (s.props i))
                    else values),
                length ps,
              )) [
                | false ↦
                    λ e'. read_props-write_props s sent mask out_cap pos (i + 1) n values ps rest e'
                | true ↦ λ e'.
                    read_on-written_on s sent mask out_cap pos i n values ps rest
                      (λ pos' more em.
                        read_props-write_props s sent mask out_cap pos' (i + 1) n
                          (copy_at values (s.props i).offset (restored sent (s.props i))) more rest
                          em)
                      e'
              ]
        e
