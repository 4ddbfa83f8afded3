-- ===== src/Replication/Schema/Layout.antt =====
-- src/replication/schema.h: the places of the properties do not overlap, and names are found again.
use netudp.Base.{
  ℕ, zero, suc, ◌+◌, ◌-◌, ◌%◌, ◌^◌, ◌≤◌, ◌<◌, ◌≡◌, refl, ap, ◌∙◌, leb, true, false, if◌then◌else◌,
  update, Option, some, none, List, [], ◌∷◌, if-elim, arith,
}
use netudp.Base.Bits.{test_bit}
use netudp.Base.Words.{u32_mod}
use netudp.Base.Lists.{length, take, eq_list, eq_list_refl}
use netudp.Replication.Schema.{
  PropType, Schema, max_properties, max_prop_name, add_prop, rep_quantize, find_from, find_prop,
}

-- Every property has its own bit and its own bytes of the value buffer, in their order.
pub record IsLaidOut (s : Schema) : Type 0 where
  pub few : s.prop_count ≤ max_properties
  pub inside :
      (i : ℕ) → i < s.prop_count → (s.props i).offset + (s.props i).raw_size ≤ s.value_buffer_size
  pub apart :
      (i j : ℕ)
      → i < j
      → j < s.prop_count
      → (s.props i).offset + (s.props i).raw_size ≤ (s.props j).offset

-- Adding a property keeps the properties apart, as long as the size of all values does not leave the
-- range of `int`.
pub add_prop-IsLaidOut :
    (s : Schema) (name : List ℕ) (raw_size wire_size blob_cap : ℕ) (flags : ℕ) (t : PropType)
    → s.value_buffer_size + raw_size < 2 ^ 31
    → IsLaidOut s
    → IsLaidOut (add_prop s name t flags raw_size wire_size blob_cap).1
unfolding add_prop
add_prop-IsLaidOut s name raw_size wire_size blob_cap flags t small h =
    if-elim (λ (r : Option ℕ × Schema). IsLaidOut r.1) (leb max_properties s.prop_count) (λ full. h)
      (λ room. record {
        few = ground (arith, room);
        inside = λ i lt. ground (arith, h.inside i, lt, small);
        apart = λ i j lt lt'. ground (arith, h.apart i j lt, h.inside i, lt, lt');
      })

find_from-last :
    (s : Schema) (name : List ℕ) (i n : ℕ)
    → find_from s name i n ≡ none
    → eq_list (s.props (i + n)).name (take max_prop_name name) ≡ true
    → find_from s name i (suc n) ≡ some (i + n)
unfolding find_from
find_from-last s name i zero e h =
    ground
      (arith, h, ap (λ (k : ℕ). eq_list (s.props k).name (take max_prop_name name)) (plus_zero i))
  where
    plus_zero : (i : ℕ) → i + 0 ≡ i
    plus_zero i = omega arith
find_from-last s name i (suc n) e h = ground (
  arith,
  e,
  find_from-last s name (i + 1) n,
  h,
  ap (λ (k : ℕ). eq_list (s.props k).name (take max_prop_name name)) (moved i n),
)
  where
    moved : (i n : ℕ) → i + suc n ≡ (i + 1) + n
    moved i n = omega arith

find_from-ext :
    (s s' : Schema) (name : List ℕ) (i n : ℕ)
    → ((k : ℕ) → i ≤ k → k < i + n → (s.props k).name ≡ (s'.props k).name)
    → find_from s name i n ≡ find_from s' name i n
unfolding find_from
find_from-ext s s' name i zero h = refl
find_from-ext s s' name i (suc n) h = ground (
  arith,
  h i (omega arith) (omega arith),
  find_from-ext s s' name (i + 1) n (λ k lo hi. h k (omega (arith, lo)) (omega (arith, hi))),
)

-- Taking more than is there, or less twice.
take-all : (k : ℕ) (xs : List ℕ) → length xs ≤ k → take k xs ≡ xs
take-all zero [] h = refl
take-all zero (x ∷ xs) h = absurd (omega (arith, h))
take-all (suc k) [] h = refl
take-all (suc k) (x ∷ xs) h = ap (◌∷◌ x) (take-all k xs (omega (arith, h)))

abbrev add_prop_room : Schema → List ℕ → PropType → ℕ → ℕ → ℕ → ℕ → Schema
add_prop_room s name t flags raw_size wire_size blob_cap = record s {
  props = update s.props s.prop_count (record {
    name = take (max_prop_name - 1) name;
    prop_type = t;
    rep_flags = flags;
    raw_size = raw_size;
    wire_size = if test_bit flags rep_quantize then wire_size else raw_size;
    offset = s.value_buffer_size;
    bit_index = s.prop_count;
    blob_capacity = blob_cap;
  });
  value_buffer_size = (s.value_buffer_size + raw_size) % u32_mod;
  prop_count = s.prop_count + 1;
}

new_name :
    (s : Schema) (name : List ℕ) (t : PropType) (flags raw_size wire_size blob_cap : ℕ)
    → length name < max_prop_name
    → ((add_prop_room s name t flags raw_size wire_size blob_cap).props (0 + s.prop_count)).name
      ≡ name
new_name s name t flags raw_size wire_size blob_cap short =
    ground (arith, take-all (max_prop_name - 1) name (omega (arith, short)))

-- A property with a new name of at most 31 bytes is found under its name.
pub find_prop-add_prop :
    (s : Schema) (name : List ℕ) (t : PropType) (flags raw_size wire_size blob_cap : ℕ)
    → length name < max_prop_name
    → s.prop_count < max_properties
    → find_prop s name ≡ none
    → let (index, s') = add_prop s name t flags raw_size wire_size blob_cap in
      (index ≡ some s.prop_count) × (find_prop s' name ≡ some s.prop_count)
unfolding find_prop add_prop
find_prop-add_prop s name t flags raw_size wire_size blob_cap short room new =
    if-elim
      (λ (r : Option ℕ × Schema).
        (r.0 ≡ some s.prop_count) × (find_from r.1 name 0 r.1.prop_count ≡ some s.prop_count))
      (leb max_properties s.prop_count) {x = (none, s)} (λ full. ground (arith, full, room))
      (λ free.
        let s' = (add_prop_room s name t flags raw_size wire_size blob_cap) in
        (
          refl,
          ap (find_from s' name 0) (omega arith)
              ∙ find_from-last s' name 0 s.prop_count
                  (find_from-ext s' s name 0 s.prop_count (λ k lo hi. ground (arith, hi)) ∙ new)
                  (ap (λ n. eq_list n (take max_prop_name name))
                      (new_name s name t flags raw_size wire_size blob_cap short)
                    ∙ ap (eq_list name) (take-all max_prop_name name (omega (arith, short)))
                    ∙ eq_list_refl name)
              ∙ ap some (omega arith),
        ))

-- The names that a schema keeps have at most 31 bytes.
abbrev pub HasShortNames : Schema → Type 0
HasShortNames s = (i : ℕ) → i < s.prop_count → length (s.props i).name < max_prop_name

eq_list_shorter : (xs ys : List ℕ) → length xs < length ys → eq_list xs ys ≡ false
unfolding eq_list
eq_list_shorter [] [] h = absurd (omega (arith, h))
eq_list_shorter [] (y ∷ ys) h = refl
eq_list_shorter (x ∷ xs) [] h = refl
eq_list_shorter (x ∷ xs) (y ∷ ys) h = ground (arith, eq_list_shorter xs ys (omega (arith, h)))

find_from-long :
    (s : Schema) (name : List ℕ) (i n : ℕ)
    → ((k : ℕ) → k < i + n → length (s.props k).name < max_prop_name)
    → max_prop_name ≤ length (take max_prop_name name)
    → find_from s name i n ≡ none
unfolding find_from
find_from-long s name i zero h long = refl
find_from-long s name i (suc n) h long = ground (
  arith,
  find_from-long s name (i + 1) n (λ k lt. h k (omega (arith, lt))) long,
  eq_list_shorter (s.props i).name (take max_prop_name name)
      (omega (arith, h i (omega arith), long)),
)

take-length : (k : ℕ) (xs : List ℕ) → k ≤ length xs → length (take k xs) ≡ k
take-length zero xs h = refl
take-length (suc k) [] h = absurd (omega (arith, h))
take-length (suc k) (x ∷ xs) h = ap suc (take-length k xs (omega (arith, h)))

-- A name of 32 bytes or more is never found, not even when `add_prop` has just accepted it.
pub find_prop-add_prop_long :
    (s : Schema) (name : List ℕ) (t : PropType) (flags raw_size wire_size blob_cap : ℕ)
    → HasShortNames s
    → max_prop_name ≤ length name
    → find_prop (add_prop s name t flags raw_size wire_size blob_cap).1 name ≡ none
unfolding find_prop add_prop
find_prop-add_prop_long s name t flags raw_size wire_size blob_cap h long =
    if-elim (λ (r : Option ℕ × Schema). find_from r.1 name 0 r.1.prop_count ≡ none)
      (leb max_properties s.prop_count)
      (λ full.
        find_from-long s name 0 s.prop_count (λ k lt. h k (omega (arith, lt)))
          (omega (arith, take-length max_prop_name name long)))
      (λ free.
        find_from-long (add_prop_room s name t flags raw_size wire_size blob_cap) name 0
          (s.prop_count + 1)
          (λ k lt.
            ground (arith, h k, lt, take-length (max_prop_name - 1) name (omega (arith, long))))
          (omega (arith, take-length max_prop_name name long)))
