-- ===== src/Core/HashMap/Others.antt =====
-- src/core/hash_map.h: `insert` does not hide what is found under other keys.
use netudp.Base.{
  ℕ, zero, suc, ◌+◌, ◌==◌, ◌≡◌, ◌≢◌, refl, sym, ap, ◌∙◌, subst, true, false, some, inl, inr,
  Bool-cases, arith,
}
use netudp.Core.HashMap.{
  Slot, FixedHashMap, Keys, slot_at, start_slot, insert, find_from, find_slot, value_at, find,
}
use netudp.Core.HashMap.Lookup.{
  IsEquality, IsTaken, HasKey, find-insert, insert_from-changed, find_from-hit, find_from-miss,
}

module _ {K V : Type 0} (keys : Keys K V) (eq : IsEquality keys.same) where
  -- One slot is written, which was free or had the key, and it has the key then.
  abbrev IsWritten : FixedHashMap K V → FixedHashMap K V → K → ℕ → Type 0
  IsWritten m m' key j =
      IsTaken keys eq m key j
      × (((i : ℕ) → i ≢ j → m'.slots i ≡ m.slots i) × HasKey keys eq m' key j)

  -- A slot with the one key does not have the other.
  other_key :
      (m : FixedHashMap K V) (key other : K) (s : ℕ)
      → keys.same key other ≡ false
      → keys.same (m.slots s).key key ≡ true
      → keys.same (m.slots s).key other ≡ false
  other_key m key other s ne has =
      ap (λ (k : K). keys.same k other) (eq.equal (m.slots s).key key has) ∙ ne

  find_from-kept :
      (m m' : FixedHashMap K V) (key other : K) (v : V) (j idx probe n : ℕ)
      → IsWritten m m' key j
      → keys.same key other ≡ false
      → value_at keys m (find_from keys m other idx probe n) ≡ some v
      → value_at keys m' (find_from keys m' other idx probe n) ≡ some v
  unfolding find_from value_at
  find_from-kept m m' key other v j idx probe zero w ne e = ground (arith, e)
  find_from-kept m m' key other v j idx probe (suc n) (taken, (kept, (used', has'))) ne e =
      let s = slot_at keys idx probe in
      elim (Bool-cases (m.slots s).occupied) [
        | inr free ↦ absurd (missing m other v idx probe n free e)
        | inl used ↦ elim (Bool-cases (keys.same (m.slots s).key other)) [
          | inl hit ↦
              let same_slot : m'.slots s ≡ m.slots s =
                kept s (elsewhere m key other s j used hit ne taken) in
              find_from-hit keys eq m' other idx probe n (m.slots s) same_slot used hit
              ∙ sym (find_from-hit keys eq m other idx probe n (m.slots s) refl used hit)
              ∙ e
          | inr miss ↦
              let (u, k) = still m m' key other s j kept used' has' ne used miss in
              ap (value_at keys m') (find_from-miss keys eq m' other idx probe n u k)
              ∙ find_from-kept m m' key other v j idx (probe + 1) n (taken, (kept, (used', has')))
                  ne
                  (ap (value_at keys m) (sym (find_from-miss keys eq m other idx probe n used miss))
                    ∙ e)
        ]
      ]
    where
      missing :
          (m : FixedHashMap K V) (other : K) (v : V) (idx probe n : ℕ)
          → (m.slots (slot_at keys idx probe)).occupied ≡ false
          → value_at keys m (find_from keys m other idx probe (suc n)) ≡ some v
          → ⊥
      missing m other v idx probe n free e = ground (arith, free, e)

      elsewhere :
          (m : FixedHashMap K V) (key other : K) (s j : ℕ)
          → (m.slots s).occupied ≡ true
          → keys.same (m.slots s).key other ≡ true
          → keys.same key other ≡ false
          → IsTaken keys eq m key j
          → s ≢ j
      elsewhere m key other s j used hit ne taken same_slot =
          let here : IsTaken keys eq m key s =
            subst (IsTaken keys eq m key) (sym same_slot) taken in
          let has : keys.same (m.slots s).key key ≡ true = ground (arith, here, used) in
          ground (arith, hit, other_key m key other s ne has)

      still :
          (m m' : FixedHashMap K V) (key other : K) (s j : ℕ)
          → ((i : ℕ) → i ≢ j → m'.slots i ≡ m.slots i)
          → (m'.slots j).occupied ≡ true
          → keys.same (m'.slots j).key key ≡ true
          → keys.same key other ≡ false
          → (m.slots s).occupied ≡ true
          → keys.same (m.slots s).key other ≡ false
          → ((m'.slots s).occupied ≡ true) × (keys.same (m'.slots s).key other ≡ false)
      still m m' key other s j kept used' has' ne used miss = elim (Bool-cases (s == j)) [
        | inl same_slot ↦
            let at : s ≡ j = ground (arith, same_slot) in
            (
              ap (λ (i : ℕ). (m'.slots i).occupied) at ∙ used',
              other_key m' key other s ne
                  (ap (λ (i : ℕ). keys.same (m'.slots i).key key) at ∙ has'),
            )
        | inr apart ↦
            let at : m'.slots s ≡ m.slots s = kept s (ground (arith, apart)) in
            (
              ap (λ (t : Slot K V). t.occupied) at ∙ used,
              ap (λ (t : Slot K V). keys.same t.key other) at ∙ miss,
            )
      ]

-- After an insertion that succeeds, the new value is found under its key, and what was found under
-- any other key is found there still.
pub insert-found :
    {K V : Type 0} (keys : Keys K V) (m m' : FixedHashMap K V) (key : K) (value : V)
    → IsEquality keys.same
    → insert keys m key value ≡ some m'
    → (find keys m' key ≡ some value)
      × ((other : K) (v : V)
          → keys.same key other ≡ false
          → find keys m other ≡ some v
          → find keys m' other ≡ some v)
unfolding insert find find_slot
insert-found keys m m' key value eq e =
    let (j, written) =
      insert_from-changed keys eq m m' key value (start_slot keys key) 0 keys.capacity e in
    (
      find-insert keys m m' key value eq e,
      λ other v ne found.
          find_from-kept keys eq m m' key other v j (start_slot keys other) 0 keys.capacity written
            ne found,
    )
