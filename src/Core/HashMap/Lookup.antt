-- ===== src/Core/HashMap/Lookup.antt =====
-- src/core/hash_map.h: what `find` returns after `insert`.
use netudp.Base.{
  ℕ, zero, suc, ◌+◌, ◌≡◌, ◌≢◌, refl, sym, ap, ◌∙◌, subst, Bool, true, false, if◌then◌else◌, Array,
  update, some, inl, inr, Bool-cases, arith,
}
use mathlib.Core.Option.{some-injective}
use netudp.Core.HashMap.{
  Slot, FixedHashMap, Keys, slot_at, start_slot, occupy, replace, insert_from, insert, find_from,
  find_slot, value_at, find,
}

-- `memcmp` tells whether two keys are the same.
pub record IsEquality {K : Type 0} (same : K → K → Bool) : Type 0 where
  pub self : (k : K) → same k k ≡ true
  pub equal : (k l : K) → same k l ≡ true → k ≡ l

module _ {K V : Type 0} (keys : Keys K V) (eq : IsEquality keys.same) where
  -- Only a slot that is free or has the key is written.
  abbrev pub IsTaken : FixedHashMap K V → K → ℕ → Type 0
  IsTaken m key j = (if (m.slots j).occupied then keys.same (m.slots j).key key else true) ≡ true

  elsewhere :
      (m m' : FixedHashMap K V) (s size : ℕ) (entry : Slot K V)
      → some (record { slots = update m.slots s entry; size = size }) ≡ some m'
      → (i : ℕ) → i ≢ s
      → m'.slots i ≡ m.slots i
  elsewhere m m' s size entry e i ne =
      ap (λ (t : FixedHashMap K V). t.slots i) (sym (some-injective _ _ e)) ∙ other m i s entry ne
    where
      other :
          (m : FixedHashMap K V) (i s : ℕ) (entry : Slot K V)
          → i ≢ s
          → update m.slots s entry i ≡ m.slots i
      other m i s entry ne = ground (arith, ne)

  here : (f : Array (Slot K V)) (s : ℕ) (entry : Slot K V) → update f s entry s ≡ entry
  here f s entry = ground arith

  written :
      (m m' : FixedHashMap K V) (s size : ℕ) (entry : Slot K V)
      → some (record { slots = update m.slots s entry; size = size }) ≡ some m'
      → m'.slots s ≡ entry
  written m m' s size entry e =
      ap (λ (t : FixedHashMap K V). t.slots s) (sym (some-injective _ _ e)) ∙ here m.slots s entry

  -- A slot has this key.
  abbrev pub HasKey : FixedHashMap K V → K → ℕ → Type 0
  HasKey m key j = ((m.slots j).occupied ≡ true) × (keys.same (m.slots j).key key ≡ true)

  has_key :
      (m : FixedHashMap K V) (key : K) (j : ℕ) (entry : Slot K V)
      → m.slots j ≡ entry
      → entry.occupied ≡ true
      → keys.same entry.key key ≡ true
      → HasKey m key j
  has_key m key j entry at used eq_key = (
    ap (λ (t : Slot K V). t.occupied) at ∙ used,
    ap (λ (t : Slot K V). keys.same t.key key) at ∙ eq_key,
  )

  pub insert_from-changed :
      (m m' : FixedHashMap K V) (key : K) (value : V) (idx probe n : ℕ)
      → insert_from keys m key value idx probe n ≡ some m'
      → (j : ℕ) × (IsTaken m key j × (((i : ℕ) → i ≢ j → m'.slots i ≡ m.slots i) × HasKey m' key j))
  unfolding insert_from occupy replace
  insert_from-changed m m' key value idx probe zero e = ground (arith, e)
  insert_from-changed m m' key value idx probe (suc n) e =
      let s = slot_at keys idx probe in
      elim (Bool-cases (m.slots s).occupied) [
        | inr free ↦
            let e' : some (occupy keys m s key value) ≡ some m' = ground (arith, free, e) in
            (
              s,
              (
                ground (arith, free),
                (
                  elsewhere m m' s (m.size + 1) _ e',
                  has_key m' key s _ (written m m' s (m.size + 1) _ e') refl (eq.self key),
                ),
              ),
            )
        | inl used ↦ elim (Bool-cases (keys.same (m.slots s).key key)) [
          | inl eq_key ↦
              let e' : some (replace keys m s value) ≡ some m' = ground (arith, used, eq_key, e) in
              (
                s,
                (
                  ground (arith, used, eq_key),
                  (
                    elsewhere m m' s m.size _ e',
                    has_key m' key s _ (written m m' s m.size _ e') used eq_key,
                  ),
                ),
              )
          | inr different ↦
              insert_from-changed m m' key value idx (probe + 1) n
                (ground (arith, used, different, e))
        ]
      ]

  -- Where the key stands at the next slot.
  pub find_from-hit :
      (m : FixedHashMap K V) (key : K) (idx probe n : ℕ) (entry : Slot K V)
      → m.slots (slot_at keys idx probe) ≡ entry
      → entry.occupied ≡ true
      → keys.same entry.key key ≡ true
      → value_at keys m (find_from keys m key idx probe (suc n)) ≡ some entry.value
  unfolding find_from value_at
  find_from-hit m key idx probe n entry at used eq_key =
      ap (value_at keys m) (
        hit (ap (λ (t : Slot K V). t.occupied) at ∙ used)
          (ap (λ (t : Slot K V). keys.same t.key key) at ∙ eq_key))
      ∙ ap (λ (t : Slot K V). some t.value) at
    where
      hit :
          (m.slots (slot_at keys idx probe)).occupied ≡ true
          → keys.same (m.slots (slot_at keys idx probe)).key key ≡ true
          → find_from keys m key idx probe (suc n) ≡ some (slot_at keys idx probe)
      hit u k = ground (arith, u, k)

  -- Where the next slot has another key.
  pub find_from-miss :
      (m : FixedHashMap K V) (key : K) (idx probe n : ℕ)
      → (m.slots (slot_at keys idx probe)).occupied ≡ true
      → keys.same (m.slots (slot_at keys idx probe)).key key ≡ false
      → find_from keys m key idx probe (suc n) ≡ find_from keys m key idx (probe + 1) n
  unfolding find_from
  find_from-miss m key idx probe n used different = ground (arith, used, different)

  insert_from-find_from :
      (m m' : FixedHashMap K V) (key : K) (value : V) (idx probe n : ℕ)
      → insert_from keys m key value idx probe n ≡ some m'
      → value_at keys m' (find_from keys m' key idx probe n) ≡ some value
  unfolding insert_from occupy replace
  insert_from-find_from m m' key value idx probe zero e = ground (arith, e)
  insert_from-find_from m m' key value idx probe (suc n) e =
      let s = slot_at keys idx probe in
      elim (Bool-cases (m.slots s).occupied) [
        | inr free ↦
            let e' : some (occupy keys m s key value) ≡ some m' = ground (arith, free, e) in
            find_from-hit m' key idx probe n (record { key = key; value = value; occupied = true })
              (ap (λ (t : FixedHashMap K V). t.slots s) (sym (some-injective _ _ e'))
                ∙ here m.slots s _)
              refl (eq.self key)
        | inl used ↦ elim (Bool-cases (keys.same (m.slots s).key key)) [
          | inl eq_key ↦
              let e' : some (replace keys m s value) ≡ some m' = ground (arith, used, eq_key, e) in
              find_from-hit m' key idx probe n (record (m.slots s) { value = value })
                (ap (λ (t : FixedHashMap K V). t.slots s) (sym (some-injective _ _ e'))
                  ∙ here m.slots s _)
                used eq_key
          | inr different ↦
              let e' : insert_from keys m key value idx (probe + 1) n ≡ some m' =
                ground (arith, used, different, e) in
              let (j, (taken, (kept, has))) =
                insert_from-changed m m' key value idx (probe + 1) n e' in
              let kept_here : m'.slots s ≡ m.slots s =
                kept s (other_slot m key s j used different taken) in
              ap (value_at keys m') (
                find_from-miss m' key idx probe n
                  (ap (λ (t : Slot K V). t.occupied) kept_here ∙ used)
                  (ap (λ (t : Slot K V). keys.same t.key key) kept_here ∙ different))
              ∙ insert_from-find_from m m' key value idx (probe + 1) n e'
        ]
      ]
    where
      other_slot :
          (m : FixedHashMap K V) (key : K) (s j : ℕ)
          → (m.slots s).occupied ≡ true
          → keys.same (m.slots s).key key ≡ false
          → IsTaken m key j
          → s ≢ j
      other_slot m key s j used different taken same_slot =
          ground (arith, used, different, subst (IsTaken m key) (sym same_slot) taken)

-- What was inserted under a key is what is found under it, also where a value was replaced.
pub find-insert :
    {K V : Type 0} (keys : Keys K V) (m m' : FixedHashMap K V) (key : K) (value : V)
    → IsEquality keys.same
    → insert keys m key value ≡ some m'
    → find keys m' key ≡ some value
unfolding insert find find_slot
find-insert keys m m' key value eq e =
    insert_from-find_from keys eq m m' key value (start_slot keys key) 0 keys.capacity e
