-- ===== src/Core/HashMap.antt =====
-- src/core/hash_map.h: a table with open addressing and linear probing. Keys and their hash are
-- arguments, as the template's; `same` is `memcmp` of two keys. `for_each` and the plain accessors are
-- left out.
pub mod Lookup
pub mod Others
mod Tests
use netudp.Base.{
  ℕ, zero, suc, ◌+◌, ◌-◌, ◌*◌, ◌%◌, List, [], ◌∷◌, Bool, true, false, if◌then◌else◌, Array, update,
  Option, some, none,
}
use Prim.Native.Nat.{bit_xor}
use netudp.Base.Words.{u32_mod}

-- `FNV1aHash::hash` of the key's bytes
unfoldable pub fnv1a : ℕ → List ℕ → ℕ
fnv1a h [] = h
fnv1a h (b ∷ bs) = fnv1a (bit_xor h b * 16777619 % u32_mod) bs

unfoldable pub fnv1a_hash : List ℕ → ℕ
fnv1a_hash bs = fnv1a 2166136261 bs

pub record Slot (K V : Type 0) : Type 0 where
  pub key : K
  pub value : V
  pub occupied : Bool

pub record FixedHashMap (K V : Type 0) : Type 0 where
  pub slots : Array (Slot K V)
  pub size : ℕ

-- The template's arguments.
pub record Keys (K V : Type 0) : Type 0 where
  pub same : K → K → Bool
  pub hash : K → ℕ
  pub capacity : ℕ
  pub no_key : K
  pub no_value : V

module _ {K V : Type 0} (keys : Keys K V) where
  open keys use {same, hash, capacity, no_key, no_value}

  -- `(idx + probe) & MASK`
  unfoldable pub slot_at : ℕ → ℕ → ℕ
  slot_at idx probe = (idx + probe) % capacity

  unfoldable pub start_slot : K → ℕ
  start_slot key = hash key % capacity

  unfoldable pub occupy : FixedHashMap K V → ℕ → K → V → FixedHashMap K V
  occupy m slot key value = record m {
    slots = update m.slots slot (record { key = key; value = value; occupied = true });
    size = m.size + 1;
  }

  unfoldable pub replace : FixedHashMap K V → ℕ → V → FixedHashMap K V
  replace m slot value = record m {
    slots = update m.slots slot (record (m.slots slot) { value = value });
  }

  -- The loop from `probe` on, with `n` rounds left; `none` where the code returns a null pointer.
  unfoldable pub insert_from : FixedHashMap K V → K → V → ℕ → ℕ → ℕ → Option (FixedHashMap K V)
  insert_from m key value idx probe zero = none
  insert_from m key value idx probe (suc n) =
      let slot = slot_at idx probe in
      let later = insert_from m key value idx (probe + 1) n in
      if (m.slots slot).occupied
      then if same (m.slots slot).key key then some (replace m slot value) else later
      else some (occupy m slot key value)

  unfoldable pub insert : FixedHashMap K V → K → V → Option (FixedHashMap K V)
  insert m key value = insert_from m key value (start_slot key) 0 capacity

  -- The slot of a key.
  unfoldable pub find_from : FixedHashMap K V → K → ℕ → ℕ → ℕ → Option ℕ
  find_from m key idx probe zero = none
  find_from m key idx probe (suc n) =
      let slot = slot_at idx probe in
      let later = find_from m key idx (probe + 1) n in
      if (m.slots slot).occupied
      then if same (m.slots slot).key key then some slot else later
      else none

  unfoldable pub find_slot : FixedHashMap K V → K → Option ℕ
  find_slot m key = find_from m key (start_slot key) 0 capacity

  unfoldable pub value_at : FixedHashMap K V → Option ℕ → Option V
  value_at m none = none
  value_at m (some slot) = some (m.slots slot).value

  unfoldable pub find : FixedHashMap K V → K → Option V
  find m key = value_at m (find_slot m key)

  unfoldable pub vacate : FixedHashMap K V → ℕ → FixedHashMap K V
  vacate m slot = record m {
    slots = update m.slots slot (record (m.slots slot) { occupied = false });
    size = m.size - 1;
  }

  unfoldable pub or_same : FixedHashMap K V → Option (FixedHashMap K V) → FixedHashMap K V
  or_same m none = m
  or_same m (some m') = m'

  -- The `while` loop, on fuel: the slot is taken out and its entry put in again. A time around the
  -- table without a stop moves an entry closer to the slot of its hash, so the cube of the capacity
  -- is enough.
  unfoldable pub rehash_from : ℕ → FixedHashMap K V → ℕ → FixedHashMap K V
  rehash_from zero m slot = m
  rehash_from (suc fuel) m slot =
      let entry = m.slots slot in
      let out = vacate m slot in
      let rest =
        rehash_from fuel (or_same out (insert out entry.key entry.value)) ((slot + 1) % capacity) in
      if entry.occupied then rest else m

  unfoldable pub remove_at : FixedHashMap K V → Option ℕ → Bool × FixedHashMap K V
  remove_at m none = (false, m)
  remove_at m (some slot) =
      let cleared = record m {
        slots = update m.slots slot (record { key = no_key; value = no_value; occupied = false });
        size = m.size - 1;
      } in
      (true, rehash_from (capacity * capacity * capacity) cleared ((slot + 1) % capacity))

  unfoldable pub remove : FixedHashMap K V → K → Bool × FixedHashMap K V
  remove m key = remove_at m (find_slot m key)

  unfoldable pub clear : FixedHashMap K V → FixedHashMap K V
  clear m = record {
    slots = λ i. record { key = no_key; value = no_value; occupied = false };
    size = 0;
  }
