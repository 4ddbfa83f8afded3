-- ===== src/Core/HashMap/Tests.antt =====
-- Runs of src/core/hash_map.h with four slots.
use netudp.Base.{ℕ, ◌==◌, ◌≡◌, refl, false, ==_self, some, arith}
use netudp.Core.HashMap.{FixedHashMap, Keys, insert, insert_from, find, occupy, slot_at, start_slot}
use netudp.Core.HashMap.Lookup.{IsEquality}
use netudp.Core.HashMap.Others.{insert-found}

abbrev small_keys : Keys ℕ ℕ
small_keys = record { same = ◌==◌; hash = λ k. k; capacity = 4; no_key = 0; no_value = 0 }

small_keys-IsEquality : IsEquality small_keys.same
small_keys-IsEquality = record { self = λ k. ==_self k; equal = λ k l e. ground (arith, e) }

abbrev empty : FixedHashMap ℕ ℕ
empty = record { slots = λ i. record { key = 0; value = 0; occupied = false }; size = 0 }

-- Keys 3 and 7 want the same slot.
abbrev one_entry : FixedHashMap ℕ ℕ
one_entry = occupy small_keys empty 3 3 30

-- The value under 7 is found, and the value under 3 is still there.
insert-found_example :
    (find small_keys (occupy small_keys one_entry 0 7 70) 7 ≡ some 70)
    × ((other v : ℕ)
        → (7 == other) ≡ false
        → find small_keys one_entry other ≡ some v
        → find small_keys (occupy small_keys one_entry 0 7 70) other ≡ some v)
unfolding insert insert_from occupy slot_at start_slot
insert-found_example =
    insert-found small_keys one_entry (occupy small_keys one_entry 0 7 70) 7 70
      small_keys-IsEquality refl
