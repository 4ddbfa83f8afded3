-- ===== src/Replication/Entity/Values.antt =====
-- src/replication/entity.h: what a setter of an entity changes.
use netudp.Base.{
  ℕ, ◌≤◌, ◌<◌, ◌≡◌, ◌≢◌, refl, sym, ap, ◌∙◌, subst, ◌==◌, Bool, true, false, ◌&&◌, not,
  if◌then◌else◌, some, none, List, if-elim, arith,
}
use netudp.Base.Bits.{test_bit, test_bit-set_bit}
use netudp.Base.Lists.{length}
use netudp.Base.Memory.{copy_at, bytes_from, bytes_from-copy_at, bytes_from-ext, copy_at-outside}
use netudp.Replication.Entity.{
  Entity, entity_max_value_size, valid_prop, store_value, set_in, get_in,
}
use netudp.Replication.Schema.{PropType, Schema}
use netudp.Replication.Schema.Layout.{IsLaidOut}

-- The bytes of property `i` in an entity.
abbrev pub bytes_of : {T : Type 0} → Entity T → Schema → ℕ → List ℕ
bytes_of e s i = bytes_from e.values (s.props i).offset (s.props i).raw_size

module _ {T : Type 0} (s : Schema) (laid_out : IsLaidOut s) (e : Entity T) where
  store_value-other :
      (idx j : ℕ) (bytes : List ℕ)
      → idx < s.prop_count
      → j < s.prop_count
      → j ≢ idx
      → length bytes ≤ (s.props idx).raw_size
      → bytes_from
          (copy_at e.values (s.props idx).offset bytes)
          (s.props j).offset
          (s.props j).raw_size
        ≡ bytes_of e s j
  store_value-other idx j bytes hidx hj ne small = bytes_from-ext _ _ _ _ (λ k lo up.
      copy_at-outside e.values (s.props idx).offset bytes k
        (ground (arith, lo, up, small, ne, hidx, hj, laid_out.apart j idx, laid_out.apart idx j)))

-- What the setters do, once the property is known to be there.
abbrev IsStored :
    {T : Type 0}
    → (List ℕ → List ℕ → Bool)
    → Schema
    → Entity T
    → ℕ
    → List ℕ
    → Bool × Entity T
    → Type 0
IsStored same s e idx bytes r =
    (r.1.schema ≡ e.schema)
    × ((bytes_from r.1.values (s.props idx).offset (length bytes)
          ≡ (if r.0 then bytes else bytes_from e.values (s.props idx).offset (length bytes)))
        × ((r.0 ≡ not (same (bytes_from e.values (s.props idx).offset (length bytes)) bytes))
            × (((j : ℕ) → j < s.prop_count → j ≢ idx → bytes_of r.1 s j ≡ bytes_of e s j)
                × ((j : ℕ)
                    → test_bit r.1.dirty_mask j
                      ≡ (if r.0 && (j == idx) then true else test_bit e.dirty_mask j)))))

store_value-IsStored :
    {T : Type 0} (same : List ℕ → List ℕ → Bool) (s : Schema) (e : Entity T) (idx : ℕ)
    (bytes : List ℕ)
    → IsLaidOut s
    → idx < s.prop_count
    → length bytes ≤ (s.props idx).raw_size
    → IsStored same s e idx bytes (store_value same e s idx bytes)
unfolding store_value
store_value-IsStored {T = T} same s e idx bytes laid_out hidx small =
    if-elim (λ (r : Bool × Entity T). IsStored same s e idx bytes r)
      (same (bytes_from e.values (s.props idx).offset (length bytes)) bytes)
      (λ equal. (refl, (refl, (ap not (sym equal), (λ j hj ne. refl, λ j. refl)))))
      (λ other. (
        refl,
        (
          bytes_from-copy_at e.values (s.props idx).offset bytes,
          (
            ap not (sym other),
            (
              λ j hj ne. store_value-other s laid_out e idx j bytes hidx hj ne small,
              λ j. test_bit-set_bit e.dirty_mask idx j ∙ ground arith,
            ),
          ),
        ),
      ))

-- A setter on a property of its type, with bytes that fit, of a schema whose values fit in an entity,
-- whatever comparison of the bytes that are there with the new ones the setter makes. The result is
-- true, and the property's bit is set, exactly if the comparison finds them not equal. The getter
-- returns the new bytes then, and the bytes that were there otherwise. Every other property keeps its
-- bytes, and no other bit changes.
pub get_in-set_in :
    {T : Type 0} (same : List ℕ → List ℕ → Bool) (s : Schema) (e : Entity T) (t : PropType)
    (idx : ℕ) (bytes : List ℕ)
    → IsLaidOut s
    → s.value_buffer_size ≤ entity_max_value_size
    → e.schema ≡ some s
    → valid_prop s idx t ≡ true
    → length bytes ≤ (s.props idx).raw_size
    → let (changed, e') = set_in same e t idx bytes e.schema in
      let old = bytes_from e.values (s.props idx).offset (length bytes) in
      (changed ≡ not (same old bytes))
      × (get_in e' t idx (length bytes) e'.schema ≡ some (if changed then bytes else old))
      × ((j : ℕ) → j < s.prop_count → j ≢ idx → bytes_of e' s j ≡ bytes_of e s j)
      × ((j : ℕ)
          → test_bit e'.dirty_mask j
            ≡ (if changed && (j == idx) then true else test_bit e.dirty_mask j))
unfolding set_in get_in valid_prop
get_in-set_in {T = T} same s e t idx bytes laid_out fits hs valid small =
    let h : IsStored same s e idx bytes (set_in same e t idx bytes e.schema) =
      subst (λ (r : Bool × Entity T). IsStored same s e idx bytes r) (sym stored)
        (store_value-IsStored same s e idx bytes laid_out (ground (arith, valid)) small) in
    let (same_schema, (read_back, (told, (others, bits)))) = h in
    (
      told,
      ap (get_in (set_in same e t idx bytes e.schema).1 t idx (length bytes)) (same_schema ∙ hs)
          ∙ ap
              (λ (b : Bool).
                if b
                then some (
                    bytes_from (set_in same e t idx bytes e.schema).1.values (s.props idx).offset
                      (length bytes))
                else none)
              valid
          ∙ ap some read_back,
      others,
      bits,
    )
  where
    stored : set_in same e t idx bytes e.schema ≡ store_value same e s idx bytes
    stored =
        ap (set_in same e t idx bytes) hs
        ∙ ap (λ (b : Bool). if b then store_value same e s idx bytes else (false, e)) valid
