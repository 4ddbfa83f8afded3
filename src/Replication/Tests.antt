-- ===== src/Replication/Tests.antt =====
-- Runs of src/replication with an entity of two properties, one of them for its owner only.
use netudp.Base.{
  ℕ, zero, suc, ◌+◌, ◌*◌, ◌/◌, ◌==◌, ◌<◌, ◌≡◌, ◌≢◌, refl, true, false, not, ◌&&◌, if◌then◌else◌,
  Array, some, [], ◌∷◌, ◌++◌, arith,
}
use netudp.Base.Int.{pos}
use netudp.Base.Bits.{test_bit, clear_bit}
use netudp.Base.Bytes.{bytes_le}
use netudp.Base.Lists.{eq_list}
use netudp.Base.Memory.{bytes_from}
use netudp.Replication.Entity
use netudp.Replication.Entity.{Entity, valid_prop, set_in, get_in}
use netudp.Replication.Entity.Values.{bytes_of, get_in-set_in}
use netudp.Replication.Quantize.{Float32}
use netudp.Replication.Schema.{u8, u16, type_code, Schema, empty_schema, add_typed, add_prop}
use netudp.Replication.Schema.Layout.{IsLaidOut, add_prop-IsLaidOut}
use netudp.Replication.Varint.{encode_loop, varint_encode}
use netudp.Replication.Codec.{
  coding, wire_len, value_len, is_owner, is_withheld, filter_mask, start_mask, write_prop,
  write_props, written_on, value_of, encode, serialize_in, replicate_serialize,
  replicate_deserialize,
}
use netudp.Replication.Codec.Update.{HasFullSizes, HasUpdate}
use netudp.Replication.Codec.Exchange.{sent_mask, replicate_deserialize-replicate_serialize}
use netudp.Replication.Codec.Filter.{may_see, test_bit-sent_mask}

-- A health of one byte, and an amount of two bytes for the owner.
abbrev one_prop : Schema
one_prop = (add_typed empty_schema (104 ∷ []) u8 0).1

abbrev two_props : Schema
two_props = (add_typed one_prop (97 ∷ []) u16 1).1

empty_schema-IsLaidOut : IsLaidOut empty_schema
unfolding empty_schema
empty_schema-IsLaidOut = record {
  few = omega arith;
  inside = λ i lt. absurd (omega (arith, lt));
  apart = λ i j lt lt'. absurd (omega (arith, lt'));
}

add_prop-IsLaidOut_example : IsLaidOut (add_prop empty_schema (104 ∷ []) u8 0 1 1 0).1
add_prop-IsLaidOut_example =
    add_prop-IsLaidOut empty_schema (104 ∷ []) 1 1 0 0 u8 (unfold empty_schema in (omega arith))
      empty_schema-IsLaidOut

two_props-IsLaidOut : IsLaidOut two_props
unfolding add_typed
two_props-IsLaidOut =
    add_prop-IsLaidOut one_prop (97 ∷ []) 2 2 0 1 u16
      (unfold add_prop empty_schema in (omega arith))
      (add_prop-IsLaidOut empty_schema (104 ∷ []) 1 1 0 0 u8 (unfold empty_schema in (omega arith))
        empty_schema-IsLaidOut)

two_props-HasFullSizes : HasFullSizes two_props
unfolding add_typed add_prop empty_schema coding value_len test_bit
two_props-HasFullSizes zero lt = refl
two_props-HasFullSizes (suc zero) lt = refl
two_props-HasFullSizes (suc (suc i)) lt = absurd (omega (arith, lt))

-- Client 3 owns the entity; both properties have changed.
abbrev player : Entity ℕ
player = record (Entity.reset 0 0 0) {
  entity_id = 513;
  schema = some two_props;
  owner_client = some 3;
  dirty_mask = 3;
  values = λ i. i + 40;
}

abbrev toy_float : Float32
toy_float = record {
  Carrier = ℕ;
  of_bits = λ n. n;
  to_bits = λ n. n;
  of_int = λ z. 0;
  to_int = λ n. pos n;
  of_ratio = λ a b. a / b;
  add = λ a b. a + b;
  sub = λ a b. a;
  mul = λ a b. a * b;
  div = λ a b. a / b;
  neg = λ a. a;
  fabs = λ a. a;
  sqrt = λ a. a;
  lt = λ a b. false;
}

replicate_deserialize-replicate_serialize_example :
    (after : Array ℕ) × ((replicate_deserialize toy_float two_props
          ((1 ∷ 2 ∷ 3 ∷ 40 ∷ 41 ∷ 42 ∷ []) ++ (9 ∷ []))
          (λ i. 0)
        ≡ some (record {
          position = 6;
          entity_id = 513;
          values = after;
          dirty = sent_mask player two_props 3 false;
        }))
      × HasUpdate toy_float two_props
          (λ i. i + 40)
          (sent_mask player two_props 3 false)
          (λ i. 0)
          after)
unfolding add_typed add_prop empty_schema filter_mask start_mask is_withheld is_owner test_bit
    clear_bit replicate_serialize serialize_in write_props written_on write_prop value_of bytes_from
    coding wire_len value_len encode varint_encode encode_loop bytes_le Entity.reset
replicate_deserialize-replicate_serialize_example =
    replicate_deserialize-replicate_serialize toy_float player two_props 100 3 false
      (1 ∷ 2 ∷ 3 ∷ 40 ∷ 41 ∷ 42 ∷ []) (9 ∷ []) (λ i. 0) two_props-IsLaidOut two_props-HasFullSizes
      refl (omega arith) (omega arith) (omega arith) refl

-- Client 4 does not get the owner's property.
test_bit-sent_mask_example : test_bit (sent_mask player two_props 4 false) 1 ≡ (
    (if false then true else test_bit 3 1)
    && may_see (two_props.props 1) (is_owner (some 3) 4) false)
unfolding add_typed add_prop empty_schema
test_bit-sent_mask_example =
    test_bit-sent_mask player two_props 4 false 1 (omega arith) (omega arith)

get_in-set_in_example :
    let (changed, after) = set_in eq_list player u8 0 (7 ∷ []) (some two_props) in
    let old = bytes_from (λ i. i + 40) (two_props.props 0).offset 1 in
    (changed ≡ not (eq_list old (7 ∷ [])))
    × (get_in after u8 0 1 after.schema ≡ some (if changed then 7 ∷ [] else old))
    × ((j : ℕ)
        → j < two_props.prop_count
        → j ≢ 0
        → bytes_of after two_props j ≡ bytes_of player two_props j)
    × ((j : ℕ) → test_bit after.dirty_mask j ≡ (if changed && (j == 0) then true else test_bit 3 j))
unfolding add_typed add_prop empty_schema valid_prop type_code
get_in-set_in_example =
    get_in-set_in eq_list two_props player u8 0 (7 ∷ []) two_props-IsLaidOut (omega arith) refl refl
      (omega arith)
