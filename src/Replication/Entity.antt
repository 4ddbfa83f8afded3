-- ===== src/Replication/Entity.antt =====
-- src/replication/entity.h: one entity with the bytes of its properties and the mask of those that have
-- changed. Client and group indices are `none` where the code has -1; a null schema is `none`. Indices
-- of properties are natural numbers.
pub mod Values
use netudp.Base.{
  ℕ, zero, suc, ◌+◌, ◌==◌, ltb, leb, Bool, true, false, not, ◌&&◌, if◌then◌else◌, Array, Option,
  some, none, List, [], ◌∷◌,
}
use netudp.Base.Bits.{set_bit}
use netudp.Base.Bytes.{bytes_le}
use netudp.Base.Lists.{length, eq_list}
use netudp.Base.Memory.{copy_at, bytes_from}
use netudp.Replication.Schema.{
  PropType, u8, u16, i32, f32, vec3, quat, blob, type_code, PropDesc, Schema,
}

-- `T` is the type of times and rates.
pub record Entity (T : Type 0) : Type 0 where
  pub active : Bool
  pub entity_id : ℕ
  pub schema_id : Option ℕ
  pub schema : Option Schema
  pub owner_client : Option ℕ
  pub group_id : Option ℕ
  pub dirty_mask : ℕ
  pub initial_mask : ℕ
  pub needs_initial : Bool
  pub priority : ℕ
  pub max_rate_hz : T
  pub last_replicate_time : T
  pub min_update_interval : T
  pub values : Array ℕ

-- `kEntityMaxValueSize`: the bytes of `values`. No setter compares with it.
abbrev pub entity_max_value_size : ℕ
entity_max_value_size = 2048

unfoldable pub valid_prop : Schema → ℕ → PropType → Bool
valid_prop s idx expected =
    ltb idx s.prop_count && (type_code (s.props idx).prop_type == type_code expected)

module _ {T : Type 0} where
  -- What the setters do with the bytes of a value: `same` compares them with the bytes that are
  -- there.
  unfoldable pub store_value :
      (List ℕ → List ℕ → Bool) → Entity T → Schema → ℕ → List ℕ → Bool × Entity T
  store_value same e s idx bytes =
      if same (bytes_from e.values (s.props idx).offset (length bytes)) bytes then (false, e) else (
        true,
        record e {
          values = copy_at e.values (s.props idx).offset bytes;
          dirty_mask = set_bit e.dirty_mask idx;
        },
      )

  unfoldable pub set_in :
      (List ℕ → List ℕ → Bool) → Entity T → PropType → ℕ → List ℕ → Option Schema → Bool × Entity T
  set_in same e expected idx bytes none = (false, e)
  set_in same e expected idx bytes (some s) =
      if valid_prop s idx expected then store_value same e s idx bytes else (false, e)

  unfoldable pub set_u8 : Entity T → ℕ → ℕ → Bool × Entity T
  set_u8 e idx val = set_in eq_list e u8 idx (val ∷ []) e.schema

  -- Integers are equal exactly if their bytes are.
  unfoldable pub set_u16 : Entity T → ℕ → ℕ → Bool × Entity T
  set_u16 e idx val = set_in eq_list e u16 idx (bytes_le 2 val) e.schema

  -- `val` is the two's complement word.
  unfoldable pub set_i32 : Entity T → ℕ → ℕ → Bool × Entity T
  set_i32 e idx val = set_in eq_list e i32 idx (bytes_le 4 val) e.schema

  -- The comparison is that of `float`, of the numbers with these bytes.
  unfoldable pub set_f32 : (List ℕ → List ℕ → Bool) → Entity T → ℕ → List ℕ → Bool × Entity T
  set_f32 float_equal e idx bytes = set_in float_equal e f32 idx bytes e.schema

  unfoldable pub set_vec3 : Entity T → ℕ → List ℕ → Bool × Entity T
  set_vec3 e idx bytes = set_in eq_list e vec3 idx bytes e.schema

  unfoldable pub set_quat : Entity T → ℕ → List ℕ → Bool × Entity T
  set_quat e idx bytes = set_in eq_list e quat idx bytes e.schema

  unfoldable pub set_blob_in : Entity T → ℕ → List ℕ → Option Schema → Bool × Entity T
  set_blob_in e idx bytes none = (false, e)
  set_blob_in e idx bytes (some s) =
      if valid_prop s idx blob && leb (length bytes) (s.props idx).blob_capacity
      then store_value eq_list e s idx bytes
      else (false, e)

  unfoldable pub set_blob : Entity T → ℕ → List ℕ → Bool × Entity T
  set_blob e idx bytes = set_blob_in e idx bytes e.schema

  -- The bytes that a getter of `size` bytes copies out, if the property is there.
  unfoldable pub get_in : Entity T → PropType → ℕ → ℕ → Option Schema → Option (List ℕ)
  get_in e expected idx size none = none
  get_in e expected idx size (some s) =
      if valid_prop s idx expected
      then some (bytes_from e.values (s.props idx).offset size)
      else none

unfoldable pub reset : {T : Type 0} → T → T → T → Entity T
reset twenty_hz zero_time two_seconds = record {
  active = false;
  entity_id = 0;
  schema_id = none;
  schema = none;
  owner_client = none;
  group_id = none;
  dirty_mask = 0;
  initial_mask = 0;
  needs_initial = true;
  priority = 128;
  max_rate_hz = twenty_hz;
  last_replicate_time = zero_time;
  min_update_interval = two_seconds;
  values = λ i. 0;
}
