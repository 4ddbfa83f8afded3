-- ===== src/Replication/Schema.antt =====
-- src/replication/schema.h: the properties of a kind of entity and their places in the value buffer.
-- Names are lists of bytes without the closing zero.
pub mod Layout
use netudp.Base.{
  ℕ, zero, suc, ◌+◌, ◌-◌, ◌%◌, ◌==◌, leb, Bool, true, false, if◌then◌else◌, Array, update, Option,
  some, none, List, [], ◌∷◌,
}
use netudp.Base.Bits.{test_bit}
use netudp.Base.Words.{u32_mod}
use netudp.Base.Lists.{take, eq_list}

pub data PropType : Type 0 where
  u8 u16 i32 f32 vec3 quat blob : PropType

unfoldable pub type_code : PropType → ℕ
type_code u8 = 0
type_code u16 = 1
type_code i32 = 2
type_code f32 = 3
type_code vec3 = 4
type_code quat = 5
type_code blob = 6

-- The positions of the flags `REP_OWNER_ONLY` = 1 to `REP_QUANTIZE` = 0x20.
abbrev pub rep_owner_only : ℕ
rep_owner_only = 0

abbrev pub rep_skip_owner : ℕ
rep_skip_owner = 1

abbrev pub rep_initial_only : ℕ
rep_initial_only = 2

abbrev pub rep_reliable : ℕ
rep_reliable = 4

abbrev pub rep_quantize : ℕ
rep_quantize = 5

abbrev pub max_prop_name : ℕ
max_prop_name = 32

abbrev pub max_properties : ℕ
max_properties = 64

pub record PropDesc : Type 0 where
  pub name : List ℕ
  pub prop_type : PropType
  pub rep_flags : ℕ
  pub raw_size : ℕ
  pub wire_size : ℕ
  pub offset : ℕ
  pub bit_index : ℕ
  pub blob_capacity : ℕ

-- `schema_id` is -1 where it is `none`.
pub record Schema : Type 0 where
  pub schema_id : Option ℕ
  pub prop_count : ℕ
  pub value_buffer_size : ℕ
  pub props : Array PropDesc

-- The new property's index, if there is room, and the schema. `strncpy` takes 31 bytes of the name.
-- `value_buffer_size` is an `int`, here its two's complement word: the overflow of the sum, which is
-- undefined in C++, wraps.
unfoldable pub add_prop : Schema → List ℕ → PropType → ℕ → ℕ → ℕ → ℕ → Option ℕ × Schema
add_prop s name prop_type flags raw_size wire_size blob_cap =
    if leb max_properties s.prop_count then (none, s) else (
      some s.prop_count,
      record s {
        props = update s.props s.prop_count (record {
          name = take (max_prop_name - 1) name;
          prop_type = prop_type;
          rep_flags = flags;
          raw_size = raw_size;
          wire_size = if test_bit flags rep_quantize then wire_size else raw_size;
          offset = s.value_buffer_size;
          bit_index = s.prop_count;
          blob_capacity = blob_cap;
        });
        value_buffer_size = (s.value_buffer_size + raw_size) % u32_mod;
        prop_count = s.prop_count + 1;
      },
    )

-- The loop from `i` on, with `n` properties to look at; `strncmp` looks at 32 bytes.
unfoldable pub find_from : Schema → List ℕ → ℕ → ℕ → Option ℕ
find_from s name i zero = none
find_from s name i (suc n) =
    let later = find_from s name (i + 1) n in
    if eq_list (s.props i).name (take max_prop_name name) then some i else later

unfoldable pub find_prop : Schema → List ℕ → Option ℕ
find_prop s name = find_from s name 0 s.prop_count

-- `Schema{}`
unfoldable pub empty_schema : Schema
empty_schema = record {
  schema_id = none;
  prop_count = 0;
  value_buffer_size = 0;
  props = λ i. record {
    name = [];
    prop_type = u8;
    rep_flags = 0;
    raw_size = 0;
    wire_size = 0;
    offset = 0;
    bit_index = 0;
    blob_capacity = 0;
  };
}

-- `netudp_schema_add_u8` to `netudp_schema_add_blob` of src/server.cpp, on the schema that they find.
unfoldable pub add_typed : Schema → List ℕ → PropType → ℕ → Option ℕ × Schema
add_typed s name u8 flags = add_prop s name u8 flags 1 1 0
add_typed s name u16 flags = add_prop s name u16 flags 2 2 0
add_typed s name i32 flags = add_prop s name i32 flags 4 4 0
add_typed s name f32 flags = add_prop s name f32 flags 4 2 0
add_typed s name vec3 flags = add_prop s name vec3 flags 12 4 0
add_typed s name quat flags = add_prop s name quat flags 16 4 0
add_typed s name blob flags = (none, s)

unfoldable pub add_blob : Schema → List ℕ → ℕ → ℕ → Option ℕ × Schema
add_blob s name max_bytes flags =
    if max_bytes == 0 then (none, s) else add_prop s name blob flags max_bytes max_bytes max_bytes
