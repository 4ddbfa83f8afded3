-- ===== src/Replication/Codec.antt =====
-- src/replication/replicate.cpp: which properties of an entity a client is sent, and how they are
-- written and read. A buffer is its list of bytes.
pub mod RoundTrip
pub mod Update
pub mod Exchange
pub mod Filter
use netudp.Base.{
  ℕ, zero, suc, ◌+◌, ◌-◌, ◌%◌, ◌^◌, ◌==◌, ltb, Bool, true, false, not, ◌&&◌, if◌then◌else◌, Array,
  Option, some, none, List, [], ◌∷◌, ◌++◌,
}
use netudp.Base.Bits.{test_bit, clear_bit}
use netudp.Base.Bytes.{bytes_le, read_le, joined}
use netudp.Base.Lists.{length, take, drop}
use netudp.Base.Memory.{copy_at, bytes_from}
use netudp.Replication.Entity.{Entity}
use netudp.Replication.Half.{f32_to_half, half_to_f32}
use netudp.Replication.Quantize.{
  Float32, vec3_quantize, vec3_dequantize, quat_quantize, quat_dequantize,
}
use netudp.Replication.Schema.{
  PropType, u8, u16, i32, f32, vec3, quat, blob, PropDesc, Schema, rep_owner_only, rep_skip_owner,
  rep_initial_only, rep_quantize,
}
use netudp.Replication.Varint.{varint_encode, varint_decode}

abbrev pub Bytes : Type 0
Bytes = List ℕ

-- The branches of `write_prop` and `read_prop`.
pub data Coding : Type 0 where
  raw half packed_vec3 packed_quat : Coding

unfoldable pub quantized_coding : PropType → Coding
quantized_coding u8 = raw
quantized_coding u16 = raw
quantized_coding i32 = raw
quantized_coding f32 = half
quantized_coding vec3 = packed_vec3
quantized_coding quat = packed_quat
quantized_coding blob = raw

unfoldable pub coding : PropDesc → Coding
coding pd = if test_bit pd.rep_flags rep_quantize then quantized_coding pd.prop_type else raw

-- The bytes that a property takes on the wire.
unfoldable pub wire_len : Coding → ℕ → ℕ
wire_len raw raw_size = raw_size
wire_len half raw_size = 2
wire_len packed_vec3 raw_size = 4
wire_len packed_quat raw_size = 4

-- The bytes that its value takes in the entity.
unfoldable pub value_len : Coding → ℕ → ℕ
value_len raw raw_size = raw_size
value_len half raw_size = 4
value_len packed_vec3 raw_size = 12
value_len packed_quat raw_size = 16

-- The client owns the entity.
unfoldable pub is_owner : Option ℕ → ℕ → Bool
is_owner none client = false
is_owner (some owner) client = owner == client

-- The conditions under which a property is taken out of the mask.
unfoldable pub is_withheld : {T : Type 0} → Entity T → PropDesc → ℕ → Bool → Bool
is_withheld ent pd target_client is_initial =
    if test_bit pd.rep_flags rep_initial_only && not is_initial
    then true
    else if test_bit pd.rep_flags rep_owner_only && not (is_owner ent.owner_client target_client)
    then true
    else test_bit pd.rep_flags rep_skip_owner && is_owner ent.owner_client target_client

-- The loop over the first `n` properties.
unfoldable pub filter_mask : {T : Type 0} → Entity T → Schema → ℕ → Bool → ℕ → ℕ → ℕ
filter_mask ent s target_client is_initial mask zero = mask
filter_mask ent s target_client is_initial mask (suc n) =
    let before = filter_mask ent s target_client is_initial mask n in
    if test_bit before n && is_withheld ent (s.props n) target_client is_initial
    then clear_bit before n
    else before

-- `(1ULL << prop_count) - 1`. A shift by 64 is undefined in C++; here it is one by 0, as x86-64 does.
unfoldable pub start_mask : {T : Type 0} → Entity T → Schema → Bool → ℕ
start_mask ent s is_initial = if is_initial then 2 ^ (s.prop_count % 64) - 1 else ent.dirty_mask

module _ (F : Float32) where
  open F use {Carrier, of_bits, to_bits}

  -- The `float` in the bytes from `4 * i` on.
  unfoldable pub float_at : Bytes → ℕ → Carrier
  float_at val i = of_bits (read_le 4 (drop (i + i + i + i) val))

  unfoldable pub encode : Coding → ℕ → Bytes → Bytes
  encode raw raw_size val = take raw_size val
  encode half raw_size val = bytes_le 2 (f32_to_half (read_le 4 val))
  encode packed_vec3 raw_size val =
      bytes_le 4 (vec3_quantize F (float_at val 0, float_at val 1, float_at val 2))
  encode packed_quat raw_size val = bytes_le 4 (quat_quantize F (float_at val))

  unfoldable pub decode_vec3 : ℕ → Bytes
  decode_vec3 packed =
      let (x, y, z) = vec3_dequantize F packed in
      bytes_le 4 (to_bits x) ++ (bytes_le 4 (to_bits y) ++ bytes_le 4 (to_bits z))

  unfoldable pub decode_quat : ℕ → Bytes
  decode_quat packed =
      let q = λ (i : ℕ). bytes_le 4 (to_bits (quat_dequantize F packed i)) in
      q 0 ++ (q 1 ++ (q 2 ++ q 3))

  unfoldable pub decode : Coding → ℕ → Bytes → Bytes
  decode raw raw_size wire = take raw_size wire
  decode half raw_size wire = bytes_le 4 (half_to_f32 (read_le 2 wire))
  decode packed_vec3 raw_size wire = decode_vec3 (read_le 4 wire)
  decode packed_quat raw_size wire = decode_quat (read_le 4 wire)

  -- `cap` is `out_cap - pos`, which may be negative.
  unfoldable pub write_prop : PropDesc → Bytes → ℕ → ℕ → Option Bytes
  write_prop pd val out_cap pos =
      if ltb out_cap (pos + wire_len (coding pd) pd.raw_size)
      then none
      else some (encode (coding pd) pd.raw_size val)

  -- The value and the number of bytes that it took.
  unfoldable pub read_prop : PropDesc → Bytes → Option (Bytes × ℕ)
  read_prop pd wire =
      if ltb (length wire) (wire_len (coding pd) pd.raw_size)
      then none
      else some (decode (coding pd) pd.raw_size wire, wire_len (coding pd) pd.raw_size)

-- What is written, and what comes after it at the new position.
unfoldable pub written_on : (ℕ → Option Bytes) → ℕ → Option Bytes → Option Bytes
written_on others pos none = none
written_on others pos (some w) = joined w (others (pos + length w))

-- A value goes to its place, and reading goes on behind it.
unfoldable pub advanced : ℕ → Option (Array ℕ × ℕ) → Option (Array ℕ × ℕ)
advanced k none = none
advanced k (some (values, consumed)) = some (values, k + consumed)

unfoldable pub read_on :
    (Array ℕ → Bytes → Option (Array ℕ × ℕ))
    → Array ℕ
    → ℕ
    → Bytes
    → Option (Bytes × ℕ)
    → Option (Array ℕ × ℕ)
read_on others values offset bs none = none
read_on others values offset bs (some (val, k)) =
    advanced k (others (copy_at values offset val) (drop k bs))

-- What the receiver has after an update.
pub record Snapshot : Type 0 where
  pub position : ℕ
  pub entity_id : ℕ
  pub values : Array ℕ
  pub dirty : ℕ

unfoldable pub snapshot : ℕ → ℕ → ℕ → Option (Array ℕ × ℕ) → Option Snapshot
snapshot entity_id mask start none = none
snapshot entity_id mask start (some (values, consumed)) =
    some
      (record { position = start + consumed; entity_id = entity_id; values = values; dirty = mask })

module _ (F : Float32) where
  unfoldable pub value_of : Array ℕ → PropDesc → Bytes
  value_of values pd = bytes_from values pd.offset (value_len (coding pd) pd.raw_size)

  -- The loop over the properties from `i` on, `n` of them.
  unfoldable pub write_props : Array ℕ → Schema → ℕ → ℕ → ℕ → ℕ → ℕ → Option Bytes
  write_props values s mask out_cap pos i zero = some []
  write_props values s mask out_cap pos i (suc n) = elim (test_bit mask i) [
    | false ↦ write_props values s mask out_cap pos (i + 1) n
    | true ↦
        written_on (λ p. write_props values s mask out_cap p (i + 1) n) pos
          (write_prop F (s.props i) (value_of values (s.props i)) out_cap pos)
  ]

  -- The bytes, none of them where the code returns 0.
  unfoldable pub serialize_in :
      {T : Type 0} → Entity T → ℕ → ℕ → Bool → Option Schema → Option Bytes
  serialize_in ent out_cap target_client is_initial none = none
  serialize_in ent out_cap target_client is_initial (some s) =
      let mask =
        filter_mask ent s target_client is_initial (start_mask ent s is_initial) s.prop_count in
      let head = bytes_le 2 ent.entity_id ++ varint_encode mask in
      if ltb out_cap 2
      then none
      else if mask == 0
      then some []
      else joined head (write_props ent.values s mask out_cap (length head) 0 s.prop_count)

  unfoldable pub replicate_serialize : {T : Type 0} → Entity T → ℕ → ℕ → Bool → Option Bytes
  replicate_serialize ent out_cap target_client is_initial =
      serialize_in ent out_cap target_client is_initial ent.schema

  -- The values, and the number of bytes that were read.
  unfoldable pub read_props : Schema → ℕ → ℕ → ℕ → Array ℕ → Bytes → Option (Array ℕ × ℕ)
  read_props s mask i zero values bs = some (values, 0)
  read_props s mask i (suc n) values bs = elim (test_bit mask i) [
    | false ↦ read_props s mask (i + 1) n values bs
    | true ↦
        read_on (read_props s mask (i + 1) n) values (s.props i).offset bs
          (read_prop F (s.props i) bs)
  ]

  unfoldable pub read_values : Schema → Bytes → Array ℕ → Option (ℕ × ℕ) → Option Snapshot
  read_values s wire values none = none
  read_values s wire values (some (vi_len, mask)) =
      snapshot (read_le 2 wire) mask (2 + vi_len)
        (read_props s mask 0 s.prop_count values (drop vi_len (drop 2 wire)))

  -- `values` are the receiver's values before. What a failing call leaves in them is not modelled.
  unfoldable pub replicate_deserialize : Schema → Bytes → Array ℕ → Option Snapshot
  replicate_deserialize s wire values =
      if ltb (length wire) 3 then none else read_values s wire values (varint_decode (drop 2 wire))
