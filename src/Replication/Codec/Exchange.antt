-- ===== src/Replication/Codec/Exchange.antt =====
-- src/replication/replicate.cpp: `replicate_deserialize` on what `replicate_serialize` wrote.
use netudp.Base.{
  ℕ, zero, suc, ◌+◌, ◌≤◌, ◌<◌, ◌≡◌, ◌≢◌, sym, ap, ◌∙◌, subst, ◌==◌, ltb, Bool, ◌&&◌, Array, Option,
  some, ◌++◌, inl, inr, Bool-cases, if-elim, arith,
}
use mathlib.Core.List.{append_assoc}
use netudp.Base.Bits.{clear_bit-le, test_bit}
use netudp.Base.Bytes.{
  bytes_le, read_le, joined-some, length-bytes_le, drop-bytes_le, read_le-bytes_le,
}
use netudp.Base.Words.{u64_mod}
use netudp.Base.Lists.{length, drop, length-append, drop-append}
use netudp.Replication.Entity.{Entity}
use netudp.Replication.Quantize.{Float32}
use netudp.Replication.Schema.{Schema}
use netudp.Replication.Schema.Layout.{IsLaidOut}
use netudp.Replication.Varint.{varint_encode, varint_decode}
use netudp.Replication.Varint.RoundTrip.{varint_decode-varint_encode, varint_encode-length}
use netudp.Replication.Codec.{
  Bytes, is_withheld, filter_mask, start_mask, write_props, serialize_in, replicate_serialize,
  read_props, read_values, snapshot, Snapshot, replicate_deserialize,
}
use netudp.Replication.Codec.RoundTrip.{applied, read_props-write_props}
use netudp.Replication.Codec.Update.{HasFullSizes, HasUpdate, value_of-applied}

module _ {T : Type 0} where
  -- The mask that goes out.
  abbrev pub sent_mask : Entity T → Schema → ℕ → Bool → ℕ
  sent_mask ent s target_client is_initial =
      filter_mask ent s target_client is_initial (start_mask ent s is_initial) s.prop_count

  filter_mask-le :
      (ent : Entity T) (s : Schema) (client : ℕ) (is_initial : Bool) (mask n : ℕ)
      → filter_mask ent s client is_initial mask n ≤ mask
  unfolding filter_mask
  filter_mask-le ent s client is_initial mask zero = omega arith
  filter_mask-le ent s client is_initial mask (suc n) =
      let before = filter_mask ent s client is_initial mask n in
      if-elim (λ m. m ≤ mask) (test_bit before n && is_withheld ent (s.props n) client is_initial)
        (λ h. omega (arith, filter_mask-le ent s client is_initial mask n, clear_bit-le before n))
        (λ h. filter_mask-le ent s client is_initial mask n)

  module _ (F : Float32) where
    serialize_in-split :
        (ent : Entity T) (s : Schema) (out_cap client : ℕ) (is_initial : Bool) (wire : Bytes)
        → sent_mask ent s client is_initial ≢ 0
        → serialize_in F ent out_cap client is_initial (some s) ≡ some wire
        → (ps : Bytes) × ((write_props F ent.values s
                (sent_mask ent s client is_initial)
                out_cap
                (length
                  (bytes_le 2 ent.entity_id ++ varint_encode (sent_mask ent s client is_initial)))
                0
                s.prop_count
              ≡ some ps)
            × (wire
                ≡ (bytes_le 2 ent.entity_id ++ varint_encode (sent_mask ent s client is_initial))
                  ++ ps))
    unfolding serialize_in
    serialize_in-split ent s out_cap client is_initial wire ne e =
        elim (Bool-cases (ltb out_cap 2)) [
          | inl short ↦ ground (arith, short, e)
          | inr room ↦ elim (Bool-cases (sent_mask ent s client is_initial == 0)) [
            | inl empty ↦ absurd (ne (ground (arith, empty)))
            | inr some_props ↦
                joined-some
                  (bytes_le 2 ent.entity_id ++ varint_encode (sent_mask ent s client is_initial))
                  wire
                  (write_props F ent.values s (sent_mask ent s client is_initial) out_cap _ 0
                    s.prop_count)
                  (ground (arith, room, some_props, e))
          ]
        ]

-- The receiver's side, on bytes of which the parts are known.
received :
    (F : Float32) (s : Schema) (before after : Array ℕ) (entity_id mask : ℕ) (ps rest : Bytes)
    → entity_id < 65536
    → mask < u64_mod
    → read_props F s mask 0 s.prop_count before (ps ++ rest) ≡ some (after, length ps)
    → replicate_deserialize F s
        (bytes_le 2 entity_id ++ (varint_encode mask ++ (ps ++ rest)))
        before
      ≡ some (record {
        position = 2 + length (varint_encode mask) + length ps;
        entity_id = entity_id;
        values = after;
        dirty = mask;
      })
unfolding replicate_deserialize read_values snapshot
received F s before after entity_id mask ps rest hid hmask e =
    let others = varint_encode mask ++ (ps ++ rest) in
    let wire = bytes_le 2 entity_id ++ others in
    let vi_len = length (varint_encode mask) in
    if-elim
      (λ (r : Option Snapshot).
        r
        ≡ some (record {
          position = 2 + vi_len + length ps;
          entity_id = entity_id;
          values = after;
          dirty = mask;
        }))
      (ltb (length wire) 3)
      (λ short. ground (
        arith,
        short,
        length-append (bytes_le 2 entity_id) others,
        length-bytes_le 2 entity_id,
        length-append (varint_encode mask) (ps ++ rest),
        varint_encode-length mask,
      ))
      (λ enough.
        ap (λ (bs : Bytes). read_values F s wire before (varint_decode bs))
          (drop-bytes_le 2 entity_id others)
        ∙ ap (read_values F s wire before) (varint_decode-varint_encode mask (ps ++ rest) hmask)
        ∙ ap
            (λ (bs : Bytes).
              snapshot (read_le 2 wire) mask (2 + vi_len)
                (read_props F s mask 0 s.prop_count before bs))
            (ap (drop vi_len) (drop-bytes_le 2 entity_id others)
              ∙ drop-append (varint_encode mask) (ps ++ rest))
        ∙ ap (snapshot (read_le 2 wire) mask (2 + vi_len)) e
        ∙ ap (λ (id : ℕ). snapshot id mask (2 + vi_len) (some (after, length ps)))
            (read_le-bytes_le 2 entity_id others hid))

append_assoc3 : (a b c d : Bytes) → ((a ++ b) ++ c) ++ d ≡ a ++ (b ++ (c ++ d))
append_assoc3 a b c d = append_assoc (a ++ b) c d ∙ append_assoc a b (c ++ d)

length-parts : (id : ℕ) (b c : Bytes) → length ((bytes_le 2 id ++ b) ++ c) ≡ 2 + length b + length c
length-parts id b c = omega (
  arith,
  length-append (bytes_le 2 id ++ b) c,
  length-append (bytes_le 2 id) b,
  length-bytes_le 2 id,
)

received_message :
    (F : Float32) (s : Schema) (before after : Array ℕ) (entity_id mask : ℕ) (ps rest : Bytes)
    → entity_id < 65536
    → mask < u64_mod
    → read_props F s mask 0 s.prop_count before (ps ++ rest) ≡ some (after, length ps)
    → replicate_deserialize F s
        (((bytes_le 2 entity_id ++ varint_encode mask) ++ ps) ++ rest)
        before
      ≡ some (record {
        position = length ((bytes_le 2 entity_id ++ varint_encode mask) ++ ps);
        entity_id = entity_id;
        values = after;
        dirty = mask;
      })
received_message F s before after entity_id mask ps rest hid hmask e =
    ap (λ (w : Bytes). replicate_deserialize F s w before)
      (append_assoc3 (bytes_le 2 entity_id) (varint_encode mask) ps rest)
    ∙ received F s before after entity_id mask ps rest hid hmask e
    ∙ ap
        (λ (n : ℕ).
          some (record { position = n; entity_id = entity_id; values = after; dirty = mask }))
        (sym (length-parts entity_id (varint_encode mask) ps))

-- What `replicate_serialize` wrote for a client, with at least one property, is read back, whatever
-- follows it, as the entity's id and the mask, and the receiver is behind the update. The properties
-- of the mask have the sender's values after the way over the wire, all others the receiver's own.
pub replicate_deserialize-replicate_serialize :
    {T : Type 0} (F : Float32) (ent : Entity T) (s : Schema) (out_cap target_client : ℕ)
    (is_initial : Bool) (wire rest : Bytes) (before : Array ℕ)
    → IsLaidOut s
    → HasFullSizes s
    → ent.schema ≡ some s
    → ent.entity_id < 65536
    → start_mask ent s is_initial < u64_mod
    → sent_mask ent s target_client is_initial ≢ 0
    → replicate_serialize F ent out_cap target_client is_initial ≡ some wire
    → (after : Array ℕ) × ((replicate_deserialize F s (wire ++ rest) before
          ≡ some (record {
            position = length wire;
            entity_id = ent.entity_id;
            values = after;
            dirty = sent_mask ent s target_client is_initial;
          }))
        × HasUpdate F s ent.values (sent_mask ent s target_client is_initial) before after)
unfolding replicate_serialize
replicate_deserialize-replicate_serialize F ent s out_cap client is_initial wire rest before
      laid_out full hs hid hm ne e =
    let mask = sent_mask ent s client is_initial in
    let (ps, (ep, ew)) =
      serialize_in-split F ent s out_cap client is_initial wire ne
        (sym (ap (serialize_in F ent out_cap client is_initial) hs) ∙ e) in
    (
      applied F ent.values s mask 0 s.prop_count before,
      (
        subst
            (λ (w : Bytes).
              replicate_deserialize F s (w ++ rest) before
              ≡ some (record {
                position = length w;
                entity_id = ent.entity_id;
                values = applied F ent.values s mask 0 s.prop_count before;
                dirty = mask;
              }))
            (sym ew)
            (received_message F s before _ ent.entity_id mask ps rest hid
              (omega (
                arith,
                hm,
                filter_mask-le ent s client is_initial (start_mask ent s is_initial) s.prop_count,
              ))
              (read_props-write_props F s ent.values mask out_cap _ 0 s.prop_count before ps rest
                ep)),
        λ i lt.
            value_of-applied F s laid_out full ent.values mask 0 s.prop_count i before (omega arith)
              (omega arith) (omega (arith, lt)),
      ),
    )
