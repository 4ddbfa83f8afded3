-- ===== src/Server/Connect/Admitted.antt =====
-- src/server.cpp: what holds, in the bytes of the packet and the fields of the server, when
-- `server_handle_connection_request` gives a client a slot.
use netudp.Base.{
  ℕ, zero, suc, ◌-◌, ◌<◌, ◌≡◌, ◌≢◌, refl, sym, ap, ◌∙◌, ◌++◌, ◌==◌, leb, Bool, true, false, not,
  if◌then◌else◌, Option, some, none, Array, arith, Bool-cases, inl, inr,
}
use mathlib.Core.Option
use mathlib.Core.Option.{some-injective}
use netudp.Base.Bytes.{read_le}
use netudp.Base.Float64.{Float64}
use netudp.Base.Lists.{length, drop, eq_list, eq_list→≡, take}
use netudp.Core.Address.{Address, address_equal}
use netudp.Core.HashMap.{find}
use netudp.Crypto.Epoch.{Aead, build_nonce, build_aad, version_info}
use netudp.Crypto.Xchacha.{Cipher, xchacha_decrypt}
use netudp.Connection.Token.{Bytes, PrivateConnectToken, deserialize_private_token}
use netudp.Connection.Token.Validation.{compute_token_fingerprint}
use netudp.Server.Slots.{SlotTable, activate_slot}
use netudp.Server.Connect.{
  ServerConnection, ServerState, OpenedRequest, FingerprintValue, keepalive_prefix, accepted_packet,
  is_connected, is_replayed, opened_request, read_opened, open_request, fingerprint_keys,
  fingerprint_key, server_handle_connection_request,
}
use netudp.Server.Connect.Established.{server_handle_connection_request-IsIn}

-- A result behind a guard.
passed :
    {A : Type 0} (b : Bool) (o : Option A) (a : A)
    → (if b then none else o) ≡ some a
    → (b ≡ false) × (o ≡ some a)
passed true o a e = ground (arith, e)
passed false o a e = (refl, e)

equal : (m n : ℕ) → not (m == n) ≡ false → m ≡ n
equal m n e = ground (arith, e)

after_now : (m n : ℕ) → leb m n ≡ false → n < m
after_now m n e = ground (arith, e)

negated : (b : Bool) → not b ≡ false → b ≡ true
negated b e = ground (arith, e)

opened_request-fields :
    (expire_ts : ℕ) (encrypted : Bytes) (o : Option PrivateConnectToken) (r : OpenedRequest)
    → opened_request expire_ts encrypted o ≡ some r
    → (o ≡ some r.priv) × (r.encrypted_private ≡ encrypted)
unfolding opened_request
opened_request-fields expire_ts encrypted none r e = ground (arith, e)
opened_request-fields expire_ts encrypted (some priv) r e =
    let same = sym (some-injective _ r e) in
    (
      ap (λ (t : OpenedRequest). some t.priv) (sym same),
      ap (λ (t : OpenedRequest). t.encrypted_private) same,
    )

read_opened-fields :
    (expire_ts : ℕ) (encrypted : Bytes) (o : Option Bytes) (r : OpenedRequest)
    → read_opened expire_ts encrypted o ≡ some r
    → (pt : Bytes) × (o ≡ some pt)
      × (deserialize_private_token pt ≡ some r.priv)
      × (r.encrypted_private ≡ encrypted)
unfolding read_opened
read_opened-fields expire_ts encrypted none r e = ground (arith, e)
read_opened-fields expire_ts encrypted (some pt) r e =
    let (read, same) =
      opened_request-fields expire_ts encrypted (deserialize_private_token pt) r e in
    (pt, refl, read, same)

-- The token in a request: its cipher text, from byte 54 on, and what authenticates it.
abbrev encrypted_of : Bytes → Bytes
encrypted_of packet = take 1024 (drop 54 packet)

abbrev aad_of : Bytes → Bytes
aad_of packet = take 13 (drop 1 packet) ++ (take 8 (drop 14 packet) ++ take 8 (drop 22 packet))

open_request-fields :
    (cipher : Cipher) (protocol_id : ℕ) (private_key : Bytes) (now : ℕ) (packet : Bytes)
    (r : OpenedRequest)
    → open_request cipher protocol_id private_key now packet ≡ some r
    → (length packet ≡ 1078)
      × (take 13 (drop 1 packet) ≡ version_info)
      × (read_le 8 (drop 14 packet) ≡ protocol_id)
      × (now < read_le 8 (drop 22 packet))
      × (r.encrypted_private ≡ encrypted_of packet)
      × ((pt : Bytes) × (xchacha_decrypt cipher private_key
              (take 24 (drop 30 packet))
              (aad_of packet)
              (encrypted_of packet)
            ≡ some pt)
          × (deserialize_private_token pt ≡ some r.priv))
unfolding open_request
open_request-fields cipher protocol_id private_key now packet r e =
    let (sized, e1) = passed (not (length packet == 1078)) _ r e in
    let (version, e2) = passed (not (eq_list (take 13 (drop 1 packet)) version_info)) _ r e1 in
    let (protocol, e3) = passed (not (read_le 8 (drop 14 packet) == protocol_id)) _ r e2 in
    let (unexpired, e4) = passed (leb (read_le 8 (drop 22 packet)) now) _ r e3 in
    let (pt, opened, read, same) = read_opened-fields _ _ _ r e4 in
    (
      equal _ _ sized,
      eq_list→≡ _ _ (negated _ version),
      equal _ _ protocol,
      after_now _ _ unexpired,
      same,
      (pt, opened, read),
    )

-- No active connection among the first `n` has the id.
not_connected :
    {T : Type 0} (connections : Array (ServerConnection T)) (client_id n j : ℕ)
    → is_connected connections client_id n ≡ false
    → j < n
    → (connections j).active ≡ true
    → (connections j).client_id ≢ client_id
unfolding is_connected
not_connected connections client_id zero j e lt active same = absurd (ground (arith, lt))
not_connected connections client_id (suc n) j e lt active same = elim (Bool-cases (j == n)) [
  | inl last ↦ absurd (ground (arith, e, active, same, at_last last))
  | inr other ↦ absurd (
      not_connected connections client_id n j (ground (arith, e)) (ground (arith, lt, other)) active
        same)
]
  where
    at_last : (j == n) ≡ true → connections j ≡ connections n
    at_last last = ap connections (ground (arith, last))

is_replayed-same :
    (o : Option FingerprintValue) (from : Address) (v : FingerprintValue)
    → is_replayed o from ≡ false
    → o ≡ some v
    → address_equal v.address from ≡ true
unfolding is_replayed
is_replayed-same none from v e same = ground (arith, same)
is_replayed-same (some w) from v e same =
    ap (λ (x : FingerprintValue). address_equal x.address from) (sym (some-injective w v same))
    ∙ ground (arith, e)

activate_slot-top :
    (t : SlotTable) (slot : ℕ)
    → Option.map (λ (p : ℕ × SlotTable). p.0) (activate_slot t) ≡ some slot
    → (0 < t.free_count) × (t.free_slots (t.free_count - 1) ≡ slot)
unfolding activate_slot
activate_slot-top t slot e = ground (arith, e)

-- A request that gets a slot has the length, the version and the protocol number of this server and
-- an expiry time after now, and its encrypted part opens, under the server's key, to the bytes of a
-- token. No active connection has the token's id, and if the server's map has an entry for the
-- token's fingerprint, then one with the sender's address. The slot is the one on top of the stack of
-- free slots. Its connection is active and has the sender's address, the token's id and its keys, and
-- the packet in reply is sealed with the token's key under nonce 0.
pub server_handle_connection_request-Admits :
    (F : Float64) (cipher : Cipher) (blake2b : Bytes → Bytes → Bytes) (aead : Aead)
    (server : ServerState F.Carrier) (from : Address) (packet : Bytes) (now_ts : ℕ)
    (now : F.Carrier) (slot : ℕ)
    → let a =
        server_handle_connection_request F cipher blake2b aead server from packet now_ts now in
      let encrypted = take 1024 (drop 54 packet) in
      let aad = take 13 (drop 1 packet) ++ (take 8 (drop 14 packet) ++ take 8 (drop 22 packet)) in
      let fingerprint =
        read_le 8 (compute_token_fingerprint blake2b server.private_key encrypted) in
      a.slot ≡ some slot
      → (pt : Bytes) × (priv : PrivateConnectToken) × (payload : Bytes) × (length packet ≡ 1078)
        × (take 13 (drop 1 packet) ≡ version_info)
        × (read_le 8 (drop 14 packet) ≡ server.protocol_id)
        × (now_ts < read_le 8 (drop 22 packet))
        × (xchacha_decrypt cipher server.private_key (take 24 (drop 30 packet)) aad encrypted
            ≡ some pt)
        × (deserialize_private_token pt ≡ some priv)
        × ((j : ℕ)
            → j < server.max_clients
            → (server.connections j).active ≡ true
            → (server.connections j).client_id ≢ priv.client_id)
        × ((v : FingerprintValue)
            → find fingerprint_keys server.fingerprint_map fingerprint ≡ some v
            → address_equal v.address from ≡ true)
        × (0 < server.slots.free_count)
        × (server.slots.free_slots (server.slots.free_count - 1) ≡ slot)
        × ((a.server.connections slot).active ≡ true)
        × ((a.server.connections slot).address ≡ from)
        × ((a.server.connections slot).client_id ≡ priv.client_id)
        × ((a.server.connections slot).key_epoch.tx_key ≡ priv.server_to_client_key)
        × ((a.server.connections slot).key_epoch.rx_key ≡ priv.client_to_server_key)
        × (a.packet
            ≡ accepted_packet (
                aead.encrypt priv.server_to_client_key
                  (build_nonce 0)
                  (build_aad server.protocol_id keepalive_prefix)
                  payload))
unfolding fingerprint_key
server_handle_connection_request-Admits F cipher blake2b aead server from packet now_ts now slot e =
    let (r, (eo, (new, (fresh, (top, (active, (address, (id, (tx, (rx, (payload, sealed))))))))))) =
      server_handle_connection_request-IsIn F cipher blake2b aead server from packet now_ts now slot
        e in
    let (sized, version, protocol, unexpired, same, (pt, opened, read)) =
      open_request-fields cipher server.protocol_id server.private_key now_ts packet r eo in
    let (free, on_top) = activate_slot-top server.slots slot top in
    (
      pt,
      r.priv,
      payload,
      sized,
      version,
      protocol,
      unexpired,
      opened,
      read,
      λ j lt act. not_connected server.connections r.priv.client_id server.max_clients j new lt act,
      λ v found. is_replayed-same _ from v fresh (
          ap
            (λ (bs : Bytes).
              find fingerprint_keys server.fingerprint_map
                (read_le 8 (compute_token_fingerprint blake2b server.private_key bs)))
            same
          ∙ found),
      free,
      on_top,
      active,
      address,
      id,
      tx,
      rx,
      sealed,
    )
