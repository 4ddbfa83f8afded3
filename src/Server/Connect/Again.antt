-- ===== src/Server/Connect/Again.antt =====
-- src/server.cpp: what happens when a token is used again from its address.
use netudp.Base.{
  ℕ, ◌≡◌, sym, ap, ap₂, ◌∙◌, ◌++◌, ◌==◌, leb, Bool, true, false, not, if◌then◌else◌, Option, some,
  none, arith,
}
use mathlib.Core.Option.{some-injective}
use netudp.Base.Bytes.{read_le}
use netudp.Base.Float64.{Float64}
use netudp.Base.Lists.{length, drop, eq_list, take}
use netudp.Core.Address.{Address}
use netudp.Crypto.Epoch.{Aead, build_nonce, build_aad, version_info}
use netudp.Crypto.Xchacha.{Cipher, xchacha_decrypt}
use netudp.Connection.Token.{Bytes}
use netudp.Server.Connect.{
  ServerState, OpenedRequest, keepalive_prefix, accepted_packet, read_opened, open_request,
  server_handle_connection_request,
}
use netudp.Server.Connect.Established.{server_handle_connection_request-IsIn}

-- A result behind a guard.
behind :
    {A : Type 0} (b : Bool) (o : Option A) (a : A) → (if b then none else o) ≡ some a → o ≡ some a
behind true o a e = ground (arith, e)
behind false o a e = e

-- What is read out of a request that has not expired.
abbrev shown : Cipher → Bytes → Bytes → Option OpenedRequest
shown cipher private_key packet =
    let encrypted = take 1024 (drop 54 packet) in
    read_opened (read_le 8 (drop 22 packet)) encrypted (
      xchacha_decrypt cipher private_key (take 24 (drop 30 packet))
        (take 13 (drop 1 packet) ++ (take 8 (drop 14 packet) ++ take 8 (drop 22 packet))) encrypted)

open_request-shown :
    (cipher : Cipher) (protocol_id : ℕ) (private_key : Bytes) (now : ℕ) (packet : Bytes)
    (r : OpenedRequest)
    → open_request cipher protocol_id private_key now packet ≡ some r
    → shown cipher private_key packet ≡ some r
unfolding open_request
open_request-shown cipher protocol_id private_key now packet r e =
    behind (leb (read_le 8 (drop 22 packet)) now) (shown cipher private_key packet) r (
      behind (not (read_le 8 (drop 14 packet) == protocol_id)) _ r (
        behind (not (eq_list (take 13 (drop 1 packet)) version_info)) _ r
          (behind (not (length packet == 1078)) _ r e)))

-- Two servers' states with one key, or one server's at two times, that let in the same request both
-- seal their first packet with the same key under the same nonce, the payloads being their own.
pub server_handle_connection_request_again :
    (F : Float64) (cipher : Cipher) (blake2b : Bytes → Bytes → Bytes) (aead : Aead)
    (server server' : ServerState F.Carrier) (from from' : Address) (packet : Bytes)
    (now_ts now_ts' : ℕ) (now now' : F.Carrier) (slot slot' : ℕ)
    → server'.protocol_id ≡ server.protocol_id
    → server'.private_key ≡ server.private_key
    → let a =
        server_handle_connection_request F cipher blake2b aead server from packet now_ts now in
      let b =
        server_handle_connection_request F cipher blake2b aead server' from' packet now_ts' now' in
      a.slot ≡ some slot
      → b.slot ≡ some slot'
      → (key payload payload' : Bytes) × ((a.packet
            ≡ accepted_packet (
                aead.encrypt key
                  (build_nonce 0)
                  (build_aad server.protocol_id keepalive_prefix)
                  payload))
          × (b.packet
              ≡ accepted_packet (
                  aead.encrypt key
                    (build_nonce 0)
                    (build_aad server.protocol_id keepalive_prefix)
                    payload')))
server_handle_connection_request_again F cipher blake2b aead server server' from from' packet now_ts
      now_ts' now now' slot slot' ep ek e e' =
    let (r, (eo, (new, (fresh, (top, (active, (address, (id, (tx, (rx, (payload, sealed))))))))))) =
      server_handle_connection_request-IsIn F cipher blake2b aead server from packet now_ts now slot
        e in
    let (
      r',
      (
        eo',
        (new', (fresh', (top', (active', (address', (id', (tx', (rx', (payload', sealed'))))))))),
      ),
    ) =
      server_handle_connection_request-IsIn F cipher blake2b aead server' from' packet now_ts' now'
        slot' e' in
    let same : r'.priv.server_to_client_key ≡ r.priv.server_to_client_key =
      ap (λ (t : OpenedRequest). t.priv.server_to_client_key)
        (some-injective r' r (
          sym (
            open_request-shown cipher server'.protocol_id server'.private_key now_ts' packet r' eo')
          ∙ ap (λ (k : Bytes). shown cipher k packet) ek
          ∙ open_request-shown cipher server.protocol_id server.private_key now_ts packet r eo)) in
    (
      r.priv.server_to_client_key,
      payload,
      payload',
      (
        sealed,
        sealed'
            ∙ ap₂
                (λ (k : Bytes) (p : ℕ).
                  accepted_packet
                    (aead.encrypt k (build_nonce 0) (build_aad p keepalive_prefix) payload'))
                same ep,
      ),
    )
