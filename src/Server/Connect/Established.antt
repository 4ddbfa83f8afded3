-- ===== src/Server/Connect/Established.antt =====
-- src/server.cpp: what `server_handle_connection_request` has checked and set when a client gets a
-- slot.
use netudp.Base.{
  ℕ, ◌+◌, ◌%◌, update, ◌≡◌, refl, sym, ap, ◌∙◌, subst, true, false, Option, some, none, if-elim,
  Array, arith,
}
use mathlib.Core.Option
use mathlib.Core.Option.{some-injective}
use netudp.Base.Float64.{Float64}
use netudp.Base.Lists.{length}
use netudp.Base.Words.{u64_mod}
use netudp.Core.Address.{Address}
use netudp.Crypto.Epoch.{Aead, KeyEpoch, build_nonce, build_aad, packet_encrypt}
use netudp.Crypto.Xchacha.{Cipher}
use netudp.Connection.Token.{Bytes, PrivateConnectToken}
use netudp.Core.HashMap.{find}
use netudp.Server.Slots.{SlotTable, activate_slot}
use netudp.Server.Connect.{
  ServerConnection, ServerState, OpenedRequest, Answer, keepalive_prefix, established, first_epoch,
  accepted_packet, send_accepted, accepted_payload, is_connected, is_replayed, open_request,
  fingerprint_keys, fingerprint_key, with_fingerprint, connect_slot, admit,
  server_handle_connection_request,
}

-- The result of `packet_encrypt`, by what the cipher returns.
abbrev sealed_with : {T : Type 0} → Bytes → KeyEpoch T → Option Bytes → Option Bytes × KeyEpoch T
sealed_with pt epoch none = (none, epoch)
sealed_with pt epoch (some ct) = (
  some ct,
  record epoch {
    tx_nonce_counter = (epoch.tx_nonce_counter + 1) % u64_mod;
    bytes_transmitted = (epoch.bytes_transmitted + length pt) % u64_mod;
  },
)

-- What `packet_encrypt` leaves as it is.
sealed_with-keys :
    {T : Type 0} (pt : Bytes) (epoch : KeyEpoch T) (o : Option Bytes)
    → ((sealed_with pt epoch o).1.tx_key ≡ epoch.tx_key)
      × (((sealed_with pt epoch o).1.rx_key ≡ epoch.rx_key) × ((sealed_with pt epoch o).0 ≡ o))
sealed_with-keys pt epoch none = (refl, (refl, refl))
sealed_with-keys pt epoch (some ct) = (refl, (refl, refl))

packet_encrypt-keys :
    {T : Type 0} (aead : Aead) (protocol_id : ℕ) (epoch : KeyEpoch T) (prefix : ℕ) (pt : Bytes)
    → let (ct, epoch') = packet_encrypt aead protocol_id epoch prefix pt in
      (epoch'.tx_key ≡ epoch.tx_key)
      × ((epoch'.rx_key ≡ epoch.rx_key)
          × (ct
              ≡ aead.encrypt epoch.tx_key
                  (build_nonce epoch.tx_nonce_counter)
                  (build_aad protocol_id prefix)
                  pt))
unfolding packet_encrypt
packet_encrypt-keys aead protocol_id epoch prefix pt = sealed_with-keys pt epoch (
    aead.encrypt epoch.tx_key (build_nonce epoch.tx_nonce_counter) (build_aad protocol_id prefix)
      pt)

module _ (F : Float64) (cipher : Cipher) (blake2b : Bytes → Bytes → Bytes) (aead : Aead) where
  -- The connection of a client that has got a slot, and the packet that goes to the client.
  abbrev pub IsEstablished :
      ℕ → Address → PrivateConnectToken → ServerConnection F.Carrier → Option Bytes → Type 0
  IsEstablished protocol_id from priv conn packet =
      (conn.active ≡ true)
      × ((conn.address ≡ from)
          × ((conn.client_id ≡ priv.client_id)
              × ((conn.key_epoch.tx_key ≡ priv.server_to_client_key)
                  × ((conn.key_epoch.rx_key ≡ priv.client_to_server_key)
                      × ((payload : Bytes) × (packet
                            ≡ accepted_packet (
                                aead.encrypt priv.server_to_client_key (build_nonce 0)
                                  (build_aad protocol_id keepalive_prefix) payload)))))))

  send_accepted-IsEstablished :
      (conn : ServerConnection F.Carrier) (from : Address) (priv : PrivateConnectToken)
      (slot max_clients protocol_id : ℕ) (zero_time now : F.Carrier)
      → let (packet, conn') =
          send_accepted F aead
            (established zero_time conn from slot priv now)
            slot
            max_clients
            protocol_id
            now in
        IsEstablished protocol_id from priv conn' packet
  unfolding send_accepted established first_epoch
  send_accepted-IsEstablished conn from priv slot max_clients protocol_id zero_time now =
      let c = established zero_time conn from slot priv now in
      let payload = accepted_payload F aead c slot max_clients now in
      let (tx, (rx, sealed)) =
        packet_encrypt-keys aead protocol_id c.key_epoch keepalive_prefix payload in
      (refl, (refl, (refl, (tx, (rx, (payload, ap accepted_packet sealed))))))

  -- The client of this slot is in, on the state in which the fingerprint is stored.
  abbrev pub IsIn : ServerState F.Carrier → Address → OpenedRequest → ℕ → Answer F.Carrier → Type 0
  IsIn server from r slot a =
      (Option.map (λ (p : ℕ × SlotTable). p.0) (activate_slot server.slots) ≡ some slot)
      × IsEstablished server.protocol_id from r.priv (a.server.connections slot) a.packet

  connect_slot-IsIn :
      (server : ServerState F.Carrier) (from : Address) (r : OpenedRequest) (now : F.Carrier)
      (slot : ℕ) (o : Option (ℕ × SlotTable))
      → activate_slot server.slots ≡ o
      → (connect_slot F cipher blake2b aead server from r.priv now o).slot ≡ some slot
      → IsIn server from r slot (connect_slot F cipher blake2b aead server from r.priv now o)
  unfolding connect_slot
  connect_slot-IsIn server from r now slot none eo e = ground (arith, e)
  connect_slot-IsIn server from r now slot (some (s, slots)) eo e =
      let same : s ≡ slot = some-injective s slot e in
      let sent =
        send_accepted F aead (established (F.of_nat 0) (server.connections s) from s r.priv now) s
          server.max_clients server.protocol_id now in
      (
        ap (Option.map (λ (p : ℕ × SlotTable). p.0)) eo ∙ e,
        subst
            (λ (c : ServerConnection F.Carrier).
              IsEstablished server.protocol_id from r.priv c sent.0)
            (sym (at_slot server.connections s slot sent.1 same))
            (send_accepted-IsEstablished (server.connections s) from r.priv s server.max_clients
              server.protocol_id (F.of_nat 0) now),
      )
    where
      at_slot :
          (f : Array (ServerConnection F.Carrier)) (s slot : ℕ) (c : ServerConnection F.Carrier)
          → s ≡ slot
          → update f s c slot ≡ c
      at_slot f s slot c same = ground (arith, same)

  -- What holds of a request that is let in.
  abbrev pub IsAdmitted :
      ServerState F.Carrier → Address → Option OpenedRequest → ℕ → Answer F.Carrier → Type 0
  IsAdmitted server from o slot a =
      (r : OpenedRequest) × ((o ≡ some r)
        × ((is_connected server.connections r.priv.client_id server.max_clients ≡ false)
            × ((is_replayed
                    (find fingerprint_keys server.fingerprint_map
                      (fingerprint_key F cipher blake2b aead server r))
                    from
                  ≡ false)
                × IsIn server from r slot a)))

  admit-IsIn :
      (server : ServerState F.Carrier) (from : Address) (now : F.Carrier) (slot : ℕ)
      (o : Option OpenedRequest)
      → (admit F cipher blake2b aead server from now o).slot ≡ some slot
      → IsAdmitted server from o slot (admit F cipher blake2b aead server from now o)
  unfolding admit with_fingerprint
  admit-IsIn server from now slot none e = ground (arith, e)
  admit-IsIn server from now slot (some r) e =
      if-elim
        (λ (a : Answer F.Carrier). a.slot ≡ some slot → IsAdmitted server from (some r) slot a)
        (is_connected server.connections r.priv.client_id server.max_clients)
        (λ in_use e'. ground (arith, e'))
        (λ new.
          if-elim
            (λ (a : Answer F.Carrier). a.slot ≡ some slot → IsAdmitted server from (some r) slot a)
            (is_replayed
              (find fingerprint_keys server.fingerprint_map
                (fingerprint_key F cipher blake2b aead server r))
              from)
            (λ replayed e'. ground (arith, e'))
            (λ fresh e'. (
              r,
              (
                refl,
                (
                  new,
                  (
                    fresh,
                    connect_slot-IsIn (with_fingerprint F cipher blake2b aead server from r) from r
                        now slot (activate_slot server.slots) refl e',
                  ),
                ),
              ),
            )))
        e

  -- A request that gets a slot passed the handler's tests, in the handler's own terms; what they mean
  -- is in `Admitted`.
  pub server_handle_connection_request-IsIn :
      (server : ServerState F.Carrier) (from : Address) (packet : Bytes) (now_ts : ℕ)
      (now : F.Carrier) (slot : ℕ)
      → let a =
          server_handle_connection_request F cipher blake2b aead server from packet now_ts now in
        a.slot ≡ some slot
        → IsAdmitted server from
            (open_request cipher server.protocol_id server.private_key now_ts packet)
            slot
            a
  unfolding server_handle_connection_request
  server_handle_connection_request-IsIn server from packet now_ts now slot e =
      admit-IsIn server from now slot
        (open_request cipher server.protocol_id server.private_key now_ts packet) e
