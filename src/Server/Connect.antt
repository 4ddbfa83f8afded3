-- ===== src/Server/Connect.antt =====
-- src/server.cpp, `server_handle_connection_request`, with the parts of src/connection/connection.h that it
-- sets. The vendored cipher, the key hash and the AEAD of packets are parameters.
-- Of a connection, the channels, the statistics and the bandwidth control, which
-- `init_subsystems` makes anew, and the cached socket address are left out; so are the callback and
-- the log.
pub mod Established
pub mod Admitted
pub mod Again
mod Tests
use netudp.Base.{
  ℕ, zero, suc, ◌+◌, ◌==◌, leb, Bool, true, false, not, ◌&&◌, if◌then◌else◌, Array, update, Option,
  some, none, List, [], ◌∷◌, ◌++◌,
}
use netudp.Base.Bytes.{bytes_le, read_le}
use netudp.Base.Float64.{Float64}
use netudp.Base.Lists.{length, take, drop, eq_list}
use netudp.Connection.Token.{Bytes, PrivateConnectToken, deserialize_private_token}
use netudp.Connection.Token.Validation.{compute_token_fingerprint}
use netudp.Core.Address.{Address, address_zero, address_equal}
use netudp.Core.HashMap.{FixedHashMap, Keys, fnv1a_hash, insert, find}
use netudp.Crypto.Epoch.{Aead, KeyEpoch, version_info, packet_encrypt}
use netudp.Crypto.Replay
use netudp.Crypto.Xchacha.{Cipher, xchacha_decrypt}
use netudp.Reliability.Tracker
use netudp.Reliability.Tracker.{PacketTracker, build_ack_fields, write_ack_fields, send_packet}
use netudp.Server.Slots.{SlotTable, activate_slot}

pub record FingerprintValue : Type 0 where
  pub address : Address
  pub expire_time : ℕ

-- `T` is the type of times.
pub record ServerConnection (T : Type 0) : Type 0 where
  pub active : Bool
  pub address : Address
  pub slot_id : ℕ
  pub client_id : ℕ
  pub user_data : Bytes
  pub key_epoch : KeyEpoch T
  pub packet_tracker : PacketTracker T
  pub timeout_seconds : ℕ
  pub connect_time : T
  pub last_recv_time : T
  pub last_send_time : T
  pub last_keepalive_time : T

pub record ServerState (T : Type 0) : Type 0 where
  pub protocol_id : ℕ
  pub private_key : Bytes
  pub max_clients : ℕ
  pub connections : Array (ServerConnection T)
  pub slots : SlotTable
  pub fingerprint_map : FixedHashMap ℕ FingerprintValue
  pub address_to_slot : FixedHashMap Address ℕ

-- What a request shows before anything is looked up: the time of its expiry, the private part as it
-- was sent, and this part opened and read.
pub record OpenedRequest : Type 0 where
  pub expire_ts : ℕ
  pub encrypted_private : Bytes
  pub priv : PrivateConnectToken

abbrev pub keepalive_prefix : ℕ
keepalive_prefix = 0x15

-- The bytes of a `netudp_address_t`.
unfoldable pub address_bytes : Address → Bytes
address_bytes a = a.bytes ++ (bytes_le 2 a.port ++ (a.addr_type ∷ 0 ∷ []))

unfoldable pub fingerprint_keys : Keys ℕ FingerprintValue
fingerprint_keys = record {
  same = ◌==◌;
  hash = λ key. fnv1a_hash (bytes_le 8 key);
  capacity = 2048;
  no_key = 0;
  no_value = record { address = address_zero; expire_time = 0 };
}

unfoldable pub address_keys : Keys Address ℕ
address_keys = record {
  same = λ a b. eq_list (address_bytes a) (address_bytes b);
  hash = λ a. fnv1a_hash (address_bytes a);
  capacity = 4096;
  no_key = address_zero;
  no_value = 0;
}

-- Whether one of the first `n` connections is active with this id.
unfoldable pub is_connected : {T : Type 0} → Array (ServerConnection T) → ℕ → ℕ → Bool
is_connected connections client_id zero = false
is_connected connections client_id (suc n) =
    let before = is_connected connections client_id n in
    if (connections n).active && ((connections n).client_id == client_id) then true else before

unfoldable pub opened_request : ℕ → Bytes → Option PrivateConnectToken → Option OpenedRequest
opened_request expire_ts encrypted none = none
opened_request expire_ts encrypted (some priv) =
    some (record { expire_ts = expire_ts; encrypted_private = encrypted; priv = priv })

unfoldable pub read_opened : ℕ → Bytes → Option Bytes → Option OpenedRequest
read_opened expire_ts encrypted none = none
read_opened expire_ts encrypted (some pt) =
    opened_request expire_ts encrypted (deserialize_private_token pt)

-- From the length of the packet to the reading of the private part.
unfoldable pub open_request : Cipher → ℕ → Bytes → ℕ → Bytes → Option OpenedRequest
open_request cipher protocol_id private_key now_ts packet =
    let expire_ts = read_le 8 (drop 22 packet) in
    let aad = take 13 (drop 1 packet) ++ (take 8 (drop 14 packet) ++ take 8 (drop 22 packet)) in
    let encrypted = take 1024 (drop 54 packet) in
    let pt = xchacha_decrypt cipher private_key (take 24 (drop 30 packet)) aad encrypted in
    if not (length packet == 1078)
    then none
    else if not (eq_list (take 13 (drop 1 packet)) version_info)
    then none
    else if not (read_le 8 (drop 14 packet) == protocol_id)
    then none
    else if leb expire_ts now_ts
    then none
    else read_opened expire_ts encrypted pt

-- The token was used from another address.
unfoldable pub is_replayed : Option FingerprintValue → Address → Bool
is_replayed none from = false
is_replayed (some existing) from = not (address_equal existing.address from)

unfoldable pub put : {K V : Type 0} → Keys K V → FixedHashMap K V → K → V → FixedHashMap K V
put keys m key value = elim (insert keys m key value) [ none ↦ m | some m' ↦ m' ]

module _ {T : Type 0} where
  -- The epoch of a new connection: what the slot's last connection left, with the token's keys.
  unfoldable pub first_epoch : KeyEpoch T → PrivateConnectToken → KeyEpoch T
  first_epoch epoch priv = record epoch {
    tx_key = priv.server_to_client_key;
    rx_key = priv.client_to_server_key;
    tx_nonce_counter = 0;
    replay = Replay.reset;
  }

  unfoldable pub established :
      T → ServerConnection T → Address → ℕ → PrivateConnectToken → T → ServerConnection T
  established zero_time conn from slot priv now = record conn {
    active = true;
    address = from;
    slot_id = slot;
    client_id = priv.client_id;
    user_data = priv.user_data;
    key_epoch = first_epoch conn.key_epoch priv;
    packet_tracker = Tracker.reset zero_time;
    timeout_seconds = priv.timeout_seconds;
    connect_time = now;
    last_recv_time = now;
    last_send_time = now;
    last_keepalive_time = now;
  }

-- The prefix in front of what was sealed, if anything was.
abbrev pub accepted_packet : Option Bytes → Option Bytes
accepted_packet none = none
accepted_packet (some sealed) = some (keepalive_prefix ∷ sealed)

module _ (F : Float64) (aead : Aead) where
  open F use {Carrier, of_nat}

  unfoldable pub accepted_payload : ServerConnection Carrier → ℕ → ℕ → Carrier → Bytes
  accepted_payload conn slot max_clients now =
      bytes_le 2 slot
      ++ (bytes_le 4 max_clients ++ write_ack_fields (build_ack_fields F conn.packet_tracker now))

  -- The keepalive that tells the client its slot, if it is sealed, and the connection after it.
  unfoldable pub send_accepted :
      ServerConnection Carrier → ℕ → ℕ → ℕ → Carrier → Option Bytes × ServerConnection Carrier
  send_accepted conn slot max_clients protocol_id now =
      let (ct, epoch) =
        packet_encrypt aead protocol_id conn.key_epoch keepalive_prefix
          (accepted_payload conn slot max_clients now) in
      (
        accepted_packet ct,
        record conn { packet_tracker = (send_packet conn.packet_tracker now).1; key_epoch = epoch },
      )

-- What a request does to the server, and the slot and the packet that it gets.
pub record Answer (T : Type 0) : Type 0 where
  pub server : ServerState T
  pub slot : Option ℕ
  pub packet : Option Bytes

abbrev pub refusal : {T : Type 0} → ServerState T → Answer T
refusal server = record { server = server; slot = none; packet = none }

module _ (F : Float64) (cipher : Cipher) (blake2b : Bytes → Bytes → Bytes) (aead : Aead) where
  open F use {Carrier, of_nat}

  unfoldable pub connect_slot :
      ServerState Carrier
      → Address
      → PrivateConnectToken
      → Carrier
      → Option (ℕ × SlotTable)
      → Answer Carrier
  connect_slot server from priv now none = refusal server
  connect_slot server from priv now (some (slot, slots)) =
      let (packet, conn) =
        send_accepted F aead (established (of_nat 0) (server.connections slot) from slot priv now)
          slot server.max_clients server.protocol_id now in
      record {
        server = record server {
          slots = slots;
          address_to_slot = put address_keys server.address_to_slot from slot;
          connections = update server.connections slot conn;
        };
        slot = some slot;
        packet = packet;
      }

  unfoldable pub fingerprint_key : ServerState Carrier → OpenedRequest → ℕ
  fingerprint_key server r =
      read_le 8 (compute_token_fingerprint blake2b server.private_key r.encrypted_private)

  unfoldable pub with_fingerprint :
      ServerState Carrier → Address → OpenedRequest → ServerState Carrier
  with_fingerprint server from r = record server {
    fingerprint_map =
        put fingerprint_keys server.fingerprint_map (fingerprint_key server r)
          (record { address = from; expire_time = r.expire_ts });
  }

  unfoldable pub admit :
      ServerState Carrier → Address → Carrier → Option OpenedRequest → Answer Carrier
  admit server from now none = refusal server
  admit server from now (some r) =
      let existing = find fingerprint_keys server.fingerprint_map (fingerprint_key server r) in
      if is_connected server.connections r.priv.client_id server.max_clients
      then refusal server
      else if is_replayed existing from
      then refusal server
      else connect_slot (with_fingerprint server from r) from r.priv now
          (activate_slot server.slots)

  -- `now_ts` is `current_time` as an integer.
  unfoldable pub server_handle_connection_request :
      ServerState Carrier → Address → Bytes → ℕ → Carrier → Answer Carrier
  server_handle_connection_request server from packet now_ts now =
      admit server from now
        (open_request cipher server.protocol_id server.private_key now_ts packet)
