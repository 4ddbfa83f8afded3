-- ===== src/Server/Connect/Tests.antt =====
-- Runs of `server_handle_connection_request` of src/server.cpp with toy ciphers.
use netudp.Base.{ℕ, ◌-◌, ◌<◌, ◌≡◌, ◌≢◌, refl, true, false, update, some, none, [], ◌∷◌, ◌++◌}
use netudp.Base.Bytes.{bytes_le, read_le}
use netudp.Base.Float64.{whole_numbers}
use netudp.Base.Lists.{length, replicate, eq_list, take, drop}
use netudp.Core.Address.{address_zero, address_equal, address_data_len}
use netudp.Core.HashMap.{
  find, find_slot, find_from, value_at, insert, insert_from, occupy, slot_at, start_slot, fnv1a,
  fnv1a_hash,
}
use netudp.Crypto.Epoch.{Bytes, build_nonce, build_aad, version_info}
use netudp.Crypto.Epoch.NonceTag.{nonce_tag}
use netudp.Crypto.Replay
use netudp.Crypto.Xchacha.{xchacha_decrypt}
use netudp.Reliability.Tracker
use netudp.Connection.Token.{
  private_data, write_addresses, write_address_to_token, deserialize_private_token, read_address,
  read_typed, read_on, read_addresses, private_token, PrivateConnectToken,
}
use netudp.Connection.Token.Tests.{plain_cipher, home, issued}
use netudp.Connection.Token.Validation.{compute_token_fingerprint}
use netudp.Server.Slots.{first_table, activate_slot, server_deactivate_slot, deactivate_at}
use netudp.Server.Connect.{
  ServerConnection, ServerState, FingerprintValue, Answer, keepalive_prefix, accepted_packet,
  is_connected, is_replayed, opened_request, read_opened, open_request, connect_slot, admit,
  server_handle_connection_request, fingerprint_keys, fingerprint_key, with_fingerprint, put,
}
use netudp.Server.Connect.Admitted.{server_handle_connection_request-Admits}
use netudp.Server.Connect.Again.{server_handle_connection_request_again}

abbrev idle : ServerConnection ℕ
idle = record {
  active = false;
  address = address_zero;
  slot_id = 0xffff;
  client_id = 0;
  user_data = [];
  key_epoch = record {
    tx_key = [];
    rx_key = [];
    old_rx_key = [];
    tx_nonce_counter = 0;
    bytes_transmitted = 0;
    epoch_start_time = 0;
    epoch_number = 0;
    grace_packets_remaining = 0;
    rekey_pending = false;
    replay = Replay.reset;
  };
  packet_tracker = Tracker.reset 0;
  timeout_seconds = 10;
  connect_time = 0;
  last_recv_time = 0;
  last_send_time = 0;
  last_keepalive_time = 0;
}

abbrev new_server : ServerState ℕ
new_server = record {
  protocol_id = 99;
  private_key = replicate 32 5;
  max_clients = 2;
  connections = λ i. idle;
  slots =
      first_table 2
        (λ g. record {
          active = false;
          group_id = none;
          members = λ i. 0;
          member_count = 0;
          member_capacity = 0;
          slot_to_pos = none;
        })
        0;
  fingerprint_map = record {
    slots = λ i. record {
      key = 0;
      value = record { address = address_zero; expire_time = 0 };
      occupied = false;
    };
    size = 0;
  };
  address_to_slot = record {
    slots = λ i. record { key = address_zero; value = 0; occupied = false };
    size = 0;
  };
}

-- The token that expires at 1060, without the time of its creation.
abbrev request : Bytes
request =
    (0 ∷ version_info)
    ++ (bytes_le 8 99
        ++ (bytes_le 8 1060
            ++ (replicate 24 3 ++ ((private_data issued ++ replicate 665 0) ++ replicate 16 0))))

abbrev handled : Answer ℕ
handled =
    server_handle_connection_request whole_numbers plain_cipher (λ key text. text) nonce_tag
      new_server home request 1059 1059

request_size : length request ≡ 1078
unfolding private_data write_addresses write_address_to_token bytes_le
request_size = refl

handled_slot : handled.slot ≡ some 0
unfolding server_handle_connection_request open_request read_opened opened_request xchacha_decrypt
    deserialize_private_token read_addresses read_on read_address read_typed private_token
    private_data write_addresses write_address_to_token bytes_le read_le eq_list admit is_connected
    is_replayed find find_slot find_from value_at fingerprint_keys connect_slot activate_slot
    first_table with_fingerprint
handled_slot = refl

server_handle_connection_request-Admits_example :
    let encrypted = take 1024 (drop 54 request) in
    let aad = take 13 (drop 1 request) ++ (take 8 (drop 14 request) ++ take 8 (drop 22 request)) in
    (pt : Bytes) × (priv : PrivateConnectToken) × (payload : Bytes) × (length request ≡ 1078)
    × (take 13 (drop 1 request) ≡ version_info)
    × (read_le 8 (drop 14 request) ≡ 99)
    × (1059 < read_le 8 (drop 22 request))
    × (xchacha_decrypt plain_cipher (replicate 32 5) (take 24 (drop 30 request)) aad encrypted
        ≡ some pt)
    × (deserialize_private_token pt ≡ some priv)
    × ((j : ℕ)
        → j < 2
        → (new_server.connections j).active ≡ true
        → (new_server.connections j).client_id ≢ priv.client_id)
    × ((v : FingerprintValue)
        → find fingerprint_keys new_server.fingerprint_map
            (read_le 8 (compute_token_fingerprint (λ key text. text) (replicate 32 5) encrypted))
          ≡ some v
        → address_equal v.address home ≡ true)
    × (0 < new_server.slots.free_count)
    × (new_server.slots.free_slots (new_server.slots.free_count - 1) ≡ 0)
    × ((handled.server.connections 0).active ≡ true)
    × ((handled.server.connections 0).address ≡ home)
    × ((handled.server.connections 0).client_id ≡ priv.client_id)
    × ((handled.server.connections 0).key_epoch.tx_key ≡ priv.server_to_client_key)
    × ((handled.server.connections 0).key_epoch.rx_key ≡ priv.client_to_server_key)
    × (handled.packet
        ≡ accepted_packet (
            nonce_tag.encrypt priv.server_to_client_key
              (build_nonce 0)
              (build_aad 99 keepalive_prefix)
              payload))
server_handle_connection_request-Admits_example =
    server_handle_connection_request-Admits whole_numbers plain_cipher (λ key text. text) nonce_tag
      new_server home request 1059 1059 0 handled_slot

-- The client has left, and asks again with the same token.
abbrev after_leaving : ServerState ℕ
after_leaving = record handled.server {
  slots = server_deactivate_slot handled.server.slots 0;
  connections = update handled.server.connections 0 idle;
}

abbrev handled_again : Answer ℕ
handled_again =
    server_handle_connection_request whole_numbers plain_cipher (λ key text. text) nonce_tag
      after_leaving home request 1059 1059

same_server :
    (after_leaving.protocol_id ≡ new_server.protocol_id)
    × (after_leaving.private_key ≡ new_server.private_key)
unfolding server_handle_connection_request open_request read_opened opened_request xchacha_decrypt
    deserialize_private_token read_addresses read_on read_address read_typed private_token
    private_data write_addresses write_address_to_token bytes_le read_le eq_list admit is_connected
    is_replayed find find_slot find_from value_at fingerprint_keys connect_slot activate_slot
    first_table with_fingerprint
same_server = (refl, refl)

handled_again_slot : handled_again.slot ≡ some 0
unfolding server_handle_connection_request open_request read_opened opened_request xchacha_decrypt
    deserialize_private_token read_addresses read_on read_address read_typed private_token
    private_data write_addresses write_address_to_token bytes_le read_le eq_list admit is_connected
    is_replayed find find_slot find_from value_at fingerprint_keys connect_slot activate_slot
    first_table with_fingerprint fingerprint_key compute_token_fingerprint put insert insert_from
    occupy slot_at start_slot fnv1a_hash fnv1a address_equal address_data_len server_deactivate_slot
    deactivate_at
handled_again_slot = refl

server_handle_connection_request_again_example :
    (key payload payload' : Bytes) × ((handled.packet
        ≡ accepted_packet
            (nonce_tag.encrypt key (build_nonce 0) (build_aad 99 keepalive_prefix) payload))
      × (handled_again.packet
          ≡ accepted_packet
              (nonce_tag.encrypt key (build_nonce 0) (build_aad 99 keepalive_prefix) payload')))
server_handle_connection_request_again_example =
    server_handle_connection_request_again whole_numbers plain_cipher (λ key text. text) nonce_tag
      new_server after_leaving home home request 1059 1059 1059 1059 0 0 same_server.0 same_server.1
      handled_slot handled_again_slot
