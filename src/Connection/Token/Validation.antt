-- ===== src/Connection/Token/Validation.antt =====
-- src/connection/connect_token.cpp, `validate_connect_token` and `compute_token_fingerprint`, and
-- `netudp_generate_connect_token` of src/api.cpp. Results of the random generator, the clock and
-- `netudp_parse_address` are arguments.
use netudp.Base.{
  ℕ, zero, suc, ◌+◌, ◌-◌, ◌%◌, ◌==◌, ltb, leb, Bool, true, false, not, if◌then◌else◌, Array, Option,
  some, none, List, [], ◌∷◌, ◌++◌,
}
use netudp.Base.Bytes.{bytes_le, read_le}
use netudp.Base.Lists.{length, take, drop, replicate, get_or, eq_list}
use netudp.Base.Words.{u64_mod}
use netudp.Core.Address.{Address, address_zero, address_equal}
use netudp.Crypto.Epoch.{Aead, version_info}
use netudp.Connection.Token.{
  Bytes, PrivateConnectToken, token_private_size, max_servers_per_token, write_addresses,
  serialize_private_token, deserialize_private_token,
}

pub data Refusal : Type 0 where
  invalid_param timeout crypto : Refusal

pub data Outcome (A : Type 0) : Type 0 where
  accepted : A → Outcome A
  refused : Refusal → Outcome A

-- Whether one of the `n` addresses from `i` on is the given one.
unfoldable pub found_from : Array Address → Address → ℕ → ℕ → Bool
found_from addresses address i zero = false
found_from addresses address i (suc n) =
    let later = found_from addresses address (i + 1) n in
    if address_equal address (addresses i) then true else later

unfoldable pub is_listed : Option Address → PrivateConnectToken → Bool
is_listed none token = true
is_listed (some address) token =
    found_from token.server_addresses address 0 token.num_server_addresses

unfoldable pub check_private :
    Option Address → Option PrivateConnectToken → Outcome PrivateConnectToken
check_private server_address none = refused invalid_param
check_private server_address (some token) =
    if is_listed server_address token then accepted token else refused invalid_param

unfoldable pub check_opened : Option Address → Option Bytes → Outcome PrivateConnectToken
check_opened server_address none = refused crypto
check_opened server_address (some pt) = check_private server_address (deserialize_private_token pt)

unfoldable pub validate_connect_token :
    Aead → Bytes → ℕ → Bytes → ℕ → Option Address → Outcome PrivateConnectToken
validate_connect_token aead token protocol_id private_key current_time server_address =
    let aad = take 13 token ++ (take 8 (drop 13 token) ++ take 8 (drop 29 token)) in
    let opened =
      aead.decrypt private_key (take 24 (drop 37 token)) aad (take 1024 (drop 61 token)) in
    if not (eq_list (take 13 token) version_info)
    then refused invalid_param
    else if not (read_le 8 (drop 13 token) == protocol_id)
    then refused invalid_param
    else if leb (read_le 8 (drop 29 token)) current_time
    then refused timeout
    else check_opened server_address opened

-- `crypto_blake2b_keyed` with 64 bytes is the parameter.
unfoldable pub compute_token_fingerprint : (Bytes → Bytes → Bytes) → Bytes → Bytes → Bytes
compute_token_fingerprint blake2b private_key encrypted = take 8 (blake2b private_key encrypted)

unfoldable pub all_parsed : List (Option Address) → Option (List Address)
all_parsed [] = some []
all_parsed (none ∷ parsed) = none
all_parsed (some a ∷ parsed) = elim (all_parsed parsed) [
  | none ↦ none
  | some others ↦ some (a ∷ others)
]

unfoldable pub user_bytes : Option Bytes → Bytes
user_bytes none = replicate 256 0
user_bytes (some bs) = bs

-- What is drawn for a token: the keys and the nonce.
pub record Drawn : Type 0 where
  pub client_key : Bytes
  pub server_key : Bytes
  pub nonce : Bytes

unfoldable pub new_private : Drawn → ℕ → ℕ → Option Bytes → List Address → PrivateConnectToken
new_private drawn timeout_seconds client_id user_data addresses = record {
  client_id = client_id;
  timeout_seconds = timeout_seconds;
  num_server_addresses = length addresses;
  server_addresses = λ i. get_or addresses i address_zero;
  client_to_server_key = drawn.client_key;
  server_to_client_key = drawn.server_key;
  user_data = user_bytes user_data;
}

-- The public bytes in front of the private part, and those behind it.
unfoldable pub public_head : ℕ → ℕ → ℕ → Bytes → Bytes
public_head protocol_id create_ts expire_ts nonce =
    version_info
    ++ (bytes_le 8 protocol_id ++ (bytes_le 8 create_ts ++ (bytes_le 8 expire_ts ++ nonce)))

unfoldable pub public_tail : PrivateConnectToken → Bytes
public_tail priv =
    bytes_le 4 priv.timeout_seconds
    ++ (bytes_le 4 priv.num_server_addresses
        ++ (write_addresses priv.server_addresses 0 priv.num_server_addresses
            ++ (priv.client_to_server_key ++ priv.server_to_client_key)))

-- The buffer of 2048 bytes is cleared first.
unfoldable pub filled_up : Bytes → Bytes
filled_up written = written ++ replicate (2048 - length written) 0

unfoldable pub issue_sealed : PrivateConnectToken → Bytes → Option Bytes → Outcome Bytes
issue_sealed priv head none = refused crypto
issue_sealed priv head (some sealed) = accepted (filled_up (head ++ (sealed ++ public_tail priv)))

unfoldable pub issue_serialized :
    Aead → ℕ → ℕ → ℕ → Bytes → Bytes → PrivateConnectToken → Option (Bytes × ℕ) → Outcome Bytes
issue_serialized aead protocol_id create_ts expire_ts private_key nonce priv none =
    refused invalid_param
issue_serialized aead protocol_id create_ts expire_ts private_key nonce priv (some (plain, n)) =
    issue_sealed priv (public_head protocol_id create_ts expire_ts nonce) (
      aead.encrypt private_key nonce
        (version_info ++ (bytes_le 8 protocol_id ++ bytes_le 8 expire_ts)) plain)

unfoldable pub issue_parsed :
    Aead → Drawn → ℕ → ℕ → ℕ → ℕ → ℕ → Bytes → Option Bytes → Option (List Address) → Outcome Bytes
issue_parsed aead drawn create_ts expire_seconds timeout_seconds client_id protocol_id private_key
      user_data none =
    refused invalid_param
issue_parsed aead drawn create_ts expire_seconds timeout_seconds client_id protocol_id private_key
      user_data (some addresses) =
    let priv = new_private drawn timeout_seconds client_id user_data addresses in
    issue_serialized aead protocol_id create_ts ((create_ts + expire_seconds) % u64_mod) private_key
      drawn.nonce priv (serialize_private_token priv token_private_size)

-- `expire_seconds` is the word that the cast makes of the `int`.
unfoldable pub generate_connect_token :
    Aead → Drawn → ℕ → List (Option Address) → ℕ → ℕ → ℕ → ℕ → Bytes → Option Bytes → Outcome Bytes
generate_connect_token aead drawn create_ts parsed expire_seconds timeout_seconds client_id
      protocol_id private_key user_data =
    if ltb (length parsed) 1
    then refused invalid_param
    else if ltb max_servers_per_token (length parsed)
    then refused invalid_param
    else issue_parsed aead drawn create_ts expire_seconds timeout_seconds client_id protocol_id
        private_key user_data (all_parsed parsed)
