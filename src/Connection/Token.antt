-- ===== src/Connection/Token.antt =====
-- src/connection/connect_token.h and src/connection/connect_token.cpp: the private part of a connect
-- token. A buffer is its list of bytes; keys are lists of 32 bytes, the user data of 256.
pub mod Addresses
pub mod RoundTrip
pub mod Validation
pub mod Parts
pub mod Request
pub mod Issued
pub mod Accepted
pub mod Tests
use netudp.Base.{
  ℕ, zero, suc, ◌+◌, ◌-◌, ◌==◌, ltb, Bool, true, false, if◌then◌else◌, Array, update, Option, some,
  none, List, [], ◌∷◌, ◌++◌,
}
use netudp.Base.Bytes.{bytes_le, read_le}
use netudp.Base.Lists.{length, take, drop, replicate}
use netudp.Core.Address.{Address, address_ipv4, address_ipv6, address_zero}

abbrev pub Bytes : Type 0
Bytes = List ℕ

abbrev pub token_private_size : ℕ
token_private_size = 1008

abbrev pub max_servers_per_token : ℕ
max_servers_per_token = 32

pub record PrivateConnectToken : Type 0 where
  pub client_id : ℕ
  pub timeout_seconds : ℕ
  pub num_server_addresses : ℕ
  pub server_addresses : Array Address
  pub client_to_server_key : Bytes
  pub server_to_client_key : Bytes
  pub user_data : Bytes

unfoldable pub write_address_to_token : Address → Bytes
write_address_to_token addr =
    (addr.addr_type
      ∷ (if addr.addr_type == address_ipv4
          then take 4 addr.bytes
          else if addr.addr_type == address_ipv6
          then take 16 addr.bytes
          else []))
    ++ bytes_le 2 addr.port

-- `n` bytes of the address and the port behind its type `t`.
unfoldable pub read_typed : ℕ → ℕ → Bytes → Option (Address × ℕ)
read_typed t n bs =
    if ltb (1 + length bs) (1 + n + 2)
    then none
    else some (
      record {
        bytes = take n bs ++ replicate (16 - n) 0;
        port = read_le 2 (drop n bs);
        addr_type = t;
      },
      1 + n + 2,
    )

-- The address and the number of bytes that it took.
unfoldable pub read_address : Bytes → Option (Address × ℕ)
read_address [] = none
read_address (t ∷ bs) =
    if t == address_ipv4
    then read_typed t 4 bs
    else if t == address_ipv6
    then read_typed t 16 bs
    else none

-- The loop from address `i` on, `n` of them.
unfoldable pub write_addresses : Array Address → ℕ → ℕ → Bytes
write_addresses addresses i zero = []
write_addresses addresses i (suc n) =
    write_address_to_token (addresses i) ++ write_addresses addresses (i + 1) n

unfoldable pub private_data : PrivateConnectToken → Bytes
private_data token =
    bytes_le 8 token.client_id
    ++ (bytes_le 4 token.timeout_seconds
        ++ (bytes_le 4 token.num_server_addresses
            ++ (write_addresses token.server_addresses 0 token.num_server_addresses
                ++ (token.client_to_server_key
                    ++ (token.server_to_client_key ++ token.user_data)))))

-- The buffer and the number of bytes written. What a failing call has written behind the buffer is not
-- modelled.
unfoldable pub serialize_private_token : PrivateConnectToken → ℕ → Option (Bytes × ℕ)
serialize_private_token token buf_size =
    let written = length (private_data token) in
    if ltb buf_size token_private_size
    then none
    else if ltb token_private_size written
    then none
    else some (private_data token ++ replicate (buf_size - written) 0, written)

-- An address goes to its place, and reading goes on behind it.
unfoldable pub read_on :
    (Array Address → Bytes → Option (Array Address × Bytes))
    → Array Address
    → ℕ
    → Bytes
    → Option (Address × ℕ)
    → Option (Array Address × Bytes)
read_on others addresses i bs none = none
read_on others addresses i bs (some (addr, k)) = others (update addresses i addr) (drop k bs)

-- The loop from address `i` on, `n` of them; the bytes that are left come with the result.
unfoldable pub read_addresses : ℕ → ℕ → Array Address → Bytes → Option (Array Address × Bytes)
read_addresses i zero addresses bs = some (addresses, bs)
read_addresses i (suc n) addresses bs =
    read_on (read_addresses (i + 1) n) addresses i bs (read_address bs)

unfoldable pub private_token :
    Bytes → ℕ → Option (Array Address × Bytes) → Option PrivateConnectToken
private_token buf num none = none
private_token buf num (some (addresses, bs)) = some (record {
  client_id = read_le 8 buf;
  timeout_seconds = read_le 4 (drop 8 buf);
  num_server_addresses = num;
  server_addresses = addresses;
  client_to_server_key = take 32 bs;
  server_to_client_key = take 32 (drop 32 bs);
  user_data = take 256 (drop 64 bs);
})

unfoldable pub deserialize_private_token : Bytes → Option PrivateConnectToken
deserialize_private_token buf =
    let num = read_le 4 (drop 12 buf) in
    if ltb (length buf) token_private_size
    then none
    else if num == 0
    then none
    else if ltb max_servers_per_token num
    then none
    else private_token buf num (read_addresses 0 num (λ i. address_zero) (drop 16 buf))
