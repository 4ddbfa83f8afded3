-- ===== src/Connection/Token/Request.antt =====
-- src/api.cpp: the private data of a token that is asked for.
use netudp.Base.{ℕ, zero, suc, ◌≤◌, ◌<◌, ◌≡◌, refl, ap, Option, some, List, [], ◌∷◌, arith}
use netudp.Base.Lists.{length, get_or, All}
use netudp.Base.Words.{u32_mod, u64_mod}
use netudp.Core.Address.{Address, address_zero}
use netudp.Connection.Token.{Bytes, max_servers_per_token}
use netudp.Connection.Token.Addresses.{IsAddress}
use netudp.Connection.Token.RoundTrip.{IsToken}
use netudp.Connection.Token.Validation.{Drawn, all_parsed, user_bytes, new_private}

-- Where the parser has given addresses.
abbrev pub all_some : List Address → List (Option Address)
all_some [] = []
all_some (a ∷ others) = some a ∷ all_some others

pub all_parsed-all_some :
    (addresses : List Address) → all_parsed (all_some addresses) ≡ some addresses
unfolding all_parsed
all_parsed-all_some [] = refl
all_parsed-all_some (a ∷ others) = rw (all_parsed-all_some others) refl

pub length-all_some : (addresses : List Address) → length (all_some addresses) ≡ length addresses
length-all_some [] = refl
length-all_some (a ∷ others) = ap suc (length-all_some others)

get_or-All :
    (P : Address → Type 0) (addresses : List Address) (i : ℕ)
    → All P addresses
    → i < length addresses
    → P (get_or addresses i address_zero)
get_or-All P [] i h lt = absurd (omega (arith, lt))
get_or-All P (a ∷ others) zero h lt = h.0
get_or-All P (a ∷ others) (suc i) h lt = get_or-All P others i h.1 (omega (arith, lt))

get_or-past :
    (addresses : List Address) (i : ℕ)
    → length addresses ≤ i
    → get_or addresses i address_zero ≡ address_zero
get_or-past [] i h = refl
get_or-past (a ∷ others) zero h = absurd (omega (arith, h))
get_or-past (a ∷ others) (suc i) h = get_or-past others i (omega (arith, h))

-- What is asked for is in the bounds of the format.
pub record IsRequest (drawn : Drawn) (addresses : List Address) (timeout_seconds client_id : ℕ)
    (user_data : Option Bytes) : Type 0 where
  pub drawn_client : length drawn.client_key ≡ 32
  pub drawn_server : length drawn.server_key ≡ 32
  pub drawn_nonce : length drawn.nonce ≡ 24
  pub timeout_word : timeout_seconds < u32_mod
  pub client_word : client_id < u64_mod
  pub user_size : length (user_bytes user_data) ≡ 256
  pub some_address : 0 < length addresses
  pub few_addresses : length addresses ≤ max_servers_per_token
  pub all_addresses : All IsAddress addresses

pub new_private-IsToken :
    (drawn : Drawn) (addresses : List Address) (timeout_seconds client_id : ℕ)
    (user_data : Option Bytes)
    → IsRequest drawn addresses timeout_seconds client_id user_data
    → IsToken (new_private drawn timeout_seconds client_id user_data addresses)
unfolding new_private
new_private-IsToken drawn addresses timeout_seconds client_id user_data h = record {
  client_id = h.client_word;
  timeout_seconds = h.timeout_word;
  some_addresses = h.some_address;
  few_addresses = h.few_addresses;
  addresses = λ i lt. get_or-All IsAddress addresses i h.all_addresses lt;
  no_more = λ i le. get_or-past addresses i le;
  client_key = h.drawn_client;
  server_key = h.drawn_server;
  user = h.user_size;
}
