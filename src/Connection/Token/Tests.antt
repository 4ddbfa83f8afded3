-- ===== src/Connection/Token/Tests.antt =====
-- Runs of src/connection/connect_token.cpp and src/api.cpp with a cipher that leaves the text as it is.
use netudp.Base.{ℕ, zero, suc, ◌≤◌, ◌<◌, ◌≡◌, refl, true, some, none, [], ◌∷◌, inl, arith}
use netudp.Base.Lists.{length, take, drop, replicate, get_or}
use netudp.Base.Bytes.{read_le}
use netudp.Core.Address.{Address, address_zero}
use netudp.Crypto.Epoch.{version_info}
use netudp.Crypto.Xchacha.{Cipher, IsCipher, xchacha}
use netudp.Connection.Token.{
  Bytes, PrivateConnectToken, private_data, serialize_private_token, deserialize_private_token,
}
use netudp.Connection.Token.Addresses.{IsAddress}
use netudp.Connection.Token.RoundTrip.{IsToken, deserialize-serialize_private_token}
use netudp.Connection.Token.Validation.{
  accepted, Drawn, is_listed, user_bytes, new_private, generate_connect_token,
  validate_connect_token,
}
use netudp.Connection.Token.Issued.{validate-generate_connect_token}
use netudp.Connection.Token.Request.{all_some, IsRequest}
use netudp.Connection.Token.Accepted.{opened_part, validate_connect_token-accepted}

abbrev pub plain_cipher : Cipher
plain_cipher = record {
  lock = λ key nonce aad pt. (pt, replicate 16 0);
  unlock = λ mac key nonce aad ct. some ct;
}

plain_cipher-IsCipher : IsCipher plain_cipher
plain_cipher-IsCipher = record {
  ct_size = λ key nonce aad pt. refl;
  tag_size = λ key nonce aad pt. refl;
  unlocks = λ key nonce aad pt. refl;
}

-- 127.0.0.1:40000
abbrev pub home : Address
home = record { bytes = 127 ∷ 0 ∷ 0 ∷ 1 ∷ replicate 12 0; port = 40000; addr_type = 1 }

abbrev drawn : Drawn
drawn = record { client_key = replicate 32 1; server_key = replicate 32 2; nonce = replicate 24 3 }

drawn-IsRequest : IsRequest drawn (home ∷ []) 10 7 none
unfolding user_bytes
drawn-IsRequest = record {
  drawn_client = refl;
  drawn_server = refl;
  drawn_nonce = refl;
  timeout_word = omega arith;
  client_word = omega arith;
  user_size = refl;
  some_address = omega arith;
  few_addresses = omega arith;
  all_addresses = ((omega arith, (127 ∷ 0 ∷ 0 ∷ 1 ∷ [], inl (refl, (refl, refl)))), tt);
}

validate-generate_connect_token_example :
    (token : Bytes) × ((generate_connect_token
          (xchacha plain_cipher)
          drawn
          1000
          (all_some (home ∷ []))
          60
          10
          7
          99
          (replicate 32 5)
          none
        ≡ accepted token)
      × (validate_connect_token (xchacha plain_cipher) token 99 (replicate 32 5) 1059 (some home)
          ≡ accepted (new_private drawn 10 7 none (home ∷ []))))
validate-generate_connect_token_example =
    validate-generate_connect_token plain_cipher drawn (home ∷ []) 1000 60 10 7 99 (replicate 32 5)
      none 1059 0 plain_cipher-IsCipher drawn-IsRequest (omega arith) (omega arith) (omega arith)
      (omega arith)

abbrev pub issued : PrivateConnectToken
issued = record {
  client_id = 7;
  timeout_seconds = 10;
  num_server_addresses = 1;
  server_addresses = λ i. get_or (home ∷ []) i address_zero;
  client_to_server_key = replicate 32 1;
  server_to_client_key = replicate 32 2;
  user_data = replicate 256 0;
}

issued-IsToken : IsToken issued
issued-IsToken = record {
  client_id = omega arith;
  timeout_seconds = omega arith;
  some_addresses = omega arith;
  few_addresses = omega arith;
  addresses = λ i lt. is_home i lt;
  no_more = λ i le. none_after i le;
  client_key = refl;
  server_key = refl;
  user = refl;
}
  where
    is_home : (i : ℕ) → i < 1 → IsAddress (get_or (home ∷ []) i address_zero)
    is_home zero lt = (omega arith, (127 ∷ 0 ∷ 0 ∷ 1 ∷ [], inl (refl, (refl, refl))))
    is_home (suc i) lt = absurd (omega (arith, lt))

    none_after : (i : ℕ) → 1 ≤ i → get_or (home ∷ []) i address_zero ≡ address_zero
    none_after zero le = absurd (omega (arith, le))
    none_after (suc i) le = refl

deserialize-serialize_private_token_example :
    (buf : Bytes) × ((serialize_private_token issued 1008
        ≡ some (buf, length (private_data issued)))
      × ((length buf ≡ 1008) × (deserialize_private_token buf ≡ some issued)))
deserialize-serialize_private_token_example =
    deserialize-serialize_private_token issued 1008 issued-IsToken (omega arith)

-- The token of the run above.
run :
    (token : Bytes) × ((generate_connect_token
          (xchacha plain_cipher)
          drawn
          1000
          (all_some (home ∷ []))
          60
          10
          7
          99
          (replicate 32 5)
          none
        ≡ accepted token)
      × (validate_connect_token (xchacha plain_cipher) token 99 (replicate 32 5) 1059 (some home)
          ≡ accepted (new_private drawn 10 7 none (home ∷ []))))
run =
    validate-generate_connect_token plain_cipher drawn (home ∷ []) 1000 60 10 7 99 (replicate 32 5)
      none 1059 0 plain_cipher-IsCipher drawn-IsRequest (omega arith) (omega arith) (omega arith)
      (omega arith)

validate_connect_token-accepted_example :
    (take 13 run.0 ≡ version_info)
    × ((read_le 8 (drop 13 run.0) ≡ 99)
        × ((1059 < read_le 8 (drop 29 run.0))
            × ((pt : Bytes) × ((opened_part (xchacha plain_cipher) (replicate 32 5) run.0 ≡ some pt)
                  × ((deserialize_private_token pt ≡ some (new_private drawn 10 7 none (home ∷ [])))
                      × (is_listed (some home) (new_private drawn 10 7 none (home ∷ []))
                          ≡ true))))))
validate_connect_token-accepted_example =
    validate_connect_token-accepted (xchacha plain_cipher) run.0 99 (replicate 32 5) 1059
      (some home) (new_private drawn 10 7 none (home ∷ [])) run.1.1
