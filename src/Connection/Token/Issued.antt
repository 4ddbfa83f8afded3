-- ===== src/Connection/Token/Issued.antt =====
-- src/connection/connect_token.cpp and src/api.cpp: what `netudp_generate_connect_token` issues is
-- accepted by `validate_connect_token`.
use netudp.Base.{
  ℕ, ◌+◌, ◌%◌, ◌≤◌, ◌<◌, ◌≡◌, ap, ◌∙◌, ltb, Bool, true, if◌then◌else◌, Option, some, List, ◌++◌,
  if-elim, arith,
}
use netudp.Base.Bytes.{bytes_le}
use netudp.Base.Lists.{length, get_or}
use netudp.Base.Words.{u64_mod}
use netudp.Core.Address.{Address, address_zero}
use netudp.Crypto.Xchacha.{Cipher, IsCipher, xchacha, xchacha_decrypt-xchacha_encrypt}
use netudp.Crypto.Epoch.{Aead, version_info}
use netudp.Connection.Token.{
  Bytes, PrivateConnectToken, token_private_size, max_servers_per_token, private_data,
  serialize_private_token, deserialize_private_token,
}
use netudp.Connection.Token.RoundTrip.{deserialize-serialize_private_token}
use netudp.Connection.Token.Parts.{
  validate-parts, found_from-listed, token-parts, address_equal_refl,
}
use netudp.Connection.Token.Request.{
  all_some, all_parsed-all_some, length-all_some, IsRequest, new_private-IsToken,
}
use netudp.Connection.Token.Validation.{
  Outcome, accepted, refused, invalid_param, Drawn, found_from, is_listed, check_private,
  check_opened, validate_connect_token, new_private, public_head, public_tail, filled_up,
  issue_sealed, issue_serialized, issue_parsed, generate_connect_token,
}

-- Once everything is drawn and sealed, this token goes out.
generate-sealed :
    (aead : Aead) (drawn : Drawn) (addresses : List Address)
    (create_ts expire_seconds timeout_seconds client_id protocol_id n : ℕ)
    (private_key plain sealed : Bytes) (user_data : Option Bytes)
    → 0 < length addresses
    → length addresses ≤ max_servers_per_token
    → let expire_ts = (create_ts + expire_seconds) % u64_mod in
      let priv = new_private drawn timeout_seconds client_id user_data addresses in
      serialize_private_token priv token_private_size ≡ some (plain, n)
      → aead.encrypt private_key drawn.nonce
          (version_info ++ (bytes_le 8 protocol_id ++ bytes_le 8 expire_ts))
          plain
        ≡ some sealed
      → generate_connect_token aead drawn create_ts
          (all_some addresses)
          expire_seconds
          timeout_seconds
          client_id
          protocol_id
          private_key
          user_data
        ≡ accepted (
            filled_up (
              public_head protocol_id create_ts expire_ts drawn.nonce
              ++ (sealed ++ public_tail priv)))
unfolding generate_connect_token issue_parsed issue_serialized issue_sealed
generate-sealed aead drawn addresses create secs timeout client pid n key plain sealed user_data pos
      few es ee =
    if-elim GoesOut (ltb (length (all_some addresses)) 1)
      (λ no. ground (arith, no, pos, length-all_some addresses))
      (λ yes.
        if-elim GoesOut (ltb max_servers_per_token (length (all_some addresses)))
          (λ many. ground (arith, many, few, length-all_some addresses))
          (λ ok.
            ap (issue_parsed aead drawn create secs timeout client pid key user_data)
              (all_parsed-all_some addresses)
            ∙ ap (issue_serialized aead pid create expire_ts key drawn.nonce priv) es
            ∙ ap (issue_sealed priv (public_head pid create expire_ts drawn.nonce)) ee))
  where
    expire_ts : ℕ
    expire_ts = (create + secs) % u64_mod

    priv : PrivateConnectToken
    priv = new_private drawn timeout client user_data addresses

    GoesOut : Outcome Bytes → Type 0
    GoesOut r =
        r
        ≡ accepted (
            filled_up
              (public_head pid create expire_ts drawn.nonce ++ (sealed ++ public_tail priv)))

check_opened-listed :
    (drawn : Drawn) (addresses : List Address) (timeout_seconds client_id : ℕ)
    (user_data : Option Bytes) (i : ℕ) (plain : Bytes)
    → i < length addresses
    → let priv = new_private drawn timeout_seconds client_id user_data addresses in
      deserialize_private_token plain ≡ some priv
      → check_opened (some (get_or addresses i address_zero)) (some plain) ≡ accepted priv
unfolding check_opened check_private is_listed new_private
check_opened-listed drawn addresses timeout_seconds client_id user_data i plain hi ed =
    let priv = new_private drawn timeout_seconds client_id user_data addresses in
    let a = get_or addresses i address_zero in
    ap (check_private (some a)) ed
    ∙ ap (λ (b : Bool). if b then accepted priv else refused invalid_param)
        (listed drawn addresses timeout_seconds client_id user_data i hi)
  where
    listed :
        (drawn : Drawn) (addresses : List Address) (timeout_seconds client_id : ℕ)
        (user_data : Option Bytes) (i : ℕ)
        → i < length addresses
        → found_from
            (λ k. get_or addresses k address_zero)
            (get_or addresses i address_zero)
            0
            (length addresses)
          ≡ true
    listed drawn addresses timeout_seconds client_id user_data i hi =
        found_from-listed (λ k. get_or addresses k address_zero) (get_or addresses i address_zero) 0
          (length addresses) i (omega arith) (omega (arith, hi))
          (address_equal_refl (get_or addresses i address_zero))

-- A token that is issued for an address is accepted by a server with the same key and protocol that
-- has this address, until the token expires, and the server has the private data that the issuer put
-- in. The clock and the time to live do not wrap around.
pub validate-generate_connect_token :
    (c : Cipher) (drawn : Drawn) (addresses : List Address)
    (create_ts expire_seconds timeout_seconds client_id protocol_id : ℕ) (private_key : Bytes)
    (user_data : Option Bytes) (now i : ℕ)
    → IsCipher c
    → IsRequest drawn addresses timeout_seconds client_id user_data
    → protocol_id < u64_mod
    → create_ts + expire_seconds < u64_mod
    → now < create_ts + expire_seconds
    → i < length addresses
    → (token : Bytes) × ((generate_connect_token
            (xchacha c)
            drawn
            create_ts
            (all_some addresses)
            expire_seconds
            timeout_seconds
            client_id
            protocol_id
            private_key
            user_data
          ≡ accepted token)
        × (validate_connect_token
              (xchacha c)
              token
              protocol_id
              private_key
              now
              (some (get_or addresses i address_zero))
            ≡ accepted (new_private drawn timeout_seconds client_id user_data addresses)))
unfolding xchacha
validate-generate_connect_token c drawn addresses create_ts expire_seconds timeout_seconds client_id
      protocol_id key user_data now i hc hr hp he hn hi =
    let expire_ts = (create_ts + expire_seconds) % u64_mod in
    let priv = new_private drawn timeout_seconds client_id user_data addresses in
    let aad = version_info ++ (bytes_le 8 protocol_id ++ bytes_le 8 expire_ts) in
    let (plain, (es, (esize, ed))) =
      deserialize-serialize_private_token priv token_private_size
        (new_private-IsToken drawn addresses timeout_seconds client_id user_data hr)
        (omega arith) in
    let (ct, mac) = c.lock key drawn.nonce aad plain in
    let (ee, (size, opened)) = xchacha_decrypt-xchacha_encrypt c key drawn.nonce aad plain hc in
    let (more, ep) =
      token-parts protocol_id create_ts expire_ts drawn.nonce (ct ++ mac) (public_tail priv) in
    (
      _,
      (
        generate-sealed (xchacha c) drawn addresses create_ts expire_seconds timeout_seconds
            client_id protocol_id (length (private_data priv)) key plain (ct ++ mac) user_data
            hr.some_address hr.few_addresses es ee,
        ap
              (λ (token : Bytes).
                validate_connect_token (xchacha c) token protocol_id key now
                  (some (get_or addresses i address_zero)))
              ep
            ∙ validate-parts (xchacha c) protocol_id create_ts expire_ts drawn.nonce (ct ++ mac)
                more key now (some (get_or addresses i address_zero)) hp (omega (arith, he))
                (omega (arith, he, hn)) hr.drawn_nonce (omega (arith, size, esize))
            ∙ ap (check_opened (some (get_or addresses i address_zero))) opened
            ∙ check_opened-listed drawn addresses timeout_seconds client_id user_data i plain hi ed,
      ),
    )
