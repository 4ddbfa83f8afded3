-- ===== src/Connection/Token/Accepted.antt =====
-- src/connection/connect_token.cpp: what `validate_connect_token` has checked when it accepts.
use netudp.Base.{
  ℕ, ◌<◌, ◌≡◌, refl, sym, ap, ◌∙◌, ◌==◌, leb, Bool, true, false, not, if◌then◌else◌, Option, some,
  none, ◌++◌, Bool-cases, inl, inr, arith,
}
use mathlib.Core.Option.{some-injective}
use netudp.Base.Bytes.{read_le}
use netudp.Base.Lists.{take, drop, eq_list, eq_list→≡}
use netudp.Core.Address.{Address}
use netudp.Crypto.Epoch.{Aead, version_info}
use netudp.Connection.Token.{Bytes, PrivateConnectToken, deserialize_private_token}
use netudp.Connection.Token.Validation.{
  Outcome, accepted, refused, invalid_param, timeout, is_listed, check_private, check_opened,
  validate_connect_token,
}

-- The private part as the server's key opens it, with the public fields that are authenticated.
abbrev pub opened_part : Aead → Bytes → Bytes → Option Bytes
opened_part aead key token =
    aead.decrypt key (take 24 (drop 37 token))
      (take 13 token ++ (take 8 (drop 13 token) ++ take 8 (drop 29 token)))
      (take 1024 (drop 61 token))

abbrev accepted_data : Outcome PrivateConnectToken → Option PrivateConnectToken
accepted_data (accepted t) = some t
accepted_data (refused r) = none

-- Where a refusal comes first, it has not come.
refused-accepted :
    (b : Bool) (why r : Outcome PrivateConnectToken) (t : PrivateConnectToken)
    → accepted_data why ≡ none
    → (if b then why else r) ≡ accepted t
    → (b ≡ false) × (r ≡ accepted t)
refused-accepted true why r t h e = absurd (ground (arith, h, ap accepted_data e))
refused-accepted false why r t h e = (refl, e)

check_private-accepted :
    (addr : Option Address) (o : Option PrivateConnectToken) (t : PrivateConnectToken)
    → check_private addr o ≡ accepted t
    → (o ≡ some t) × (is_listed addr t ≡ true)
unfolding check_private
check_private-accepted addr none t e = absurd (ground (arith, ap accepted_data e))
check_private-accepted addr (some t') t e = elim (Bool-cases (is_listed addr t')) [
  | inl listed ↦
      let same : some t' ≡ some t =
        ap accepted_data
          (sym (ap (λ (b : Bool). if b then accepted t' else refused invalid_param) listed) ∙ e) in
      (same, ap (is_listed addr) (some-injective _ _ (sym same)) ∙ listed)
  | inr missing ↦ absurd (
      ground (
        arith,
        ap accepted_data
            (sym (ap (λ (b : Bool). if b then accepted t' else refused invalid_param) missing) ∙ e),
      ))
]

check_opened-accepted :
    (addr : Option Address) (o : Option Bytes) (t : PrivateConnectToken)
    → check_opened addr o ≡ accepted t
    → (pt : Bytes) × ((o ≡ some pt)
        × ((deserialize_private_token pt ≡ some t) × (is_listed addr t ≡ true)))
unfolding check_opened
check_opened-accepted addr none t e = absurd (ground (arith, ap accepted_data e))
check_opened-accepted addr (some pt) t e =
    (pt, (refl, check_private-accepted addr (deserialize_private_token pt) t e))

-- A server accepts a token only if its version and protocol are the server's, it has not expired,
-- the server's key opens its private part together with exactly these public fields, this part reads
-- as the token that is returned, and the server's address, if it has one, is among the addresses.
pub validate_connect_token-accepted :
    (aead : Aead) (token : Bytes) (protocol_id : ℕ) (private_key : Bytes) (current_time : ℕ)
    (server_address : Option Address) (t : PrivateConnectToken)
    → validate_connect_token aead token protocol_id private_key current_time server_address
      ≡ accepted t
    → (take 13 token ≡ version_info)
      × ((read_le 8 (drop 13 token) ≡ protocol_id)
          × ((current_time < read_le 8 (drop 29 token))
              × ((pt : Bytes) × ((opened_part aead private_key token ≡ some pt)
                    × ((deserialize_private_token pt ≡ some t)
                        × (is_listed server_address t ≡ true))))))
unfolding validate_connect_token
validate_connect_token-accepted aead token pid key now addr t e =
    let (version, e₁) =
      refused-accepted (not (eq_list (take 13 token) version_info)) (refused invalid_param) _ t refl
        e in
    let (protocol, e₂) =
      refused-accepted (not (read_le 8 (drop 13 token) == pid)) (refused invalid_param) _ t refl
        e₁ in
    let (time, e₃) =
      refused-accepted (leb (read_le 8 (drop 29 token)) now) (refused timeout) _ t refl e₂ in
    (
      eq_list→≡ (take 13 token) version_info (ground (arith, version)),
      (
        ground (arith, protocol),
        (ground (arith, time), check_opened-accepted addr (opened_part aead key token) t e₃),
      ),
    )
