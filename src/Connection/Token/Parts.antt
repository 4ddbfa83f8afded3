-- ===== src/Connection/Token/Parts.antt =====
-- src/connection/connect_token.cpp: a token in its parts, as src/api.cpp writes it and as it is validated.
use netudp.Base.{
  ℕ, zero, suc, ◌+◌, ◌-◌, ◌≤◌, ◌<◌, ◌≡◌, ap, ap₂, ◌∙◌, ◌==◌, leb, true, not, Array, Option, ◌++◌,
  if-elim, Bool-cases, inl, inr, arith,
}
use mathlib.Core.List.{append_assoc}
use netudp.Base.Bytes.{bytes_le, read_le, read_le-bytes_le}
use netudp.Base.Lists.{length, take, replicate, eq_list, eq_list_refl}
use netudp.Base.Words.{u64_mod}
use netudp.Core.Address.{Address, address_data_len, address_equal}
use netudp.Crypto.Epoch.{Aead, version_info}
use netudp.Connection.Token.{Bytes, PrivateConnectToken}
use netudp.Connection.Token.Addresses.{take-length, drop-length}
use netudp.Connection.Token.Validation.{
  Outcome, found_from, check_opened, validate_connect_token, public_head, filled_up,
}

-- A token in its parts.
abbrev pub parts : ℕ → ℕ → ℕ → Bytes → Bytes → Bytes → Bytes
parts protocol_id create_ts expire_ts nonce sealed more =
    version_info
    ++ (bytes_le 8 protocol_id
        ++ (bytes_le 8 create_ts ++ (bytes_le 8 expire_ts ++ (nonce ++ (sealed ++ more)))))

pub validate-parts :
    (aead : Aead) (protocol_id create_ts expire_ts : ℕ) (nonce sealed more key : Bytes) (now : ℕ)
    (server_address : Option Address)
    → protocol_id < u64_mod
    → expire_ts < u64_mod
    → now < expire_ts
    → length nonce ≡ 24
    → length sealed ≡ 1024
    → validate_connect_token aead
        (parts protocol_id create_ts expire_ts nonce sealed more)
        protocol_id
        key
        now
        server_address
      ≡ check_opened server_address (
          aead.decrypt key nonce
            (version_info ++ (bytes_le 8 protocol_id ++ bytes_le 8 expire_ts))
            sealed)
unfolding validate_connect_token bytes_le eq_list
validate-parts aead pid create expire nonce sealed more key now addr hp he hn hnonce hsealed =
    if-elim IsOpened (not (read_le 8 (bytes_le 8 pid ++ after_pid) == pid))
      (λ wrong. ground (arith, wrong, read_le-bytes_le 8 pid after_pid (omega (arith, hp))))
      (λ right.
        if-elim IsOpened (leb (read_le 8 (bytes_le 8 expire ++ after_expire)) now)
          (λ late.
            ground (arith, late, hn, read_le-bytes_le 8 expire after_expire (omega (arith, he))))
          (λ early.
            ap₂ (λ (n ct : Bytes). check_opened addr (aead.decrypt key n aad ct))
              (take-length nonce (sealed ++ more) 24 hnonce)
              (ap (take 1024) (drop-length nonce (sealed ++ more) 24 hnonce)
                ∙ take-length sealed more 1024 hsealed)))
  where
    aad : Bytes
    aad = version_info ++ (bytes_le 8 pid ++ bytes_le 8 expire)

    after_expire : Bytes
    after_expire = nonce ++ (sealed ++ more)

    after_pid : Bytes
    after_pid = bytes_le 8 create ++ (bytes_le 8 expire ++ after_expire)

    IsOpened : Outcome PrivateConnectToken → Type 0
    IsOpened r = r ≡ check_opened addr (aead.decrypt key nonce aad sealed)

pub found_from-listed :
    (addresses : Array Address) (address : Address) (i n j : ℕ)
    → i ≤ j
    → j < i + n
    → address_equal address (addresses j) ≡ true
    → found_from addresses address i n ≡ true
unfolding found_from
found_from-listed addresses address i zero j lo up e = absurd (omega (arith, lo, up))
found_from-listed addresses address i (suc n) j lo up e = elim (Bool-cases (i == j)) [
  | inl same ↦ ground (arith, e, ap (λ (k : ℕ). address_equal address (addresses k)) (at i j same))
  | inr other ↦ ground (
    arith,
    found_from-listed addresses address (i + 1) n j (ground (arith, lo, other)) (omega (arith, up))
        e,
  )
]
  where
    at : (i j : ℕ) → (i == j) ≡ true → i ≡ j
    at i j e = ground (arith, e)

pub address_equal_refl : (a : Address) → address_equal a a ≡ true
unfolding address_equal
address_equal_refl a = ground (arith, eq_list_refl (take (address_data_len a) a.bytes))

pub token-parts :
    (protocol_id create_ts expire_ts : ℕ) (nonce sealed tail : Bytes)
    → (more : Bytes) × (filled_up
          (public_head protocol_id create_ts expire_ts nonce ++ (sealed ++ tail))
        ≡ parts protocol_id create_ts expire_ts nonce sealed more)
unfolding filled_up public_head
token-parts pid create expire nonce sealed tail =
    let zeros =
      replicate {A = ℕ} (2048 - length (public_head pid create expire nonce ++ (sealed ++ tail)))
        0 in
    (
      tail ++ zeros,
      assoc version_info (bytes_le 8 pid) (bytes_le 8 create) (bytes_le 8 expire) nonce sealed tail
          zeros,
    )
  where
    assoc :
        (a b c d e f g z : Bytes)
        → ((a ++ (b ++ (c ++ (d ++ e)))) ++ (f ++ g)) ++ z
          ≡ a ++ (b ++ (c ++ (d ++ (e ++ (f ++ (g ++ z))))))
    assoc a b c d e f g z =
        append_assoc (a ++ (b ++ (c ++ (d ++ e)))) (f ++ g) z
        ∙ ap (◌++◌ (a ++ (b ++ (c ++ (d ++ e))))) (append_assoc f g z)
        ∙ append_assoc a (b ++ (c ++ (d ++ e))) (f ++ (g ++ z))
        ∙ ap (◌++◌ a) (
            append_assoc b (c ++ (d ++ e)) (f ++ (g ++ z))
            ∙ ap (◌++◌ b) (
                append_assoc c (d ++ e) (f ++ (g ++ z))
                ∙ ap (◌++◌ c) (append_assoc d e (f ++ (g ++ z)))))
