-- ===== src/Crypto/Epoch/Rekey.antt =====
-- src/crypto/packet_crypto.cpp: both sides change keys together, and what the grace window accepts.
use netudp.Base.{
  ℕ, suc, ◌+◌, ◌%◌, ◌≤◌, ◌<◌, ◌≡◌, ◌⊎◌, inl, inr, refl, ap, sym, false, ◌||◌, leb, ◌==◌, Option,
  some, none, List, [], ◌∷◌, ◌++◌, arith, Bool-cases, Option-cases,
}
use netudp.Base.Lists.{length}
use netudp.Base.Words.{u32_mod}
use netudp.Crypto.Replay
use netudp.Crypto.Replay.{is_duplicate, advance}
use netudp.Crypto.Epoch.{
  Bytes, Aead, Kdf, KeyEpoch, build_nonce, build_aad, prepare_rekey, activate_rekey,
  on_receive_rekey, packet_encrypt, packet_decrypt, packet_decrypt_grace, spend_grace,
  packet_prefix_data_rekey, rekey_label, derive_key,
}
use netudp.Base.Bytes.{bytes_le}
use netudp.Crypto.Epoch.Exchange.{Opens, packet_decrypt-packet_encrypt}

-- The two ends of a connection: each sends under the key that the other receives under.
pub record IsPaired {T : Type 0} (a b : KeyEpoch T) : Type 0 where
  pub forth : a.tx_key ≡ b.rx_key
  pub back : a.rx_key ≡ b.tx_key
  pub epochs : a.epoch_number ≡ b.epoch_number

module _ {T : Type 0} (aead : Aead) (kdf : Kdf) (protocol_id : ℕ) where
  -- The initiator's part: mark, encrypt the flagged packet, switch.
  unfoldable pub rekey_send : KeyEpoch T → Bytes → T → Option Bytes × KeyEpoch T
  rekey_send a pt now =
      let (ct, a') =
        packet_encrypt aead protocol_id (prepare_rekey a) packet_prefix_data_rekey pt in
      (ct, activate_rekey kdf a' now)

  -- The other side's part: decrypt the flagged packet under the current key, switch.
  unfoldable pub rekey_receive : KeyEpoch T → ℕ → Bytes → T → Option Bytes × KeyEpoch T
  rekey_receive b nonce ct now =
      let (pt, b') = packet_decrypt aead protocol_id b packet_prefix_data_rekey nonce ct in
      elim pt [ none ↦ (none, b') | some p ↦ (some p, on_receive_rekey kdf b' now) ]

  rekey_switches :
      (a b : KeyEpoch T) (pt ct : Bytes) (now now' : T)
      → Opens aead
      → IsPaired a b
      → is_duplicate b.replay a.tx_nonce_counter ≡ false
      → 0 < length ct
      → (rekey_send a pt now).0 ≡ some ct
      → let a' = (rekey_send a pt now).1 in
        let (plain, b') = rekey_receive b a.tx_nonce_counter ct now' in
        let next = (a.epoch_number + 1) % u32_mod in
        (plain ≡ some pt)
        × IsPaired a' b'
        × (b'.epoch_number ≡ (b.epoch_number + 1) % u32_mod)
        × (a'.tx_key ≡ derive_key kdf a.tx_key next)
        × (a'.rx_key ≡ derive_key kdf a.rx_key next)
        × (a'.tx_nonce_counter ≡ 0)
        × (b'.tx_nonce_counter ≡ 0)
        × (a'.replay ≡ Replay.reset)
        × (b'.replay ≡ Replay.reset)
        × (a'.old_rx_key ≡ a.rx_key)
        × (b'.old_rx_key ≡ b.rx_key)
        × (a'.grace_packets_remaining ≡ 256)
        × (b'.grace_packets_remaining ≡ 256)
  unfolding rekey_send rekey_receive prepare_rekey activate_rekey on_receive_rekey packet_encrypt
  rekey_switches a b pt ct now now' opens v new full e = ground (
    arith,
    packet_decrypt-packet_encrypt aead protocol_id (prepare_rekey a) b packet_prefix_data_rekey pt
        ct opens (sym v.forth),
  )

  -- Both sides go through a change of keys together: the flagged packet, still under the old key,
  -- is decrypted, and the two ends are paired again, one epoch on. Each new key is the keyed hash,
  -- under the old key, of "netudp-rekey" and the number of the new epoch in four bytes. Each end has
  -- its counter at 0, an empty replay window and the old receive key kept for 256 packets.
  pub rekey-IsPaired :
      (a b : KeyEpoch T) (pt ct : Bytes) (now now' : T)
      → Opens aead
      → IsPaired a b
      → is_duplicate b.replay a.tx_nonce_counter ≡ false
      → 0 < length ct
      → (rekey_send a pt now).0 ≡ some ct
      → let a' = (rekey_send a pt now).1 in
        let (plain, b') = rekey_receive b a.tx_nonce_counter ct now' in
        let info = rekey_label ++ bytes_le 4 ((a.epoch_number + 1) % u32_mod) in
        (plain ≡ some pt)
        × IsPaired a' b'
        × (b'.epoch_number ≡ (b.epoch_number + 1) % u32_mod)
        × (a'.tx_key ≡ kdf a.tx_key info)
        × (a'.rx_key ≡ kdf a.rx_key info)
        × (a'.tx_nonce_counter ≡ 0)
        × (b'.tx_nonce_counter ≡ 0)
        × (a'.replay ≡ Replay.reset)
        × (b'.replay ≡ Replay.reset)
        × (a'.old_rx_key ≡ a.rx_key)
        × (b'.old_rx_key ≡ b.rx_key)
        × (a'.grace_packets_remaining ≡ 256)
        × (b'.grace_packets_remaining ≡ 256)
  unfolding derive_key
  rekey-IsPaired = rekey_switches

  -- Right after the switch, a packet that the peer still encrypted under the old key is decrypted
  -- through the grace window, which loses one of its 256 places.
  pub packet_decrypt_grace-packet_encrypt :
      (a b : KeyEpoch T) (prefix : ℕ) (pt ct : Bytes) (now : T)
      → Opens aead
      → IsPaired a b
      → 0 < length ct
      → (packet_encrypt aead protocol_id a prefix pt).0 ≡ some ct
      → let b' = on_receive_rekey kdf b now in
        packet_decrypt_grace aead protocol_id b' prefix a.tx_nonce_counter ct
        ≡ (some pt, record b' { grace_packets_remaining = 255 })
  unfolding on_receive_rekey activate_rekey packet_decrypt_grace spend_grace packet_encrypt
  packet_decrypt_grace-packet_encrypt a b prefix pt ct now opens v full e = ground (
    arith,
    opens a.tx_key (build_nonce a.tx_nonce_counter) (build_aad protocol_id prefix) pt ct,
    ap (λ k. aead.decrypt k (build_nonce a.tx_nonce_counter) (build_aad protocol_id prefix) ct)
        v.forth,
  )

  -- The grace window keeps no record of nonces: what it has accepted it accepts again, as long as
  -- two places were left.
  pub packet_decrypt_grace_twice :
      (b : KeyEpoch T) (prefix nonce : ℕ) (ct pt : Bytes)
      → 2 ≤ b.grace_packets_remaining
      → (packet_decrypt_grace aead protocol_id b prefix nonce ct).0 ≡ some pt
      → (packet_decrypt_grace aead protocol_id
          (packet_decrypt_grace aead protocol_id b prefix nonce ct).1
          prefix
          nonce
          ct).0
        ≡ some pt
  unfolding packet_decrypt_grace spend_grace
  packet_decrypt_grace_twice b prefix nonce ct pt h e = ground arith

  -- Old-key packets one after the other: how many are accepted, and the state they leave.
  unfoldable pub grace_all : KeyEpoch T → List (ℕ × ℕ × Bytes) → ℕ × KeyEpoch T
  grace_all b [] = (0, b)
  grace_all b ((nonce, prefix, ct) ∷ ps) =
      let (pt, b') = packet_decrypt_grace aead protocol_id b prefix nonce ct in
      let (n, b'') = grace_all b' ps in (elim pt [ none ↦ n | some p ↦ n + 1 ], b'')

  packet_decrypt_grace_spends :
      (b : KeyEpoch T) (prefix nonce : ℕ) (ct : Bytes)
      → (((packet_decrypt_grace aead protocol_id b prefix nonce ct).0 ≡ none)
          × ((packet_decrypt_grace aead protocol_id b prefix nonce ct).1 ≡ b))
        ⊎ ((pt : Bytes) × ((packet_decrypt_grace aead protocol_id b prefix nonce ct).0 ≡ some pt)
            × (suc
                  (packet_decrypt_grace aead protocol_id b prefix nonce
                    ct).1.grace_packets_remaining
                ≡ b.grace_packets_remaining))
  unfolding packet_decrypt_grace spend_grace
  packet_decrypt_grace_spends b prefix nonce ct =
      elim (Bool-cases (leb (length ct) 0 || (b.grace_packets_remaining == 0))) [
        | inl bad ↦ inl (rw bad refl, rw bad refl)
        | inr good ↦
            elim (Option-cases
              (aead.decrypt b.old_rx_key (build_nonce nonce) (build_aad protocol_id prefix) ct)) [
                | inl fails ↦ inl (rw (good, fails) refl, rw (good, fails) refl)
                | inr (pt, opens) ↦ inr (pt, rw (good, opens) refl, rw (good, opens) (ground arith))
              ]
      ]

  -- However many old-key packets arrive, the window accepts no more than it had places, and counts
  -- each one that it accepts.
  pub grace_all-bounded :
      (b : KeyEpoch T) (ps : List (ℕ × ℕ × Bytes))
      → (grace_all b ps).0 + (grace_all b ps).1.grace_packets_remaining ≡ b.grace_packets_remaining
  unfolding grace_all
  grace_all-bounded b [] = omega arith
  grace_all-bounded b ((nonce, prefix, ct) ∷ ps) = ground (
    arith,
    packet_decrypt_grace_spends b prefix nonce ct,
    grace_all-bounded (packet_decrypt_grace aead protocol_id b prefix nonce ct).1 ps,
  )
