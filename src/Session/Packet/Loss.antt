-- ===== src/Session/Packet/Loss.antt =====
-- src/server.cpp: what one lost packet does to a session.
use netudp.Base.{
  ℕ, ◌+◌, ◌<◌, ◌≤◌, ◌≡◌, refl, ap, ◌∙◌, some, none, List, [], ◌∷◌, arith, inl, inr, Option-cases,
}
use netudp.Base.Lists.{length}
use netudp.Base.Words.{u64_mod}
use netudp.Crypto.Epoch.{
  Bytes, Aead, Kdf, KeyEpoch, build_nonce, build_aad, packet_encrypt, packet_decrypt, accept_plain,
  packet_decrypt_grace,
}
use netudp.Crypto.Epoch.Exchange.{SealsNonce, packet_encrypt-some}
use netudp.Crypto.Epoch.Nonces.{build_nonce-injective}
use netudp.Session.Packet.Streams.{seal_all-some, seal_all_none, open_all_none}
use netudp.Session.Packet.{expected_nonce, after_decrypt, or_grace, open_packet, open_all, seal_all}

module _ {T : Type 0} (aead : Aead) (kdf : Kdf) (protocol_id : ℕ) (now : T) where
  -- The sender is ahead of the nonce that the receiver waits for.
  record IsAhead (a b : KeyEpoch T) : Type 0 where
    keys : b.rx_key ≡ a.tx_key
    no_grace : b.grace_packets_remaining ≡ 0
    ahead : expected_nonce b.replay < a.tx_nonce_counter

  open_packet_ahead :
      (a b : KeyEpoch T) (prefix : ℕ) (pt ct : Bytes)
      → SealsNonce aead
      → a.tx_nonce_counter < u64_mod
      → IsAhead a b
      → aead.encrypt a.tx_key (build_nonce a.tx_nonce_counter) (build_aad protocol_id prefix) pt
        ≡ some ct
      → open_packet aead kdf protocol_id now b prefix ct ≡ (none, b)
  unfolding open_packet after_decrypt or_grace packet_decrypt packet_decrypt_grace accept_plain
  open_packet_ahead a b prefix pt ct seals bound v e = ground (arith, fails, v.no_grace)
    where
      fails :
          aead.decrypt b.rx_key
            (build_nonce (expected_nonce b.replay))
            (build_aad protocol_id prefix)
            ct
          ≡ none
      fails =
          seals b.rx_key (build_nonce a.tx_nonce_counter) (build_nonce (expected_nonce b.replay))
            (build_aad protocol_id prefix) (build_aad protocol_id prefix) pt ct
            (λ same. absurd (
              omega (
                arith,
                v.ahead,
                build_nonce-injective (expected_nonce b.replay) a.tx_nonce_counter
                    (omega (arith, v.ahead)) bound same,
              )))
            (rw v.keys e)

  packet_encrypt-IsAhead :
      (a b : KeyEpoch T) (prefix : ℕ) (pt : Bytes)
      → a.tx_nonce_counter + 1 < u64_mod
      → IsAhead a b
      → IsAhead (packet_encrypt aead protocol_id a prefix pt).1 b
        × ((packet_encrypt aead protocol_id a prefix pt).1.tx_nonce_counter
            ≤ a.tx_nonce_counter + 1)
  unfolding packet_encrypt
  packet_encrypt-IsAhead a b prefix pt h v = ground (arith, v.keys, v.no_grace, v.ahead)

  -- When one packet of a session is lost, the session is dead: as soon as the sender's counter is
  -- past the nonce that the receiver expects, none of the packets that it sends under the same key
  -- is accepted, however many, and the receiver's state never changes, so that it expects the lost
  -- nonce for ever. This is outside the grace window of a key change, for an AEAD whose packets fail
  -- under another nonce.
  pub open_all_after_loss :
      (a b : KeyEpoch T) (ps : List (ℕ × Bytes))
      → SealsNonce aead
      → b.rx_key ≡ a.tx_key
      → b.grace_packets_remaining ≡ 0
      → expected_nonce b.replay < a.tx_nonce_counter
      → a.tx_nonce_counter + length ps < u64_mod
      → open_all aead kdf protocol_id now b (seal_all aead protocol_id a ps) ≡ ([], b)
  unfolding open_all seal_all
  open_all_after_loss a b [] seals keys grace ahead h = refl
  open_all_after_loss a b ((prefix, pt) ∷ ps) seals keys grace ahead h =
      elim (Option-cases (packet_encrypt aead protocol_id a prefix pt).0) [
        | inl fails ↦
            ap (open_all aead kdf protocol_id now b)
              (seal_all_none aead protocol_id a prefix pt ps fails)
            ∙ open_all_after_loss (packet_encrypt aead protocol_id a prefix pt).1 b ps seals
                next.0.keys grace next.0.ahead (omega (arith, next.1))
        | inr (ct, sent) ↦
            ap (open_all aead kdf protocol_id now b)
              (seal_all-some aead protocol_id a prefix pt ps ct sent)
            ∙ open_all_none aead kdf protocol_id now b b prefix ct
                (seal_all aead protocol_id (packet_encrypt aead protocol_id a prefix pt).1 ps)
                (open_packet_ahead a b prefix pt ct seals (omega arith) v
                  (packet_encrypt-some aead protocol_id a prefix pt ct sent))
            ∙ open_all_after_loss (packet_encrypt aead protocol_id a prefix pt).1 b ps seals
                next.0.keys grace next.0.ahead (omega (arith, next.1))
      ]
    where
      v : IsAhead a b
      v = record { keys = keys; no_grace = grace; ahead = ahead }

      next :
          IsAhead (packet_encrypt aead protocol_id a prefix pt).1 b
          × ((packet_encrypt aead protocol_id a prefix pt).1.tx_nonce_counter
              ≤ a.tx_nonce_counter + 1)
      next = packet_encrypt-IsAhead a b prefix pt (omega arith) v
