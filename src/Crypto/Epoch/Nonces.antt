-- ===== src/Crypto/Epoch/Nonces.antt =====
-- src/crypto/packet_crypto.cpp: the nonces of the packets that are encrypted under one key.
use netudp.Base.{ℕ, ◌+◌, ◌%◌, ◌≤◌, ◌<◌, ◌≡◌, ◌≢◌, ap, sym, ◌∙◌, refl, some, List, [], ◌∷◌, arith}
use netudp.Base.Bytes.{read_le, read_le-bytes_le}
use netudp.Base.Lists.{length, replicate}
use netudp.Base.Words.{u64_mod}
use netudp.Crypto.Epoch.{Bytes, Aead, KeyEpoch, build_nonce, build_aad, packet_encrypt}

pub build_nonce-injective :
    (m n : ℕ) → m < u64_mod → n < u64_mod → build_nonce m ≡ build_nonce n → m ≡ n
unfolding build_nonce
build_nonce-injective m n hm hn e =
    sym (read_le-bytes_le 8 m (replicate 16 0) hm)
    ∙ ap (read_le 8) e
    ∙ read_le-bytes_le 8 n (replicate 16 0) hn

module _ {T : Type 0} (aead : Aead) (protocol_id : ℕ) where
  -- Packets sent one after the other in one epoch: a prefix and the plaintext.
  unfoldable pub encrypt_all : KeyEpoch T → List (ℕ × Bytes) → KeyEpoch T
  encrypt_all a [] = a
  encrypt_all a ((prefix, pt) ∷ ps) = encrypt_all (packet_encrypt aead protocol_id a prefix pt).1 ps

  packet_encrypt-counter :
      (a : KeyEpoch T) (prefix : ℕ) (pt : Bytes)
      → a.tx_nonce_counter + 1 < u64_mod
      → (a.tx_nonce_counter ≤ (packet_encrypt aead protocol_id a prefix pt).1.tx_nonce_counter)
        × ((packet_encrypt aead protocol_id a prefix pt).1.tx_nonce_counter
            ≤ a.tx_nonce_counter + 1)
  unfolding packet_encrypt
  packet_encrypt-counter a prefix pt h = ground arith

  encrypt_all-counter :
      (a : KeyEpoch T) (ps : List (ℕ × Bytes))
      → a.tx_nonce_counter + length ps + 1 < u64_mod
      → (a.tx_nonce_counter ≤ (encrypt_all a ps).tx_nonce_counter)
        × ((encrypt_all a ps).tx_nonce_counter ≤ a.tx_nonce_counter + length ps)
  unfolding encrypt_all
  encrypt_all-counter a [] h = omega arith
  encrypt_all-counter a ((prefix, pt) ∷ ps) h = omega (
    arith,
    packet_encrypt-counter a prefix pt,
    encrypt_all-counter (packet_encrypt aead protocol_id a prefix pt).1 ps
        (omega (arith, packet_encrypt-counter a prefix pt)),
  )

  packet_encrypt-tx_key :
      (a : KeyEpoch T) (prefix : ℕ) (pt : Bytes)
      → (packet_encrypt aead protocol_id a prefix pt).1.tx_key ≡ a.tx_key
  unfolding packet_encrypt
  packet_encrypt-tx_key a prefix pt = ground arith

  encrypt_all-tx_key :
      (a : KeyEpoch T) (ps : List (ℕ × Bytes)) → (encrypt_all a ps).tx_key ≡ a.tx_key
  unfolding encrypt_all
  encrypt_all-tx_key a [] = refl
  encrypt_all-tx_key a ((prefix, pt) ∷ ps) =
      encrypt_all-tx_key (packet_encrypt aead protocol_id a prefix pt).1 ps
      ∙ packet_encrypt-tx_key a prefix pt

  -- What a successful call gave to the cipher, and the counter that it left.
  packet_encrypt-sealed :
      (a : KeyEpoch T) (prefix : ℕ) (pt ct : Bytes)
      → (packet_encrypt aead protocol_id a prefix pt).0 ≡ some ct
      → (aead.encrypt a.tx_key (build_nonce a.tx_nonce_counter) (build_aad protocol_id prefix) pt
          ≡ some ct)
        × ((packet_encrypt aead protocol_id a prefix pt).1.tx_nonce_counter
            ≡ (a.tx_nonce_counter + 1) % u64_mod)
  unfolding packet_encrypt
  packet_encrypt-sealed a prefix pt ct e = ground (arith, e)

  -- A packet is encrypted, then any number of packets, then one more, all in one epoch, without the
  -- 64-bit counter being set back or wrapping in between. What the first and the last call return was
  -- sealed by the cipher under the epoch's one key, and under the nonces of the counter at the time,
  -- which differ.
  pub packet_encrypt-nonces_differ :
      (a : KeyEpoch T) (prefix prefix' : ℕ) (pt ct pt' ct' : Bytes) (ps : List (ℕ × Bytes))
      → a.tx_nonce_counter + length ps + 2 < u64_mod
      → (packet_encrypt aead protocol_id a prefix pt).0 ≡ some ct
      → (packet_encrypt aead protocol_id
          (encrypt_all (packet_encrypt aead protocol_id a prefix pt).1 ps)
          prefix'
          pt').0
        ≡ some ct'
      → let nonce = build_nonce a.tx_nonce_counter in
        let nonce' =
          build_nonce
            (encrypt_all (packet_encrypt aead protocol_id a prefix pt).1 ps).tx_nonce_counter in
        (aead.encrypt a.tx_key nonce (build_aad protocol_id prefix) pt ≡ some ct)
        × (aead.encrypt a.tx_key nonce' (build_aad protocol_id prefix') pt' ≡ some ct')
        × (nonce' ≢ nonce)
  packet_encrypt-nonces_differ a prefix prefix' pt ct pt' ct' ps h e e' =
      let a1 = (packet_encrypt aead protocol_id a prefix pt).1 in
      let a2 = encrypt_all a1 ps in
      let (sealed, advanced) = packet_encrypt-sealed a prefix pt ct e in
      let (sealed', advanced') = packet_encrypt-sealed a2 prefix' pt' ct' e' in
      let key : a2.tx_key ≡ a.tx_key =
        encrypt_all-tx_key a1 ps ∙ packet_encrypt-tx_key a prefix pt in
      let later = encrypt_all-counter a1 ps (omega (arith, h, advanced)) in
      (
        sealed,
        ap
              (λ (k : Bytes).
                aead.encrypt k (build_nonce a2.tx_nonce_counter) (build_aad protocol_id prefix')
                  pt')
              (sym key)
            ∙ sealed',
        λ same. absurd (
            omega (
              arith,
              h,
              advanced,
              later,
              build_nonce-injective a2.tx_nonce_counter a.tx_nonce_counter
                  (omega (arith, h, advanced, later)) (omega (arith, h)) same,
            )),
      )
