-- ===== src/Crypto/Epoch/Exchange.antt =====
-- src/crypto/packet_crypto.cpp: what one side encrypts the other decrypts, once.
use netudp.Base.{
  ℕ, ◌<◌, ◌≡◌, ◌≢◌, ◌⊎◌, inl, inr, ap, true, false, ◌||◌, leb, some, none, List, [], ◌∷◌, arith,
  Bool-cases, Option-cases,
}
use netudp.Base.Lists.{length}
use netudp.Base.Words.{u64_mod}
use netudp.Crypto.Replay.{is_duplicate, advance}
use netudp.Crypto.Replay.Once.{
  Covered, InRange, advance-Covered, advance-Covered_other, Covered-is_duplicate,
}
use netudp.Crypto.Epoch.{
  Bytes, Aead, KeyEpoch, build_nonce, build_aad, packet_encrypt, packet_decrypt, accept_plain,
}

-- The documented behaviour of an AEAD: decryption under the same key, nonce and associated data
-- gives the plaintext back.
abbrev pub Opens : Aead → Type 0
Opens aead =
    (key nonce aad pt ct : Bytes)
    → aead.encrypt key nonce aad pt ≡ some ct
    → aead.decrypt key nonce aad ct ≡ some pt

-- Likewise: what was encrypted under one nonce fails to authenticate under another.
abbrev pub SealsNonce : Aead → Type 0
SealsNonce aead =
    (key nonce nonce' aad aad' pt ct : Bytes)
    → nonce' ≢ nonce
    → aead.encrypt key nonce aad pt ≡ some ct
    → aead.decrypt key nonce' aad' ct ≡ none

-- The nonces are 64-bit numbers.
abbrev pub AreNonces : List (ℕ × ℕ × Bytes) → Type 0
AreNonces [] = Unit
AreNonces ((nonce, prefix, ct) ∷ ps) = (nonce < u64_mod) × AreNonces ps

module _ {T : Type 0} (aead : Aead) (protocol_id : ℕ) where
  pub packet_encrypt-some :
      (a : KeyEpoch T) (prefix : ℕ) (pt ct : Bytes)
      → (packet_encrypt aead protocol_id a prefix pt).0 ≡ some ct
      → aead.encrypt a.tx_key (build_nonce a.tx_nonce_counter) (build_aad protocol_id prefix) pt
        ≡ some ct
  unfolding packet_encrypt
  packet_encrypt-some a prefix pt ct e = ground arith

  -- A packet that `a` encrypts is decrypted by a peer with the matching key, if its nonce is new
  -- there; the nonce is then on record, and nothing else of the peer changes.
  pub packet_decrypt-packet_encrypt :
      (a b : KeyEpoch T) (prefix : ℕ) (pt ct : Bytes)
      → Opens aead
      → b.rx_key ≡ a.tx_key
      → is_duplicate b.replay a.tx_nonce_counter ≡ false
      → 0 < length ct
      → (packet_encrypt aead protocol_id a prefix pt).0 ≡ some ct
      → packet_decrypt aead protocol_id b prefix a.tx_nonce_counter ct
        ≡ (some pt, record b { replay = advance b.replay a.tx_nonce_counter })
  unfolding packet_decrypt accept_plain
  packet_decrypt-packet_encrypt a b prefix pt ct opens keys new full e = ground (
    arith,
    packet_encrypt-some a prefix pt ct e,
    opens a.tx_key (build_nonce a.tx_nonce_counter) (build_aad protocol_id prefix) pt ct,
    ap (λ k. aead.decrypt k (build_nonce a.tx_nonce_counter) (build_aad protocol_id prefix) ct)
        keys,
  )

  -- Packets that arrive one after the other: a nonce, a prefix and the ciphertext.
  unfoldable pub decrypt_all : KeyEpoch T → List (ℕ × ℕ × Bytes) → KeyEpoch T
  decrypt_all b [] = b
  decrypt_all b ((nonce, prefix, ct) ∷ ps) =
      decrypt_all (packet_decrypt aead protocol_id b prefix nonce ct).1 ps

  -- A packet that fails leaves the receiver as it was; one that succeeds was new, and changes the
  -- replay window only.
  pub packet_decrypt-cases :
      (b : KeyEpoch T) (prefix nonce : ℕ) (ct : Bytes)
      → (packet_decrypt aead protocol_id b prefix nonce ct ≡ (none, b))
        ⊎ ((pt : Bytes) × (is_duplicate b.replay nonce ≡ false)
            × (packet_decrypt aead protocol_id b prefix nonce ct
                ≡ (some pt, record b { replay = advance b.replay nonce })))
  unfolding packet_decrypt accept_plain
  packet_decrypt-cases b prefix nonce ct =
      elim (Bool-cases (leb (length ct) 0 || is_duplicate b.replay nonce)) [
        | inl bad ↦ inl (rw bad)
        | inr good ↦
            elim (Option-cases
              (aead.decrypt b.rx_key (build_nonce nonce) (build_aad protocol_id prefix) ct)) [
                | inl fails ↦ inl (rw (good, fails, accept_plain))
                | inr (pt, opens) ↦ inr (pt, ground arith, rw (good, opens, accept_plain))
              ]
      ]

  -- What a recorded nonce needs to stay recorded.
  record Spent (b : KeyEpoch T) (n : ℕ) : Type 0 where
    in_range : InRange b.replay
    covered : Covered b.replay n

  packet_decrypt-Spent :
      (b : KeyEpoch T) (prefix nonce : ℕ) (ct : Bytes) (n : ℕ)
      → n < u64_mod
      → nonce < u64_mod
      → Spent b n
      → Spent (packet_decrypt aead protocol_id b prefix nonce ct).1 n
  packet_decrypt-Spent b prefix nonce ct n hn hm v = elim (packet_decrypt-cases b prefix nonce ct) [
    | inl e ↦ rw e v
    | inr (pt, new, e) ↦ rw e (record {
      in_range = unfold advance in (ground arith);
      covered = advance-Covered_other b.replay n nonce hn hm v.in_range new v.covered;
    })
  ]

  decrypt_all-Spent :
      (b : KeyEpoch T) (ps : List (ℕ × ℕ × Bytes)) (n : ℕ)
      → n < u64_mod
      → AreNonces ps
      → Spent b n
      → is_duplicate (decrypt_all b ps).replay n ≡ true
  unfolding decrypt_all
  decrypt_all-Spent b [] n hn hs v = Covered-is_duplicate b.replay n hn v.in_range v.covered
  decrypt_all-Spent b ((nonce, prefix, ct) ∷ ps) n hn hs v =
      decrypt_all-Spent (packet_decrypt aead protocol_id b prefix nonce ct).1 ps n hn hs.1
        (packet_decrypt-Spent b prefix nonce ct n hn hs.0 v)

  -- A packet is accepted at most once: when `packet_decrypt` has accepted a 64-bit nonce, it refuses
  -- every ciphertext under that nonce, whatever packets with 64-bit nonces arrive in between.
  pub packet_decrypt_once :
      (b : KeyEpoch T) (nonce prefix : ℕ) (ct pt : Bytes) (ps : List (ℕ × ℕ × Bytes)) (prefix' : ℕ)
      (ct' : Bytes)
      → nonce < u64_mod
      → b.replay.most_recent < u64_mod
      → AreNonces ps
      → (packet_decrypt aead protocol_id b prefix nonce ct).0 ≡ some pt
      → let later = decrypt_all (packet_decrypt aead protocol_id b prefix nonce ct).1 ps in
        packet_decrypt aead protocol_id later prefix' nonce ct' ≡ (none, later)
  packet_decrypt_once b nonce prefix ct pt ps prefix' ct' hn hr hs e =
      refuses (decrypt_all (packet_decrypt aead protocol_id b prefix nonce ct).1 ps) (
        decrypt_all-Spent (packet_decrypt aead protocol_id b prefix nonce ct).1 ps nonce hn hs
          spent)
    where
      refuses :
          (l : KeyEpoch T)
          → is_duplicate l.replay nonce ≡ true
          → packet_decrypt aead protocol_id l prefix' nonce ct' ≡ (none, l)
      refuses l d = unfold packet_decrypt in (ground arith)

      spent : Spent (packet_decrypt aead protocol_id b prefix nonce ct).1 nonce
      spent = elim (packet_decrypt-cases b prefix nonce ct) [
        | inl fails ↦ absurd (ground arith)
        | inr (pt', new, done) ↦ rw done (record {
          in_range = unfold advance in (ground arith);
          covered = advance-Covered b.replay nonce;
        })
      ]
