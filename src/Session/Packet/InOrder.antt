-- ===== src/Session/Packet/InOrder.antt =====
-- src/server.cpp: a session whose packets all arrive, in the order in which they were sent.
use netudp.Base.{
  ℕ, ◌+◌, ◌%◌, ◌<◌, ◌≤◌, ◌≡◌, ◌≢◌, ◌⊎◌, inl, refl, ap, sym, ◌∙◌, false, some, List, [], ◌∷◌, map,
  arith,
}
use netudp.Base.Lists.{length, All}
use netudp.Base.Words.{u64_mod}
use netudp.Crypto.Replay
use netudp.Crypto.Replay.{ReplayProtection, is_duplicate, advance, empty_slot}
use netudp.Crypto.Epoch.{
  Bytes, Aead, Kdf, KeyEpoch, build_nonce, build_aad, packet_encrypt, packet_prefix_data_rekey,
}
use netudp.Crypto.Epoch.Exchange.{Opens, packet_decrypt-packet_encrypt}
use netudp.Session.Packet.Streams.{seal_all-some, open_all-some}
use netudp.Session.Packet.{expected_nonce, after_decrypt, or_grace, open_packet, open_all, seal_all}

-- Every slot is empty or holds a nonce up to the most recent one.
abbrev IsHonest : ReplayProtection → Type 0
IsHonest r = (i : ℕ) → (r.received i ≡ empty_slot) ⊎ (r.received i ≤ r.most_recent)

-- The AEAD seals every packet, and no sealed packet is empty.
abbrev pub Seals : Aead → Type 0
Seals aead =
    (key nonce aad pt : Bytes)
    → (ct : Bytes) × (aead.encrypt key nonce aad pt ≡ some ct) × (0 < length ct)

expected_nonce-is_new :
    (r : ReplayProtection)
    → IsHonest r
    → r.most_recent + 300 < u64_mod
    → is_duplicate r (expected_nonce r) ≡ false
unfolding is_duplicate expected_nonce
expected_nonce-is_new r honest h = ground (arith, honest 0, honest ((r.most_recent + 1) % 256))

advance-expected_nonce :
    (r : ReplayProtection)
    → r.most_recent + 300 < u64_mod
    → expected_nonce (advance r (expected_nonce r)) ≡ expected_nonce r + 1
unfolding advance expected_nonce
advance-expected_nonce r h = ground arith

advance-IsHonest :
    (r : ReplayProtection) (n : ℕ) → r.most_recent ≤ n → IsHonest r → IsHonest (advance r n)
unfolding advance
advance-IsHonest r n h honest i = ground (arith, honest i)

module _ {T : Type 0} (aead : Aead) (kdf : Kdf) (protocol_id : ℕ) (now : T) where
  record InStep (a b : KeyEpoch T) : Type 0 where
    keys : b.rx_key ≡ a.tx_key
    step : expected_nonce b.replay ≡ a.tx_nonce_counter
    near : b.replay.most_recent ≤ a.tx_nonce_counter
    honest : IsHonest b.replay

  opened : KeyEpoch T → KeyEpoch T → KeyEpoch T
  opened a b = record b { replay = advance b.replay a.tx_nonce_counter }

  open_packet-InStep :
      (a b : KeyEpoch T) (prefix : ℕ) (pt ct : Bytes)
      → Opens aead
      → prefix ≢ packet_prefix_data_rekey
      → a.tx_nonce_counter + 300 < u64_mod
      → InStep a b
      → 0 < length ct
      → (packet_encrypt aead protocol_id a prefix pt).0 ≡ some ct
      → open_packet aead kdf protocol_id now b prefix ct ≡ (some pt, opened a b)
  unfolding open_packet after_decrypt or_grace opened
  open_packet-InStep a b prefix pt ct opens plain bound v full e =
      rw
        (
          v.step,
          packet_decrypt-packet_encrypt aead protocol_id a b prefix pt ct opens v.keys
              (rw (← v.step) (expected_nonce-is_new b.replay v.honest (omega (arith, v.near)))) full
              e,
        )
        (ground arith)

  packet_encrypt_sent :
      (a : KeyEpoch T) (prefix : ℕ) (pt ct : Bytes)
      → a.tx_nonce_counter + 300 < u64_mod
      → (packet_encrypt aead protocol_id a prefix pt).0 ≡ some ct
      → ((packet_encrypt aead protocol_id a prefix pt).1.tx_key ≡ a.tx_key)
        × ((packet_encrypt aead protocol_id a prefix pt).1.tx_nonce_counter
            ≡ a.tx_nonce_counter + 1)
  unfolding packet_encrypt
  packet_encrypt_sent a prefix pt ct bound e = (ground arith, ground arith)

  packet_encrypt-eq_some :
      (a : KeyEpoch T) (prefix : ℕ) (pt ct : Bytes)
      → aead.encrypt a.tx_key (build_nonce a.tx_nonce_counter) (build_aad protocol_id prefix) pt
        ≡ some ct
      → (packet_encrypt aead protocol_id a prefix pt).0 ≡ some ct
  unfolding packet_encrypt
  packet_encrypt-eq_some a prefix pt ct e = ground arith

  opened-InStep :
      (a b a' : KeyEpoch T)
      → a.tx_nonce_counter + 300 < u64_mod
      → a'.tx_key ≡ a.tx_key
      → a'.tx_nonce_counter ≡ a.tx_nonce_counter + 1
      → InStep a b
      → InStep a' (opened a b)
  unfolding opened
  opened-InStep a b a' bound key counter v = record {
    keys = v.keys ∙ sym key;
    step =
        rw (← v.step)
          (advance-expected_nonce b.replay (omega (arith, v.near)) ∙ rw v.step (sym counter));
    near = unfold advance in (ground (arith, v.near, counter));
    honest = advance-IsHonest b.replay a.tx_nonce_counter v.near v.honest;
  }

  open_all-InStep :
      (a b : KeyEpoch T) (ps : List (ℕ × Bytes))
      → Opens aead
      → Seals aead
      → All (λ p. p.0 ≢ packet_prefix_data_rekey) ps
      → a.tx_nonce_counter + length ps + 300 < u64_mod
      → InStep a b
      → (open_all aead kdf protocol_id now b (seal_all aead protocol_id a ps)).0 ≡ map (λ p. p.1) ps
  unfolding open_all seal_all
  open_all-InStep a b [] opens seals plain bound v = refl
  open_all-InStep a b ((prefix, pt) ∷ ps) opens seals plain bound v =
      ap (λ l. (open_all aead kdf protocol_id now b l).0)
        (seal_all-some aead protocol_id a prefix pt ps ct sent)
      ∙ open_all-some aead kdf protocol_id now b (opened a b) prefix ct
          (seal_all aead protocol_id a' ps) pt
          (open_packet-InStep a b prefix pt ct opens plain.0 (omega arith) v full sent)
      ∙ ap (◌∷◌ pt) (
          open_all-InStep a' (opened a b) ps opens seals plain.1 (omega (arith, next.1))
            (opened-InStep a b a' (omega arith) next.0 next.1 v))
    where
      sealed :
          (ct : Bytes) × (aead.encrypt a.tx_key
              (build_nonce a.tx_nonce_counter)
              (build_aad protocol_id prefix)
              pt
            ≡ some ct)
          × (0 < length ct)
      sealed = seals a.tx_key (build_nonce a.tx_nonce_counter) (build_aad protocol_id prefix) pt

      ct : Bytes
      ct = sealed.0

      full : 0 < length ct
      full = sealed.2

      a' : KeyEpoch T
      a' = (packet_encrypt aead protocol_id a prefix pt).1

      sent : (packet_encrypt aead protocol_id a prefix pt).0 ≡ some ct
      sent = packet_encrypt-eq_some a prefix pt ct sealed.1

      next : (a'.tx_key ≡ a.tx_key) × (a'.tx_nonce_counter ≡ a.tx_nonce_counter + 1)
      next = packet_encrypt_sent a prefix pt ct (omega arith) sent

  -- From a fresh connection on, when no packet is lost or reordered, the server accepts every data
  -- packet that the client sends and hands over its plaintext, in order: for an AEAD that seals
  -- every packet and opens what it sealed, before either side changes keys or the counter nears
  -- 2^64.
  pub open_all_in_order :
      (a b : KeyEpoch T) (ps : List (ℕ × Bytes))
      → Opens aead
      → Seals aead
      → b.rx_key ≡ a.tx_key
      → a.tx_nonce_counter ≡ 0
      → b.replay ≡ Replay.reset
      → All (λ p. p.0 ≢ packet_prefix_data_rekey) ps
      → length ps + 300 < u64_mod
      → (open_all aead kdf protocol_id now b (seal_all aead protocol_id a ps)).0 ≡ map (λ p. p.1) ps
  unfolding expected_nonce Replay.reset
  open_all_in_order a b ps opens seals keys counter fresh plain bound =
      open_all-InStep a b ps opens seals plain (omega (arith, counter)) (record {
        keys = keys;
        step = rw (fresh, counter);
        near = rw fresh (omega arith);
        honest = λ i. inl (rw fresh);
      })
