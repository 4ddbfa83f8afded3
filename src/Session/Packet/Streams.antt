-- ===== src/Session/Packet/Streams.antt =====
-- The steps of the packet streams of src/server.cpp that the proofs take.
use netudp.Base.{ℕ, ◌≡◌, some, none, List, ◌∷◌, arith}
use netudp.Crypto.Epoch.{Bytes, Aead, Kdf, KeyEpoch, packet_encrypt}
use netudp.Session.Packet.{open_packet, open_all, seal_all}

module _ {T : Type 0} (aead : Aead) (protocol_id : ℕ) (a : KeyEpoch T) (prefix : ℕ) (pt : Bytes)
    (ps : List (ℕ × Bytes)) where
  pub seal_all-some :
      (ct : Bytes)
      → (packet_encrypt aead protocol_id a prefix pt).0 ≡ some ct
      → seal_all aead protocol_id a ((prefix, pt) ∷ ps)
        ≡ (prefix, ct)
          ∷ seal_all aead protocol_id (packet_encrypt aead protocol_id a prefix pt).1 ps
  unfolding seal_all
  seal_all-some ct e = ground arith

  pub seal_all_none :
      (packet_encrypt aead protocol_id a prefix pt).0 ≡ none
      → seal_all aead protocol_id a ((prefix, pt) ∷ ps)
        ≡ seal_all aead protocol_id (packet_encrypt aead protocol_id a prefix pt).1 ps
  unfolding seal_all
  seal_all_none e = ground arith

module _ {T : Type 0} (aead : Aead) (kdf : Kdf) (protocol_id : ℕ) (now : T) (b b' : KeyEpoch T)
    (prefix : ℕ) (ct : Bytes) (ps : List (ℕ × Bytes)) where
  pub open_all_none :
      open_packet aead kdf protocol_id now b prefix ct ≡ (none, b')
      → open_all aead kdf protocol_id now b ((prefix, ct) ∷ ps)
        ≡ open_all aead kdf protocol_id now b' ps
  unfolding open_all
  open_all_none e = ground arith

  pub open_all-some :
      (pt : Bytes)
      → open_packet aead kdf protocol_id now b prefix ct ≡ (some pt, b')
      → (open_all aead kdf protocol_id now b ((prefix, ct) ∷ ps)).0
        ≡ pt ∷ (open_all aead kdf protocol_id now b' ps).0
  unfolding open_all
  open_all-some pt e = ground arith
