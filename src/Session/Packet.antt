-- ===== src/Session/Packet.antt =====
-- src/server.cpp, `server_handle_data_packet` up to the parsing of frames, and the same lines of
-- src/client.cpp: the nonce that the receiver expects, decryption, the grace window and the change of
-- keys. The wire carries no nonce, so the receiver derives it from its replay window.
pub mod Streams
pub mod InOrder
pub mod Loss
mod Tests
use netudp.Base.{
  ℕ, ◌+◌, ◌%◌, Bool, true, false, ◌&&◌, ◌==◌, if◌then◌else◌, Option, some, none, List, [], ◌∷◌,
}
use netudp.Base.Words.{u64_mod}
use netudp.Crypto.Replay.{ReplayProtection, empty_slot}
use netudp.Crypto.Epoch.{
  Bytes, Aead, Kdf, KeyEpoch, packet_encrypt, packet_decrypt, packet_decrypt_grace,
  on_receive_rekey, packet_prefix_data_rekey,
}

-- The server: nonce 0 if nothing was received yet, else the one after the most recent.
unfoldable pub expected_nonce : ReplayProtection → ℕ
expected_nonce r =
    if (r.most_recent == 0) && (r.received 0 == empty_slot)
    then 0
    else (r.most_recent + 1) % u64_mod

-- The client, which has taken nonce 0 with the server's acceptance.
unfoldable pub client_expected_nonce : ReplayProtection → ℕ
client_expected_nonce r = (r.most_recent + 1) % u64_mod

module _ {T : Type 0} (aead : Aead) (kdf : Kdf) (protocol_id : ℕ) (now : T) where
  -- A packet with the flag makes the receiver change its keys too.
  unfoldable pub after_decrypt : ℕ → Option Bytes × KeyEpoch T → Option Bytes × KeyEpoch T
  after_decrypt prefix (none, b) = (none, b)
  after_decrypt prefix (some pt, b) =
      (some pt, if prefix == packet_prefix_data_rekey then on_receive_rekey kdf b now else b)

  -- Where decryption fails the grace window is tried.
  unfoldable pub or_grace : ℕ → ℕ → Bytes → Option Bytes × KeyEpoch T → Option Bytes × KeyEpoch T
  or_grace prefix nonce ct (some pt, b) = (some pt, b)
  or_grace prefix nonce ct (none, b) = packet_decrypt_grace aead protocol_id b prefix nonce ct

  -- The plaintext of a data packet, if the server accepts it, and the new key epoch.
  unfoldable pub open_packet : KeyEpoch T → ℕ → Bytes → Option Bytes × KeyEpoch T
  open_packet b prefix ct =
      let nonce = expected_nonce b.replay in
      after_decrypt prefix
        (or_grace prefix nonce ct (packet_decrypt aead protocol_id b prefix nonce ct))

  -- The client has neither the grace window nor the change of keys.
  unfoldable pub client_open_packet : KeyEpoch T → ℕ → Bytes → Option Bytes × KeyEpoch T
  client_open_packet b prefix ct =
      packet_decrypt aead protocol_id b prefix (client_expected_nonce b.replay) ct

  -- The server opens the packets that arrive, in their order: the plaintexts that it accepts.
  unfoldable pub open_all : KeyEpoch T → List (ℕ × Bytes) → List Bytes × KeyEpoch T
  open_all b [] = ([], b)
  open_all b ((prefix, ct) ∷ ps) =
      let (pt, b') = open_packet b prefix ct in
      let (pts, b'') = open_all b' ps in (elim pt [ none ↦ pts | some p ↦ p ∷ pts ], b'')

-- What a sender puts on the wire for these prefixes and plaintexts.
unfoldable pub seal_all : {T : Type 0} → Aead → ℕ → KeyEpoch T → List (ℕ × Bytes) → List (ℕ × Bytes)
seal_all aead protocol_id a [] = []
seal_all aead protocol_id a ((prefix, pt) ∷ ps) =
    let (ct, a') = packet_encrypt aead protocol_id a prefix pt in
    let rest = seal_all aead protocol_id a' ps in
    elim ct [ none ↦ rest | some c ↦ (prefix, c) ∷ rest ]
