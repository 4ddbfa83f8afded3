-- ===== src/Crypto/Epoch/Tests.antt =====
-- Runs of src/crypto/packet_crypto.cpp with an AEAD whose tag is the nonce.
use netudp.Base.{ℕ, ◌≡◌, ◌≢◌, refl, false, some, none, List, [], ◌∷◌, ◌++◌, arith}
use netudp.Base.Bytes.{bytes_le}
use netudp.Base.Lists.{replicate}
use netudp.Crypto.Replay
use netudp.Crypto.Replay.{is_duplicate, advance}
use netudp.Crypto.Epoch.{
  Bytes, KeyEpoch, Kdf, build_nonce, build_aad, rekey_label, packet_encrypt, packet_decrypt,
  packet_decrypt_grace, on_receive_rekey, activate_rekey, prepare_rekey, accept_plain, spend_grace,
}
use netudp.Crypto.Epoch.Exchange.{decrypt_all, packet_decrypt-packet_encrypt, packet_decrypt_once}
use netudp.Crypto.Epoch.Nonces.{encrypt_all, packet_encrypt-nonces_differ}
use netudp.Crypto.Epoch.NonceTag.{nonce_tag, nonce_tag-Opens}
use netudp.Crypto.Epoch.Rekey.{
  IsPaired, rekey_send, rekey_receive, rekey-IsPaired, packet_decrypt_grace-packet_encrypt,
  packet_decrypt_grace_twice,
}

abbrev pub client : KeyEpoch ℕ
client = record {
  tx_key = 1 ∷ [];
  rx_key = 2 ∷ [];
  old_rx_key = [];
  tx_nonce_counter = 0;
  bytes_transmitted = 0;
  epoch_start_time = 0;
  epoch_number = 0;
  grace_packets_remaining = 0;
  rekey_pending = false;
  replay = Replay.reset;
}

abbrev pub server : KeyEpoch ℕ
server = record client { tx_key = 2 ∷ []; rx_key = 1 ∷ [] }

abbrev toy_kdf : Kdf
toy_kdf key info = key ++ info

abbrev hello : Bytes
hello = 104 ∷ 105 ∷ []

-- what the client's first packet looks like
abbrev wire : Bytes
wire = 24 ∷ (replicate 24 0 ++ hello)

packet_decrypt-packet_encrypt_example :
    packet_decrypt nonce_tag 7 server 4 0 wire
    ≡ (some hello, record server { replay = advance Replay.reset 0 })
unfolding packet_encrypt build_nonce bytes_le is_duplicate Replay.reset
packet_decrypt-packet_encrypt_example =
    packet_decrypt-packet_encrypt nonce_tag 7 client server 4 hello wire nonce_tag-Opens refl refl
      (omega arith) refl

-- what its third packet, an empty one, looks like
abbrev third : Bytes
third = 24 ∷ (2 ∷ replicate 23 0)

abbrev others : List (ℕ × ℕ × Bytes)
others = (1, 4, hello) ∷ (300, 4, hello) ∷ []

packet_decrypt_once_example :
    (let later = decrypt_all nonce_tag 7 (packet_decrypt nonce_tag 7 server 4 0 wire).1 others in
      packet_decrypt nonce_tag 7 later 4 0 wire ≡ (none, later))
unfolding packet_decrypt accept_plain build_nonce bytes_le is_duplicate Replay.reset
packet_decrypt_once_example =
    packet_decrypt_once nonce_tag 7 server 0 4 wire hello others 4 wire (omega arith) (omega arith)
      (omega arith) refl

packet_encrypt-nonces_differ_example :
    let nonce = build_nonce 0 in
    let nonce' =
      build_nonce
        (encrypt_all nonce_tag 7
          (packet_encrypt nonce_tag 7 client 4 hello).1
          ((4, hello) ∷ [])).tx_nonce_counter in
    (nonce_tag.encrypt (1 ∷ []) nonce (build_aad 7 4) hello ≡ some wire)
    × (nonce_tag.encrypt (1 ∷ []) nonce' (build_aad 7 5) [] ≡ some third)
    × (nonce' ≢ nonce)
unfolding packet_encrypt encrypt_all build_nonce bytes_le
packet_encrypt-nonces_differ_example =
    packet_encrypt-nonces_differ nonce_tag 7 client 4 5 hello wire [] third ((4, hello) ∷ [])
      (omega arith) refl refl

client-IsPaired : IsPaired client server
client-IsPaired = record { forth = refl; back = refl; epochs = refl }

rekey-IsPaired_example :
    let a' = (rekey_send nonce_tag toy_kdf 7 client hello 5).1 in
    let (plain, b') = rekey_receive nonce_tag toy_kdf 7 server 0 wire 6 in
    let info = rekey_label ++ bytes_le 4 1 in
    (plain ≡ some hello)
    × IsPaired a' b'
    × (b'.epoch_number ≡ 1)
    × (a'.tx_key ≡ 1 ∷ info)
    × (a'.rx_key ≡ 2 ∷ info)
    × (a'.tx_nonce_counter ≡ 0)
    × (b'.tx_nonce_counter ≡ 0)
    × (a'.replay ≡ Replay.reset)
    × (b'.replay ≡ Replay.reset)
    × (a'.old_rx_key ≡ 2 ∷ [])
    × (b'.old_rx_key ≡ 1 ∷ [])
    × (a'.grace_packets_remaining ≡ 256)
    × (b'.grace_packets_remaining ≡ 256)
unfolding packet_encrypt build_nonce bytes_le is_duplicate Replay.reset rekey_send prepare_rekey
rekey-IsPaired_example =
    rekey-IsPaired nonce_tag toy_kdf 7 client server hello wire 5 6 nonce_tag-Opens client-IsPaired
      refl (omega arith) refl

packet_decrypt_grace-packet_encrypt_example :
    (let s = on_receive_rekey toy_kdf server 9 in
      packet_decrypt_grace nonce_tag 7 s 4 0 wire
      ≡ (some hello, record s { grace_packets_remaining = 255 }))
unfolding packet_encrypt build_nonce bytes_le
packet_decrypt_grace-packet_encrypt_example =
    packet_decrypt_grace-packet_encrypt nonce_tag toy_kdf 7 client server 4 hello wire 9
      nonce_tag-Opens client-IsPaired (omega arith) refl

packet_decrypt_grace_twice_example :
    (packet_decrypt_grace nonce_tag 7
      (packet_decrypt_grace nonce_tag 7 (on_receive_rekey toy_kdf server 9) 4 0 wire).1
      4
      0
      wire).0
    ≡ some hello
unfolding on_receive_rekey activate_rekey packet_decrypt_grace spend_grace build_nonce bytes_le
packet_decrypt_grace_twice_example =
    packet_decrypt_grace_twice nonce_tag toy_kdf 7 (on_receive_rekey toy_kdf server 9) 4 0 wire
      hello (omega arith) refl
