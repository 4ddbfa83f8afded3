-- ===== src/Session/Packet/Tests.antt =====
-- Runs of the packet path of src/server.cpp.
use netudp.Base.{ℕ, ◌≡◌, refl, false, List, [], ◌∷◌, ◌++◌, arith}
use netudp.Base.Lists.{length}
use netudp.Crypto.Replay
use netudp.Crypto.Replay.{advance}
use netudp.Crypto.Epoch.{Bytes, Kdf, KeyEpoch}
use netudp.Crypto.Epoch.NonceTag.{nonce_tag, nonce_tag-Opens, nonce_tag-SealsNonce}
use netudp.Session.Packet.{expected_nonce, open_all, seal_all}
use netudp.Session.Packet.InOrder.{Seals, open_all_in_order}
use netudp.Session.Packet.Loss.{open_all_after_loss}

abbrev client : KeyEpoch ℕ
client = record {
  tx_key = 1 ∷ [];
  rx_key = 2 ∷ [];
  old_rx_key = [];
  tx_nonce_counter = 0;
  bytes_transmitted = 0;
  epoch_start_time = 0;
  epoch_number = 0;
  grace_packets_remaining = 0;
  rekey_pending = false;
  replay = Replay.reset;
}

abbrev server : KeyEpoch ℕ
server = record client { tx_key = 2 ∷ []; rx_key = 1 ∷ [] }

-- The client after a packet that the server never got.
abbrev client_ahead : KeyEpoch ℕ
client_ahead = record client { tx_nonce_counter = 1 }

abbrev toy_kdf : Kdf
toy_kdf key info = key ++ info

abbrev packets : List (ℕ × Bytes)
packets = (4, 104 ∷ 105 ∷ []) ∷ (5, 42 ∷ []) ∷ []

nonce_tag-Seals : Seals nonce_tag
nonce_tag-Seals key nonce aad pt = (length nonce ∷ (nonce ++ pt), refl, omega arith)

open_all_in_order_example :
    (open_all nonce_tag toy_kdf 7 9 server (seal_all nonce_tag 7 client packets)).0
    ≡ (104 ∷ 105 ∷ []) ∷ (42 ∷ []) ∷ []
open_all_in_order_example =
    open_all_in_order nonce_tag toy_kdf 7 9 client server packets nonce_tag-Opens nonce_tag-Seals
      refl refl refl (omega arith) (omega arith)

open_all_after_loss_example :
    open_all nonce_tag toy_kdf 7 9 server (seal_all nonce_tag 7 client_ahead packets) ≡ ([], server)
unfolding expected_nonce Replay.reset
open_all_after_loss_example =
    open_all_after_loss nonce_tag toy_kdf 7 9 client_ahead server packets nonce_tag-SealsNonce refl
      refl (omega arith) (omega arith)
