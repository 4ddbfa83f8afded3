-- ===== src/Crypto/Epoch.antt =====
-- src/crypto/packet_crypto.h and packet_crypto.cpp: the keys and counters of a connection, packet
-- encryption and decryption with replay protection, and the change of keys.
-- The AEAD behind `g_aead_encrypt` and `g_aead_decrypt` and the keyed hash of the vendored
-- monocypher are the parameters `Aead` and `Kdf`. Times are `double`s.
pub mod Exchange
pub mod Nonces
pub mod Rekey
pub mod NonceTag
mod Tests
use netudp.Base.{
  ℕ, ◌+◌, ◌-◌, ◌%◌, ◌^◌, ◌≡◌, Bool, true, false, not, ◌&&◌, ◌||◌, ltb, leb, ◌==◌, if◌then◌else◌,
  Option, some, none, List, [], ◌∷◌, ◌++◌,
}
use netudp.Base.Bytes.{bytes_le}
use netudp.Base.Float64.{Float64}
use netudp.Base.Lists.{length, replicate}
use netudp.Base.Words.{u32_mod, u64_mod}
use netudp.Crypto.Replay
use netudp.Crypto.Replay.{ReplayProtection, is_duplicate, advance}

abbrev pub Bytes : Type 0
Bytes = List ℕ

-- `g_aead_encrypt(key, nonce, aad, aad_len, pt, pt_len, ct)` and its inverse: `none` is the
-- negative result.
pub record Aead : Type 0 where
  pub encrypt : Bytes → Bytes → Bytes → Bytes → Option Bytes
  pub decrypt : Bytes → Bytes → Bytes → Bytes → Option Bytes

-- `crypto_blake2b_keyed(new_key, 32, old_key, 32, info, 16)`
abbrev pub Kdf : Type 0
Kdf = Bytes → Bytes → Bytes

abbrev pub rekey_nonce_threshold : ℕ
rekey_nonce_threshold = 2 ^ 30

abbrev pub rekey_bytes_threshold : ℕ
rekey_bytes_threshold = 2 ^ 30

abbrev pub rekey_epoch_seconds : ℕ
rekey_epoch_seconds = 3600

abbrev pub rekey_grace_packets : ℕ
rekey_grace_packets = 256

-- `PACKET_PREFIX_DATA_REKEY`
abbrev pub packet_prefix_data_rekey : ℕ
packet_prefix_data_rekey = 0x0c

pub record KeyEpoch (T : Type 0) : Type 0 where
  pub tx_key : Bytes
  pub rx_key : Bytes
  pub old_rx_key : Bytes
  pub tx_nonce_counter : ℕ
  pub bytes_transmitted : ℕ
  pub epoch_start_time : T
  pub epoch_number : ℕ
  pub grace_packets_remaining : ℕ
  pub rekey_pending : Bool
  pub replay : ReplayProtection

-- 24 bytes: the counter, then zeros.
unfoldable pub build_nonce : ℕ → Bytes
build_nonce counter = bytes_le 8 counter ++ replicate 16 0

-- `NETUDP_VERSION_INFO`, "NETUDP 1.01" and two zero bytes
abbrev pub version_info : Bytes
version_info = 78 ∷ 69 ∷ 84 ∷ 85 ∷ 68 ∷ 80 ∷ 32 ∷ 49 ∷ 46 ∷ 48 ∷ 49 ∷ 0 ∷ 0 ∷ []

unfoldable pub build_aad : ℕ → ℕ → Bytes
build_aad protocol_id prefix_byte = version_info ++ (bytes_le 8 protocol_id ++ (prefix_byte ∷ []))

-- "netudp-rekey"
abbrev pub rekey_label : Bytes
rekey_label = 0x6e ∷ 0x65 ∷ 0x74 ∷ 0x75 ∷ 0x64 ∷ 0x70 ∷ 0x2d ∷ 0x72 ∷ 0x65 ∷ 0x6b ∷ 0x65 ∷ 0x79 ∷ []

unfoldable pub derive_key : Kdf → Bytes → ℕ → Bytes
derive_key kdf old_key epoch_number = kdf old_key (rekey_label ++ bytes_le 4 epoch_number)

unfoldable pub should_rekey : (F : Float64) → KeyEpoch F.Carrier → F.Carrier → Bool
should_rekey F epoch current_time =
    leb rekey_nonce_threshold epoch.tx_nonce_counter
    || (leb rekey_bytes_threshold epoch.bytes_transmitted
        || (F.lt (F.of_nat 0) epoch.epoch_start_time
            && F.le (F.of_nat rekey_epoch_seconds) (F.sub current_time epoch.epoch_start_time)))

module _ {T : Type 0} where
  unfoldable pub prepare_rekey : KeyEpoch T → KeyEpoch T
  prepare_rekey epoch = record epoch { old_rx_key = epoch.rx_key; rekey_pending = true }

  unfoldable pub activate_rekey : Kdf → KeyEpoch T → T → KeyEpoch T
  activate_rekey kdf epoch current_time =
      let next_epoch = (epoch.epoch_number + 1) % u32_mod in
      record epoch {
        tx_key = derive_key kdf epoch.tx_key next_epoch;
        rx_key = derive_key kdf epoch.rx_key next_epoch;
        tx_nonce_counter = 0;
        bytes_transmitted = 0;
        epoch_start_time = current_time;
        epoch_number = next_epoch;
        grace_packets_remaining = rekey_grace_packets;
        rekey_pending = false;
        replay = Replay.reset;
      }

  unfoldable pub on_receive_rekey : Kdf → KeyEpoch T → T → KeyEpoch T
  on_receive_rekey kdf epoch current_time =
      activate_rekey kdf (record epoch { old_rx_key = epoch.rx_key }) current_time

  module _ (aead : Aead) (protocol_id : ℕ) where
    -- The ciphertext, if any, and the new state. Null pointers and negative lengths have no
    -- counterpart.
    unfoldable pub packet_encrypt : KeyEpoch T → ℕ → Bytes → Option Bytes × KeyEpoch T
    packet_encrypt epoch prefix_byte pt =
        elim (aead.encrypt epoch.tx_key (build_nonce epoch.tx_nonce_counter)
          (build_aad protocol_id prefix_byte) pt) [
            | none ↦ (none, epoch)
            | some ct ↦ (
              some ct,
              record epoch {
                tx_nonce_counter = (epoch.tx_nonce_counter + 1) % u64_mod;
                bytes_transmitted = (epoch.bytes_transmitted + length pt) % u64_mod;
              },
            )
          ]

    -- The last step of `packet_decrypt`: the nonce is marked only when the packet is authentic.
    unfoldable pub accept_plain : KeyEpoch T → ℕ → Option Bytes → Option Bytes × KeyEpoch T
    accept_plain epoch nonce none = (none, epoch)
    accept_plain epoch nonce (some pt) =
        (some pt, record epoch { replay = advance epoch.replay nonce })

    unfoldable pub packet_decrypt : KeyEpoch T → ℕ → ℕ → Bytes → Option Bytes × KeyEpoch T
    packet_decrypt epoch prefix_byte nonce_counter ct =
        if leb (length ct) 0 || is_duplicate epoch.replay nonce_counter
        then (none, epoch)
        else accept_plain epoch nonce_counter (
            aead.decrypt epoch.rx_key (build_nonce nonce_counter)
              (build_aad protocol_id prefix_byte) ct)

    -- The last step of `packet_decrypt_grace`: the old key is wiped with the last packet.
    unfoldable pub spend_grace : KeyEpoch T → Option Bytes → Option Bytes × KeyEpoch T
    spend_grace epoch none = (none, epoch)
    spend_grace epoch (some pt) = (
      some pt,
      record epoch {
        grace_packets_remaining = epoch.grace_packets_remaining - 1;
        old_rx_key =
            if epoch.grace_packets_remaining - 1 == 0 then replicate 32 0 else epoch.old_rx_key;
      },
    )

    unfoldable pub packet_decrypt_grace : KeyEpoch T → ℕ → ℕ → Bytes → Option Bytes × KeyEpoch T
    packet_decrypt_grace epoch prefix_byte nonce_counter ct =
        if leb (length ct) 0 || (epoch.grace_packets_remaining == 0)
        then (none, epoch)
        else spend_grace epoch (
            aead.decrypt epoch.old_rx_key (build_nonce nonce_counter)
              (build_aad protocol_id prefix_byte) ct)
