-- ===== src/Api/Buffer/ReadBack.antt =====
-- src/api.cpp: a word is read back from a message buffer as it was written.
use netudp.Base.{ℕ, ◌+◌, ◌^◌, ◌<◌, ◌≡◌, sym, ap, ◌∙◌, ltb, if◌then◌else◌, [], if-elim, arith}
use mathlib.Core.List.{append-nil}
use netudp.Base.Bytes.{bytes_le, read_le, length-bytes_le, read_le-bytes_le}
use netudp.Base.Memory.{copy_at, bytes_from, bytes_from-copy_at}
use netudp.Api.Buffer.{Buffer, write_checked, write_word, read_word}

-- Where a word of `k` bytes fits behind the position, reading at the old position gives the word, and
-- the reader is where the writer is; where it does not fit, nothing is written, and 0 is read.
pub read_word-write_word :
    (k : ℕ) (buf : Buffer) (v : ℕ)
    → v < 256 ^ k
    → let written = write_word k buf v in
      read_word k (record written { position = buf.position })
      ≡ (if ltb buf.capacity (buf.position + k) then (0, buf) else (v, written))
unfolding write_word write_checked read_word
read_word-write_word k buf v h =
    if-elim
      (λ (w : Buffer).
        read_word k (record w { position = buf.position })
        ≡ (if ltb buf.capacity (buf.position + k) then (0, buf) else (v, w)))
      (ltb buf.capacity (buf.position + k)) (λ full. ground (arith, full))
      (λ room. ground (arith, room, value buf, length-bytes_le k v))
  where
    value :
        (buf : Buffer)
        → read_le k (bytes_from (copy_at buf.bytes buf.position (bytes_le k v)) buf.position k) ≡ v
    value buf =
        ap
          (λ (n : ℕ).
            read_le k (bytes_from (copy_at buf.bytes buf.position (bytes_le k v)) buf.position n))
          (sym (length-bytes_le k v))
        ∙ ap (read_le k) (
            bytes_from-copy_at buf.bytes buf.position (bytes_le k v)
            ∙ sym (append-nil (bytes_le k v)))
        ∙ read_le-bytes_le k v [] h
