-- ===== src/Api/Buffer.antt =====
-- src/api.cpp, `netudp_buffer_write_u8` to `netudp_buffer_read_varint`: the cursor of a message buffer. A
-- floating-point number is written and read as the word with its bits. A null buffer has no
-- counterpart.
pub mod ReadBack
mod Tests
use netudp.Base.{
  ℕ, zero, suc, ◌+◌, ◌-◌, ◌/◌, ◌%◌, ◌^◌, ltb, leb, Bool, true, false, not, if◌then◌else◌, Array,
  List, [], ◌∷◌, ◌++◌,
}
use netudp.Base.Bits.{test_bit, or_shifted}
use netudp.Base.Bytes.{bytes_le, read_le}
use netudp.Base.Lists.{length, take}
use netudp.Base.Memory.{copy_at, bytes_from}
use netudp.Base.Words.{u16_mod, u32_mod}

pub record Buffer : Type 0 where
  pub bytes : Array ℕ
  pub position : ℕ
  pub capacity : ℕ

-- Bytes at the position, if there is room for `needed` of them; else nothing happens.
unfoldable pub write_checked : ℕ → Buffer → List ℕ → Buffer
write_checked needed buf bs = if ltb buf.capacity (buf.position + needed) then buf else record buf {
  bytes = copy_at buf.bytes buf.position bs;
  position = buf.position + length bs;
}

-- The `k` bytes of a word: 1, 2, 4 and 8 for `u8`, `u16`, `u32` or `f32`, and `u64` or `f64`.
unfoldable pub write_word : ℕ → Buffer → ℕ → Buffer
write_word k buf v = write_checked k buf (bytes_le k v)

-- The word, 0 where the buffer ends before it.
unfoldable pub read_word : ℕ → Buffer → ℕ × Buffer
read_word k buf = if ltb buf.capacity (buf.position + k) then (0, buf) else (
  read_le k (bytes_from buf.bytes buf.position k),
  record buf { position = buf.position + k },
)

-- The loop on `uv`, on fuel.
unfoldable pub varint_bytes : ℕ → ℕ → List ℕ
varint_bytes zero uv = []
varint_bytes (suc fuel) uv =
    let rest = varint_bytes fuel (uv / 128) in
    if ltb 0x7f uv then (uv % 128 + 128) ∷ rest else uv ∷ []

-- `v` is the two's complement word; its five groups of seven bits are enough fuel.
unfoldable pub write_varint : Buffer → ℕ → Buffer
write_varint buf v = write_checked 5 buf (varint_bytes 5 v)

unfoldable pub write_bytes : Buffer → List ℕ → Buffer
write_bytes buf bs = write_checked (length bs) buf bs

-- `str` is without its closing zero.
unfoldable pub write_string : Buffer → List ℕ → ℕ → Buffer
write_string buf str max_len =
    let chars = take max_len str in
    write_checked (2 + length chars) buf (bytes_le 2 (length chars % u16_mod) ++ chars)

-- The loop, with as much fuel as there are bytes.
unfoldable pub varint_loop : ℕ → Buffer → ℕ → ℕ → ℕ × Buffer
varint_loop zero buf result shift = (result, buf)
varint_loop (suc fuel) buf result shift =
    let byte = buf.bytes buf.position in
    let result' = or_shifted shift result (byte % 128) % u32_mod in
    let buf' = record buf { position = buf.position + 1 } in
    let more = varint_loop fuel buf' result' (shift + 7) in
    if not (test_bit byte 7)
    then (result', buf')
    else if leb 35 (shift + 7)
    then (result', buf')
    else more

unfoldable pub read_varint : Buffer → ℕ × Buffer
read_varint buf = varint_loop (buf.capacity - buf.position) buf 0 0
