-- ===== src/Api/Buffer/Tests.antt =====
-- Runs of the message buffer of src/api.cpp.
use netudp.Base.{◌≡◌, arith}
use netudp.Base.Bits.{test_bit, or_shifted}
use netudp.Base.Bytes.{bytes_le, read_le}
use netudp.Base.Memory.{copy_at, bytes_from}
use netudp.Api.Buffer.{
  Buffer, write_checked, write_word, read_word, write_varint, read_varint, varint_bytes,
  varint_loop,
}

abbrev new_buffer : Buffer
new_buffer = record { bytes = λ i. 0; position = 3; capacity = 8 }

word_run : (read_word 4 (record (write_word 4 new_buffer 70000) { position = 3 })).0 ≡ 70000
unfolding write_word write_checked read_word bytes_le read_le bytes_from copy_at
word_run = ground arith

varint_run : (read_varint (record (write_varint new_buffer 300) { position = 3 })).0 ≡ 300
unfolding write_varint write_checked varint_bytes read_varint varint_loop copy_at test_bit
    or_shifted
varint_run = ground arith
