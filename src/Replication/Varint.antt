-- ===== src/Replication/Varint.antt =====
-- src/replication/replicate.cpp, the numbers of variable length: seven bits to a byte, low bits first,
-- the top bit set where more bytes follow.
pub mod RoundTrip
use netudp.Base.{
  ℕ, zero, suc, ◌+◌, ◌*◌, ◌/◌, ◌%◌, ◌^◌, ◌==◌, leb, Bool, true, false, if◌then◌else◌, Option, some,
  none, List, [], ◌∷◌,
}
use netudp.Base.Bits.{test_bit, or_shifted}
use netudp.Base.Words.{u64_mod}

-- Ten rounds are enough for 64 bits.
abbrev pub max_bytes : ℕ
max_bytes = 10

-- The `do` loop, on fuel; `byte |= 0x80` adds the bit that `val & 0x7F` does not have.
unfoldable pub encode_loop : ℕ → ℕ → List ℕ
encode_loop zero val = []
encode_loop (suc fuel) val =
    let rest = encode_loop fuel (val / 128) in
    if val / 128 == 0 then (val % 128) ∷ [] else (val % 128 + 128) ∷ rest

unfoldable pub varint_encode : ℕ → List ℕ
varint_encode val = encode_loop max_bytes val

-- `result |= static_cast<uint64_t>(byte & 0x7F) << shift`
abbrev pub merge : ℕ → ℕ → ℕ → ℕ
merge result byte shift = or_shifted shift result (byte % 128) % u64_mod

-- The number of bytes read and the value; the list holds the bytes that are not read yet.
unfoldable pub decode_loop : List ℕ → ℕ → ℕ → ℕ → Option (ℕ × ℕ)
decode_loop [] result shift pos = none
decode_loop (byte ∷ bs) result shift pos =
    let more = decode_loop bs (merge result byte shift) (shift + 7) (pos + 1) in
    if leb 64 shift
    then none
    else if test_bit byte 7
    then more
    else some (pos + 1, merge result byte shift)

unfoldable pub varint_decode : List ℕ → Option (ℕ × ℕ)
varint_decode bs = decode_loop bs 0 0 0
