-- ===== src/Replication/Half.antt =====
-- src/replication/replicate.cpp, `f32_to_half` and `half_to_f32`: the conversion between the bits of a
-- `float` and of a half-precision number. The fields that `|` joins do not overlap, so it is a sum.
use netudp.Base.{ℕ, ◌+◌, ◌-◌, ◌*◌, ◌/◌, ◌%◌, ◌^◌, ◌<◌, ◌≡◌, ◌==◌, leb, if◌then◌else◌, arith}

-- `exp <= 0` and `exp >= 31`, for the exponent field `e` less 127 plus 15
unfoldable pub f32_to_half : ℕ → ℕ
f32_to_half bits =
    let sign = bits / 2 ^ 31 % 2 * 2 ^ 15 in
    let e = bits / 2 ^ 23 % 2 ^ 8 in
    let mant = bits / 2 ^ 13 % 2 ^ 10 in
    if leb e 112
    then sign
    else if leb 143 e
    then sign + 0x7c00
    else sign + (e - 112) * 2 ^ 10 + mant

unfoldable pub half_to_f32 : ℕ → ℕ
half_to_f32 h =
    let sign = h / 2 ^ 15 % 2 * 2 ^ 31 in
    let exp = h / 2 ^ 10 % 2 ^ 5 in
    let mant = h % 2 ^ 10 in
    if exp == 0
    then sign
    else if exp == 31
    then sign + 0x7f800000 + mant * 2 ^ 13
    else sign + (exp + 112) * 2 ^ 23 + mant * 2 ^ 13

-- A half-precision number survives the way to `float` and back; without its mantissa if it is zero
-- or subnormal, an infinity or not a number.
pub f32_to_half-half_to_f32 :
    (h : ℕ)
    → h < 2 ^ 16
    → f32_to_half (half_to_f32 h) ≡ (
        let exp = h / 2 ^ 10 % 2 ^ 5 in
        if exp == 0
        then h / 2 ^ 15 * 2 ^ 15
        else if exp == 31
        then h / 2 ^ 15 * 2 ^ 15 + 0x7c00
        else h)
unfolding f32_to_half half_to_f32
f32_to_half-half_to_f32 h lt = ground (arith, lt)

-- A `float` within the normal range of half precision comes back with its last 13 bits cut off.
pub half_to_f32-f32_to_half :
    (bits : ℕ)
    → bits < 2 ^ 32
    → 112 < bits / 2 ^ 23 % 2 ^ 8
    → bits / 2 ^ 23 % 2 ^ 8 < 143
    → half_to_f32 (f32_to_half bits) ≡ bits / 2 ^ 13 * 2 ^ 13
unfolding f32_to_half half_to_f32
half_to_f32-f32_to_half bits lt lo hi = ground (arith, lt, lo, hi)
