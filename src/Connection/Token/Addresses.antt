-- ===== src/Connection/Token/Addresses.antt =====
-- src/connection/connect_token.cpp: the addresses of a token are read back as they were written.
use netudp.Base.{
  ℕ, zero, suc, ◌+◌, ◌-◌, ◌*◌, ◌≤◌, ◌<◌, ◌≡◌, ◌⊎◌, sym, ap, ap₂, ◌∙◌, subst, ◌==◌, ltb, true,
  if◌then◌else◌, Array, update, some, [], ◌∷◌, ◌++◌, inl, inr, Bool-cases, if-elim, arith,
}
use mathlib.Core.List.{append_assoc}
use netudp.Base.Bytes.{bytes_le, read_le, length-bytes_le, read_le-bytes_le}
use netudp.Base.Lists.{length, take, drop, replicate, length-append, take-append, drop-append}
use netudp.Base.Words.{u16_mod}
use netudp.Core.Address.{Address, address_ipv4, address_ipv6}
use netudp.Connection.Token.{
  Bytes, write_address_to_token, read_typed, read_address, write_addresses, read_on, read_addresses,
}

-- An address of 4 or of 16 bytes, with nothing behind its bytes, as `netudp_parse_address` makes them.
abbrev pub IsAddress : Address → Type 0
IsAddress a =
    (a.port < u16_mod)
    × ((b : Bytes) × (((a.addr_type ≡ address_ipv4)
            × ((length b ≡ 4) × (a.bytes ≡ b ++ replicate 12 0)))
          ⊎ ((a.addr_type ≡ address_ipv6) × ((length b ≡ 16) × (a.bytes ≡ b ++ replicate 0 0)))))

pub take-length : (b c : Bytes) (n : ℕ) → length b ≡ n → take n (b ++ c) ≡ b
take-length b c n h = ap (λ (k : ℕ). take k (b ++ c)) (sym h) ∙ take-append b c

pub drop-length : (b c : Bytes) (n : ℕ) → length b ≡ n → drop n (b ++ c) ≡ c
drop-length b c n h = ap (λ (k : ℕ). drop k (b ++ c)) (sym h) ∙ drop-append b c

-- An address with these bytes.
abbrev address_of : ℕ → ℕ → ℕ → Bytes → Address
address_of t n port b = record { bytes = b ++ replicate (16 - n) 0; port = port; addr_type = t }

-- What is read behind the type.
read_typed-write :
    (t n port : ℕ) (b rest : Bytes)
    → length b ≡ n
    → port < u16_mod
    → read_typed t n (b ++ (bytes_le 2 port ++ rest)) ≡ some (address_of t n port b, 1 + n + 2)
unfolding read_typed
read_typed-write t n port b rest h hp =
    if-elim (λ r. r ≡ some (address_of t n port b, 1 + n + 2))
      (ltb (1 + length (b ++ (bytes_le 2 port ++ rest))) (1 + n + 2))
      (λ short. ground (
        arith,
        short,
        h,
        length-append b (bytes_le 2 port ++ rest),
        length-append (bytes_le 2 port) rest,
        length-bytes_le 2 port,
      ))
      (λ enough.
        ap₂
          (λ (d : Bytes) (p : ℕ).
            some (record { bytes = d ++ replicate (16 - n) 0; port = p; addr_type = t }, 1 + n + 2))
          (take-length b _ n h)
          (ap (read_le 2) (drop-length b _ n h) ∙ read_le-bytes_le 2 port rest (omega (arith, hp))))

-- The same for the bytes that are written of such an address.
read_typed-written :
    (t n port : ℕ) (b rest : Bytes)
    → length b ≡ n
    → port < u16_mod
    → let written = take n (b ++ replicate (16 - n) 0) ++ bytes_le 2 port in
      read_typed t n (written ++ rest) ≡ some (address_of t n port b, suc (length written))
read_typed-written t n port b rest h hp =
    ap (λ (w : Bytes). read_typed t n ((w ++ bytes_le 2 port) ++ rest)) whole
    ∙ ap (read_typed t n) (append_assoc b (bytes_le 2 port) rest)
    ∙ read_typed-write t n port b rest h hp
    ∙ ap (λ (k : ℕ). some (address_of t n port b, k))
        (omega (arith, length-append b (bytes_le 2 port), length-bytes_le 2 port, h))
    ∙ ap (λ (w : Bytes). some (address_of t n port b, suc (length (w ++ bytes_le 2 port))))
        (sym whole)
  where
    whole : take n (b ++ replicate (16 - n) 0) ≡ b
    whole = take-length b (replicate (16 - n) 0) n h

abbrev IsReadBack : Bytes → Address → Type 0
IsReadBack rest a =
    read_address (write_address_to_token a ++ rest) ≡ some (a, length (write_address_to_token a))

pub read_address-write_address_to_token :
    (a : Address) (rest : Bytes)
    → IsAddress a
    → read_address (write_address_to_token a ++ rest) ≡ some (a, length (write_address_to_token a))
unfolding read_address write_address_to_token
read_address-write_address_to_token a rest (hp, (b, inl (ht, (hl, hd)))) =
    subst (IsReadBack rest) (sym (λ i. record { bytes = hd i; port = a.port; addr_type = ht i }))
      (read_typed-written address_ipv4 4 a.port b rest hl hp)
read_address-write_address_to_token a rest (hp, (b, inr (ht, (hl, hd)))) =
    subst (IsReadBack rest) (sym (λ i. record { bytes = hd i; port = a.port; addr_type = ht i }))
      (read_typed-written address_ipv6 16 a.port b rest hl hp)

-- The addresses after a loop that reads them.
abbrev pub filled : Array Address → ℕ → ℕ → Array Address → Array Address
filled addresses i n before =
    λ j. if ltb j i then before j else if ltb j (i + n) then addresses j else before j

pub read_addresses-write_addresses :
    (addresses : Array Address) (i n : ℕ) (before : Array Address) (rest : Bytes)
    → ((j : ℕ) → i ≤ j → j < i + n → IsAddress (addresses j))
    → read_addresses i n before (write_addresses addresses i n ++ rest)
      ≡ some (filled addresses i n before, rest)
unfolding read_addresses write_addresses read_on
read_addresses-write_addresses addresses i zero before rest h =
    λ k. some (λ j. same addresses before i j k, rest)
  where
    same : (addresses before : Array Address) (i j : ℕ) → before j ≡ filled addresses i 0 before j
    same addresses before i j = ground arith
read_addresses-write_addresses addresses i (suc n) before rest h =
    let w = write_address_to_token (addresses i) in
    let more = write_addresses addresses (i + 1) n ++ rest in
    let others = read_addresses (i + 1) n in
    ap (λ (bs : Bytes). read_on others before i bs (read_address bs))
      (append_assoc w (write_addresses addresses (i + 1) n) rest)
    ∙ ap (read_on others before i (w ++ more))
        (read_address-write_address_to_token (addresses i) more (h i (omega arith) (omega arith)))
    ∙ ap (others (update before i (addresses i))) (drop-append w more)
    ∙ read_addresses-write_addresses addresses (i + 1) n (update before i (addresses i)) rest
        (λ j lo up. h j (omega (arith, lo)) (omega (arith, up)))
    ∙ λ k. some (λ j. same addresses before i n j k, rest)
  where
    same :
        (addresses before : Array Address) (i n j : ℕ)
        → filled addresses (i + 1) n (update before i (addresses i)) j
          ≡ filled addresses i (suc n) before j
    same addresses before i n j = elim (Bool-cases (j == i)) [
      | inl e ↦ ground (arith, e, ap addresses (at j i e))
      | inr ne ↦ ground (arith, ne)
    ]
      where
        at : (j i : ℕ) → (j == i) ≡ true → j ≡ i
        at j i e = ground (arith, e)

take-le : (k : ℕ) (xs : Bytes) → length (take k xs) ≤ k
take-le zero xs = omega arith
take-le (suc k) [] = omega arith
take-le (suc k) (x ∷ xs) = omega (arith, take-le k xs)

write_address-le : (a : Address) → length (write_address_to_token a) ≤ 19
unfolding write_address_to_token
write_address-le a = omega (
  arith,
  length-append
      (if a.addr_type == address_ipv4
        then take 4 a.bytes
        else if a.addr_type == address_ipv6
        then take 16 a.bytes
        else [])
      (bytes_le 2 a.port),
  length-bytes_le 2 a.port,
  if-elim (λ (b : Bytes). length b ≤ 16) (a.addr_type == address_ipv4) {x = take 4 a.bytes}
      {y = if a.addr_type == address_ipv6 then take 16 a.bytes else []}
      (λ v4. omega (arith, take-le 4 a.bytes))
      (λ other.
        if-elim (λ (b : Bytes). length b ≤ 16) (a.addr_type == address_ipv6) {x = take 16 a.bytes}
          {y = []} (λ v6. take-le 16 a.bytes) (λ neither. omega arith)),
)

pub write_addresses-le :
    (addresses : Array Address) (i n : ℕ) → length (write_addresses addresses i n) ≤ n * 19
unfolding write_addresses
write_addresses-le addresses i zero = omega arith
write_addresses-le addresses i (suc n) = omega (
  arith,
  length-append (write_address_to_token (addresses i)) (write_addresses addresses (i + 1) n),
  write_address-le (addresses i),
  write_addresses-le addresses (i + 1) n,
)
