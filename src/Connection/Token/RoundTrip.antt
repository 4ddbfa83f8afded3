-- ===== src/Connection/Token/RoundTrip.antt =====
-- src/connection/connect_token.cpp: the private part of a token is read back as it was written.
use netudp.Base.{
  ℕ, zero, suc, ◌+◌, ◌-◌, ◌≤◌, ◌<◌, ◌≡◌, refl, sym, ap, ◌∙◌, ◌==◌, ltb, Option, some, ◌++◌,
  Bool-cases, inl, inr, if-elim, arith,
}
use mathlib.Core.List.{append_assoc}
use netudp.Base.Bytes.{bytes_le, read_le, length-bytes_le, read_le-bytes_le}
use netudp.Base.Lists.{length, take, drop, replicate, length-append}
use netudp.Base.Words.{u32_mod, u64_mod}
use netudp.Core.Address.{address_zero}
use netudp.Connection.Token.{
  Bytes, PrivateConnectToken, token_private_size, max_servers_per_token, write_addresses,
  private_data, serialize_private_token, read_addresses, private_token, deserialize_private_token,
}
use netudp.Connection.Token.Addresses.{
  IsAddress, take-length, drop-length, filled, read_addresses-write_addresses, write_addresses-le,
}

-- A private token that the code can write and read: at most 32 addresses, and none of them behind
-- these.
pub record IsToken (t : PrivateConnectToken) : Type 0 where
  pub client_id : t.client_id < u64_mod
  pub timeout_seconds : t.timeout_seconds < u32_mod
  pub some_addresses : 0 < t.num_server_addresses
  pub few_addresses : t.num_server_addresses ≤ max_servers_per_token
  pub addresses : (i : ℕ) → i < t.num_server_addresses → IsAddress (t.server_addresses i)
  pub no_more : (i : ℕ) → t.num_server_addresses ≤ i → t.server_addresses i ≡ address_zero
  pub client_key : length t.client_to_server_key ≡ 32
  pub server_key : length t.server_to_client_key ≡ 32
  pub user : length t.user_data ≡ 256

private_data-le :
    (t : PrivateConnectToken) → IsToken t → length (private_data t) ≤ token_private_size
unfolding private_data
private_data-le t h = omega (
  arith,
  lengths (bytes_le 8 t.client_id) (bytes_le 4 t.timeout_seconds)
      (bytes_le 4 t.num_server_addresses)
      (write_addresses t.server_addresses 0 t.num_server_addresses) t.client_to_server_key
      t.server_to_client_key t.user_data,
  length-bytes_le 8 t.client_id,
  length-bytes_le 4 t.timeout_seconds,
  length-bytes_le 4 t.num_server_addresses,
  write_addresses-le t.server_addresses 0 t.num_server_addresses,
  h.few_addresses,
  h.client_key,
  h.server_key,
  h.user,
)
  where
    lengths :
        (a b c d e f g : Bytes)
        → length (a ++ (b ++ (c ++ (d ++ (e ++ (f ++ g))))))
          ≡ length a + length b + length c + length d + length e + length f + length g
    lengths a b c d e f g = omega (
      arith,
      length-append a (b ++ (c ++ (d ++ (e ++ (f ++ g))))),
      length-append b (c ++ (d ++ (e ++ (f ++ g)))),
      length-append c (d ++ (e ++ (f ++ g))),
      length-append d (e ++ (f ++ g)),
      length-append e (f ++ g),
      length-append f g,
    )

length-replicate : (n : ℕ) → length (replicate {A = ℕ} n 0) ≡ n
length-replicate zero = refl
length-replicate (suc n) = ap suc (length-replicate n)

-- The private data with the zeros behind it.
abbrev padded : PrivateConnectToken → Bytes → Bytes
padded t zeros =
    bytes_le 8 t.client_id
    ++ (bytes_le 4 t.timeout_seconds
        ++ (bytes_le 4 t.num_server_addresses
            ++ (write_addresses t.server_addresses 0 t.num_server_addresses
                ++ (t.client_to_server_key ++ (t.server_to_client_key ++ (t.user_data ++ zeros))))))

private_data-padded :
    (t : PrivateConnectToken) (zeros : Bytes) → private_data t ++ zeros ≡ padded t zeros
unfolding private_data
private_data-padded t zeros =
    assoc (bytes_le 8 t.client_id) (bytes_le 4 t.timeout_seconds)
      (bytes_le 4 t.num_server_addresses)
      (write_addresses t.server_addresses 0 t.num_server_addresses) t.client_to_server_key
      t.server_to_client_key t.user_data zeros
  where
    assoc :
        (a b c d e f g z : Bytes)
        → (a ++ (b ++ (c ++ (d ++ (e ++ (f ++ g)))))) ++ z
          ≡ a ++ (b ++ (c ++ (d ++ (e ++ (f ++ (g ++ z))))))
    assoc a b c d e f g z =
        append_assoc a (b ++ (c ++ (d ++ (e ++ (f ++ g))))) z
        ∙ ap (◌++◌ a) (
            append_assoc b (c ++ (d ++ (e ++ (f ++ g)))) z
            ∙ ap (◌++◌ b) (
                append_assoc c (d ++ (e ++ (f ++ g))) z
                ∙ ap (◌++◌ c) (
                    append_assoc d (e ++ (f ++ g)) z
                    ∙ ap (◌++◌ d) (append_assoc e (f ++ g) z ∙ ap (◌++◌ e) (append_assoc f g z)))))

deserialize-private_token :
    (buf : Bytes) (num : ℕ)
    → read_le 4 (drop 12 buf) ≡ num
    → token_private_size ≤ length buf
    → 0 < num
    → num ≤ max_servers_per_token
    → deserialize_private_token buf
      ≡ private_token buf num (read_addresses 0 num (λ i. address_zero) (drop 16 buf))
unfolding deserialize_private_token
deserialize-private_token buf num e big pos few =
    if-elim
      (λ (r : Option PrivateConnectToken).
        r ≡ private_token buf num (read_addresses 0 num (λ i. address_zero) (drop 16 buf)))
      (ltb (length buf) token_private_size) (λ short. ground (arith, short, big))
      (λ enough.
        if-elim
          (λ (r : Option PrivateConnectToken).
            r ≡ private_token buf num (read_addresses 0 num (λ i. address_zero) (drop 16 buf)))
          (read_le 4 (drop 12 buf) == 0) (λ no. ground (arith, no, e, pos))
          (λ yes.
            if-elim
              (λ (r : Option PrivateConnectToken).
                r ≡ private_token buf num (read_addresses 0 num (λ i. address_zero) (drop 16 buf)))
              (ltb max_servers_per_token (read_le 4 (drop 12 buf)))
              (λ many. ground (arith, many, e, few))
              (λ ok.
                ap
                  (λ (k : ℕ).
                    private_token buf k (read_addresses 0 k (λ i. address_zero) (drop 16 buf)))
                  e)))

pub deserialize-padded :
    (t : PrivateConnectToken) (zeros : Bytes)
    → IsToken t
    → token_private_size ≤ length (padded t zeros)
    → deserialize_private_token (padded t zeros) ≡ some t
unfolding private_token bytes_le
deserialize-padded t zeros h big =
    deserialize-private_token (padded t zeros) t.num_server_addresses
      (read_le-bytes_le 4 t.num_server_addresses
        (write_addresses t.server_addresses 0 t.num_server_addresses
          ++ (t.client_to_server_key ++ (t.server_to_client_key ++ (t.user_data ++ zeros))))
        (omega (arith, h.few_addresses)))
      big h.some_addresses h.few_addresses
    ∙ ap (private_token (padded t zeros) t.num_server_addresses) (
        read_addresses-write_addresses t.server_addresses 0 t.num_server_addresses
          (λ i. address_zero)
          (t.client_to_server_key ++ (t.server_to_client_key ++ (t.user_data ++ zeros)))
          (λ j lo up. h.addresses j (omega (arith, up))))
    ∙ λ i. some (record {
      client_id = read_le-bytes_le 8 t.client_id others (omega (arith, h.client_id)) i;
      timeout_seconds =
          read_le-bytes_le 4 t.timeout_seconds later (omega (arith, h.timeout_seconds)) i;
      num_server_addresses = t.num_server_addresses;
      server_addresses = λ j. all_addresses t h j i;
      client_to_server_key =
          take-length t.client_to_server_key (t.server_to_client_key ++ (t.user_data ++ zeros)) 32
            h.client_key i;
      server_to_client_key =
          (ap (take 32) (
                drop-length t.client_to_server_key
                  (t.server_to_client_key ++ (t.user_data ++ zeros)) 32 h.client_key)
              ∙ take-length t.server_to_client_key (t.user_data ++ zeros) 32 h.server_key)
            i;
      user_data =
          (ap (λ (bs : Bytes). take 256 (drop 64 bs))
                (sym (
                  append_assoc t.client_to_server_key t.server_to_client_key
                    (t.user_data ++ zeros)))
              ∙ ap (take 256) (
                  drop-length (t.client_to_server_key ++ t.server_to_client_key)
                    (t.user_data ++ zeros) 64
                    (omega (
                      arith,
                      length-append t.client_to_server_key t.server_to_client_key,
                      h.client_key,
                      h.server_key,
                    )))
              ∙ take-length t.user_data zeros 256 h.user)
            i;
    })
  where
    later : Bytes
    later =
        bytes_le 4 t.num_server_addresses
        ++ (write_addresses t.server_addresses 0 t.num_server_addresses
            ++ (t.client_to_server_key ++ (t.server_to_client_key ++ (t.user_data ++ zeros))))

    others : Bytes
    others = bytes_le 4 t.timeout_seconds ++ later

    all_addresses :
        (t : PrivateConnectToken) (h : IsToken t) (j : ℕ)
        → filled t.server_addresses 0 t.num_server_addresses (λ i. address_zero) j
          ≡ t.server_addresses j
    all_addresses t h j = elim (Bool-cases (ltb j t.num_server_addresses)) [
      | inl lt ↦ ground (arith, lt)
      | inr ge ↦ ground (arith, ge, h.no_more j)
    ]

-- A private token is written into a buffer of at least 1008 bytes, and what is read from it is the
-- token again.
pub deserialize-serialize_private_token :
    (t : PrivateConnectToken) (buf_size : ℕ)
    → IsToken t
    → token_private_size ≤ buf_size
    → (buf : Bytes) × ((serialize_private_token t buf_size ≡ some (buf, length (private_data t)))
        × ((length buf ≡ buf_size) × (deserialize_private_token buf ≡ some t)))
unfolding serialize_private_token
deserialize-serialize_private_token t buf_size h big =
    let zeros = replicate {A = ℕ} (buf_size - length (private_data t)) 0 in
    let size : length (private_data t ++ zeros) ≡ buf_size = omega (
      arith,
      big,
      private_data-le t h,
      length-append (private_data t) zeros,
      length-replicate (buf_size - length (private_data t)),
    ) in
    (
      private_data t ++ zeros,
      (
        ground (arith, big, private_data-le t h),
        (
          size,
          ap deserialize_private_token (private_data-padded t zeros)
              ∙ deserialize-padded t zeros h (
                  omega (
                    arith,
                    big,
                    size,
                    ap (λ (bs : Bytes). length bs) (private_data-padded t zeros),
                  )),
        ),
      ),
    )
