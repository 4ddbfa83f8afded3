-- ===== src/Core/Address.antt =====
-- src/core/address.h and `netudp_address_equal` of src/core/address.cpp. The union `data` is its 16
-- bytes.
use netudp.Base.{ℕ, ◌==◌, Bool, true, false, if◌then◌else◌, List}
use netudp.Base.Lists.{take, replicate, eq_list}

pub record Address : Type 0 where
  pub bytes : List ℕ
  pub port : ℕ
  pub addr_type : ℕ

abbrev pub address_ipv4 : ℕ
address_ipv4 = 1

abbrev pub address_ipv6 : ℕ
address_ipv6 = 2

abbrev pub address_zero : Address
address_zero = record { bytes = replicate 16 0; port = 0; addr_type = 0 }

unfoldable pub address_data_len : Address → ℕ
address_data_len addr =
    if addr.addr_type == address_ipv4 then 4 else if addr.addr_type == address_ipv6 then 16 else 0

-- The comparison is that of `memcmp`.
unfoldable pub address_equal : Address → Address → Bool
address_equal a b =
    if a.addr_type == b.addr_type
    then if a.port == b.port
      then if address_data_len a == 0
        then true
        else eq_list (take (address_data_len a) a.bytes) (take (address_data_len a) b.bytes)
      else false
    else false
