-- ===== src/Address.antt =====
-- src/address.c: an address with its port.
use sngrep.Common.{ℕ, Bool, List, ◌==◌, ◌&&◌}
use sngrep.Hash.{key_eq}

-- `address_t`; the text is the bytes before its terminator.
pub record Address : Type 0 where
  pub ip : List ℕ
  pub port : ℕ

unfoldable pub addressport_equals : Address → Address → Bool
addressport_equals a b = (a.port == b.port) && key_eq a.ip b.ip

unfoldable pub address_equals : Address → Address → Bool
address_equals a b = key_eq a.ip b.ip
