-- ===== src/Go/Netip.antt =====
-- `netip.Addr` and `netip.Prefix`, as far as the program uses them. The zero `Addr` and prefixes of
-- it are left out: the program only holds addresses that were parsed, or 0.0.0.0.
use bedem_waf.Common.{ℕ, ◌-◌, ◌*◌, ◌/◌, ◌^◌, String, Bool, false, ◌&&◌, ◌==◌, eqb}

-- The number that the bytes of the address make; an IPv6 address has a zone, mostly empty.
pub data Addr : Type 0 where
  ipv4 : ℕ → Addr
  ipv6 : ℕ → String → Addr

-- The number of the address, and the length of the prefix in bits.
pub data Prefix : Type 0 where
  ipv4_prefix : ℕ → ℕ → Prefix
  ipv6_prefix : ℕ → ℕ → Prefix

-- `netip.IPv4Unspecified`
abbrev pub ipv4_unspecified : Addr
ipv4_unspecified = ipv4 0

-- `Prefix.Masked`: the bits behind the prefix are cleared.
unfoldable pub masked : Prefix → Prefix
masked (ipv4_prefix a bits) = ipv4_prefix (a / 2 ^ (32 - bits) * 2 ^ (32 - bits)) bits
masked (ipv6_prefix a bits) = ipv6_prefix (a / 2 ^ (128 - bits) * 2 ^ (128 - bits)) bits

-- `Prefix.Contains`: an address of the same family, with no zone, that has the prefix's bits.
unfoldable pub prefix_contains : Prefix → Addr → Bool
prefix_contains (ipv4_prefix a bits) (ipv4 b) = eqb (b / 2 ^ (32 - bits)) (a / 2 ^ (32 - bits))
prefix_contains (ipv6_prefix a bits) (ipv6 b zone) =
    zone == "" && eqb (b / 2 ^ (128 - bits)) (a / 2 ^ (128 - bits))
prefix_contains (ipv4_prefix a bits) (ipv6 b zone) = false
prefix_contains (ipv6_prefix a bits) (ipv4 b) = false
