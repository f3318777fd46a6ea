-- ===== src/Proxy/Client.antt =====
-- The client's address, in gateway.go: clientIP, parseRemoteAddr, containsAddr.
use bedem_waf.Common.{
  String, Char, code, eqb, Bool, not, ◌||◌, Option, none, some, List, [], ◌∷◌, ◌==◌, any,
  is_nonempty, if◌then◌else◌,
}
use mathlib.Core.Option
use bedem_waf.Go.{Go}
use bedem_waf.Go.Maps.{first_value}
use bedem_waf.Go.Netip.{Addr, Prefix, ipv4_unspecified, masked, prefix_contains}
use bedem_waf.Go.Strings.{split_host_port, split_code, trim}
use bedem_waf.Go.Text.{trim_space}
use bedem_waf.Proxy.{HttpRequest}

unfoldable pub contains_addr : List Prefix → Addr → Bool
contains_addr prefixes addr = any (λ p. prefix_contains p addr) prefixes

abbrev first_of : List String → String
first_of [] = ""
first_of (s ∷ ss) = s

abbrev host_of : String → Option (String × String) → String
host_of value none = value
host_of value (some (host, port)) = host

abbrev or_addr : Addr → Option Addr → Addr
or_addr a none = a
or_addr a (some b) = b

abbrev is_square : Char → Bool
is_square c = eqb (code c) b'[' || eqb (code c) b']'

module _ (go : Go) where
  unfoldable pub parse_remote_addr : String → Addr
  unfolding split_host_port trim
  parse_remote_addr value =
      or_addr ipv4_unspecified
        (go.parse_addr (trim is_square (host_of value (split_host_port value))))

  unfoldable pub parse_trusted_proxies : List String → Option (List Prefix)
  parse_trusted_proxies [] = some []
  parse_trusted_proxies (v ∷ vs) = elim (go.parse_prefix v) [
    | none ↦ none
    | some p ↦ Option.map (λ ps. masked p ∷ ps) (parse_trusted_proxies vs)
  ]

  unfoldable pub client_ip : List Prefix → HttpRequest → Addr
  unfolding contains_addr parse_remote_addr first_value split_code trim_space
  client_ip trusted r =
      let remote = parse_remote_addr r.remote_addr in
      let xff = first_value (go.canonical_header_key "X-Forwarded-For") r.headers in
      if not (is_nonempty trusted) || not (contains_addr trusted remote)
      then remote
      else if xff == ""
      then remote
      else or_addr remote (go.parse_addr (trim_space go (first_of (split_code b',' xff))))
