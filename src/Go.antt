-- ===== src/Go.antt =====
-- What the program takes from Go's standard library. `strings`, `net.SplitHostPort`, the membership
-- test of `netip.Prefix` and the header maps are written out in the children. The tables of
-- `unicode` and the parsers and printers of `net/netip`, `net/url`, `crypto/sha256`, `strconv` and
-- `net/textproto` enter as one record of functions, which every theorem takes as it is.
-- A Go string is a text: strings that are not valid UTF-8 are left out.
pub mod Strings
pub mod Netip
pub mod Maps
pub mod Text
use bedem_waf.Common.{String, Char, Bool, Option, List}
use bedem_waf.Common.Int.{ℤ}
use Netip.{Addr, Prefix}
use Maps.{GoMap}

-- The two fields of `url.URL` that the program tests.
pub record Url : Type 0 where
  pub scheme : String
  pub host : String

pub record Go : Type 0 where
  -- unicode.ToLower, IsSpace, IsLetter and IsDigit, asked only outside ASCII
  pub unicode_lower : Char → Char
  pub unicode_space : Char → Bool
  pub unicode_letter : Char → Bool
  pub unicode_digit : Char → Bool
  -- strings.EqualFold
  pub equal_fold : String → String → Bool
  -- http.CanonicalHeaderKey
  pub canonical_header_key : String → String
  -- netip.ParseAddr, netip.ParsePrefix and the String methods
  pub parse_addr : String → Option Addr
  pub parse_prefix : String → Option Prefix
  pub addr_string : Addr → String
  pub prefix_string : Prefix → String
  -- url.Parse
  pub parse_url : String → Option Url
  -- url.ParseQuery: the values, which it returns with an error too, and whether there was none
  pub parse_query : String → GoMap (List String) × Bool
  -- url.Values.Encode
  pub encode_query : GoMap (List String) → String
  -- hex.EncodeToString of sha256.Sum256
  pub sha256_hex : String → String
  -- the verb %d
  pub itoa : ℤ → String
