-- ===== src/ControlApi/Names.antt =====
-- services/control-api/internal/httpapi/validation.go
pub mod Dns
pub mod Hosts
use Prim.Native.String.{[], ◌∷◌}
use mathlib.Core.List.{List}
use bedem_waf.Common.{
  ℕ, suc, String, Char, Bool, true, false, not, ◌&&◌, ◌||◌, Option, none, some, is_some, ltb, leb,
  ◌==◌, is_nonempty, if◌then◌else◌,
}
use bedem_waf.Common.Result.{Result, ok, err, ◌>>=◌, ◌>>◌, refuse}
use bedem_waf.Go.{Go}
use bedem_waf.Go.Text.{to_lower, trim_space}
use bedem_waf.Go.Strings.{
  is_ascii_lower, is_ascii_digit, is_code, has_char, contains, split_host_port, split_code,
  starts_with_code, ends_with_code, byte_length,
}
use bedem_waf.Policy.Rules.{is_member}
use bedem_waf.ControlApi.{Parsers, OriginUrl}

-- One constructor for each message.
pub data NameError : Type 0 where
  bad_slug : String → NameError
  hostnames_missing hostname_empty : NameError
  hostname_not_bare hostname_bad_port hostname_is_address hostname_repeated : String → NameError
  name_too_long bad_label hyphen_at_edge bad_character : String → NameError
  origin_unparsed origin_bad_scheme origin_no_host origin_not_bare origin_bad_port : NameError
  mode_unknown action_unknown : NameError
  bad_cidr bad_json : String → NameError

abbrev pub Checked : Type 0
Checked = Result NameError (Unit {0})

-- `[a-z0-9]`
abbrev pub is_alphanumeric : Char → Bool
is_alphanumeric c = is_ascii_lower c || is_ascii_digit c

-- `[a-z0-9-]`, which is also what a label of a host name consists of
abbrev pub is_label_char : Char → Bool
is_label_char c = is_alphanumeric c || is_code b'-' c

unfoldable pub rune_count : String → ℕ
rune_count [] = 0
rune_count (c ∷ s) = suc (rune_count s)

-- slugPattern: `^[a-z0-9][a-z0-9-]{0,62}$`
unfoldable pub matches_slug : String → Bool
unfolding rune_count has_char
matches_slug [] = false
matches_slug (c ∷ s) =
    is_alphanumeric c && leb (rune_count s) 62 && not (has_char (λ d. not (is_label_char d)) s)

unfoldable pub validate_slug : String → String → Checked
unfolding matches_slug
validate_slug field value = refuse (not (matches_slug value)) (bad_slug field)

-- One round of the loop over the labels.
unfoldable pub validate_label : String → String → Checked
unfolding byte_length starts_with_code ends_with_code has_char
validate_label host label = do
  refuse (label == "" || ltb 63 (byte_length label)) (bad_label host)
  refuse (starts_with_code b'-' label || ends_with_code b'-' label) (hyphen_at_edge host)
  refuse (has_char (λ c. not (is_label_char c)) label) (bad_character host)

unfoldable pub validate_labels : String → List String → Checked
unfolding validate_label
validate_labels host List.[] = ok tt
validate_labels host (List.◌∷◌ l ls) = validate_label host l >> validate_labels host ls

unfoldable pub validate_dns_name : String → Checked
unfolding byte_length split_code validate_labels
validate_dns_name host =
    refuse (ltb 253 (byte_length host)) (name_too_long host)
    >> validate_labels host (split_code b'.' host)

-- The host of a text with a port.
abbrev pub host_before_port : String → Option (String × String) → Result NameError String
host_before_port value none = err (hostname_bad_port value)
host_before_port value (some (host, port)) = ok host

abbrev pub is_url_mark : Char → Bool
is_url_mark c = is_code b'/' c || is_code b'?' c || is_code b'#' c

unfoldable pub without_port : String → String → Result NameError String
unfolding has_char split_host_port
without_port value host =
    if has_char (is_code b':') host then host_before_port value (split_host_port host) else ok host

module _ (go : Go) where
  -- One round of the loop of validateHostnames, up to the test for a repetition: the bare host.
  unfoldable pub hostname_of : String → Result NameError String
  unfolding to_lower trim_space has_char contains validate_dns_name
  hostname_of value =
      let host = trim_space go (to_lower go value) in
      refuse (host == "") hostname_empty
      >> (refuse (contains host "://" || has_char is_url_mark host) (hostname_not_bare value)
          >> (without_port value host >>= λ bare.
              refuse (is_some (go.parse_addr bare)) (hostname_is_address value)
              >> (validate_dns_name bare >> ok bare)))

  -- The loop, with the hosts seen so far.
  unfoldable pub hostnames_from : List String → List String → Checked
  unfolding hostname_of
  hostnames_from seen List.[] = ok tt
  hostnames_from seen (List.◌∷◌ v vs) = hostname_of v >>= λ host.
      refuse (is_member host seen) (hostname_repeated v) >> hostnames_from (List.◌∷◌ host seen) vs

  unfoldable pub validate_hostnames : List String → Checked
  unfolding hostnames_from
  validate_hostnames values =
      refuse (not (is_nonempty values)) hostnames_missing >> hostnames_from List.[] values

module _ (net : Parsers) where
  -- parseOriginURL, behind url.Parse
  abbrev checked_origin : Option OriginUrl → Result NameError OriginUrl
  checked_origin none = err origin_unparsed
  checked_origin (some u) = do
    refuse (not (u.scheme == "http") && not (u.scheme == "https")) origin_bad_scheme
    refuse (u.hostname == "") origin_no_host
    refuse (not (u.raw_query == "") || not (u.fragment == "")) origin_not_bare
    refuse (not (u.port == "") && not (net.lookup_port u.port)) origin_bad_port
    ok u

  unfoldable pub parse_origin_url : Go → String → Result NameError OriginUrl
  unfolding trim_space
  parse_origin_url go raw = checked_origin (net.parse_full_url (trim_space go raw))

  unfoldable pub validate_json : String → String → Checked
  validate_json raw field = refuse (not (raw == "") && not (net.json_valid raw)) (bad_json field)

unfoldable pub validate_mode : String → Checked
validate_mode mode = refuse (not (mode == "count" || mode == "block")) mode_unknown

unfoldable pub validate_action : String → Checked
validate_action action =
    refuse
      (not (action == "allow" || action == "count" || action == "block" || action == "rate_limit"))
      action_unknown

unfoldable pub validate_cidr : Go → String → Checked
validate_cidr go value = refuse (not (is_some (go.parse_prefix value))) (bad_cidr value)
