-- ===== src/Policy/Host.antt =====
-- NormalizeHost and ValidHost of store.go.
use bedem_waf.Common.{
  String, Char, Bool, true, false, not, ◌||◌, Option, none, some, is_some, ltb, ◌==◌, all,
  if◌then◌else◌,
}
use bedem_waf.Go.{Go}
use bedem_waf.Go.Text.{to_lower, trim_space, is_letter, is_digit}
use bedem_waf.Go.Strings.{
  trim, contains, has_char, is_code, split_host_port, split_code, trim_suffix_code,
  starts_with_code, ends_with_code, byte_length,
}

-- The cut set "[]".
abbrev pub is_bracket : Char → Bool
is_bracket c = is_code b'[' c || is_code b']' c

-- The cut set " \t\r\n/@".
abbrev pub is_forbidden : Char → Bool
is_forbidden c =
    is_code 32 c || is_code 9 c || is_code 13 c || is_code 10 c || is_code b'/' c || is_code b'@' c

abbrev pub host_part : Option (String × String) → String → String
host_part none host = trim is_bracket host
host_part (some (parsed, port)) host = trim is_bracket parsed

module _ (go : Go) where
  unfoldable pub normalize_host : String → String
  unfolding to_lower trim_space trim has_char split_host_port
  normalize_host raw =
      let host = trim_space go (to_lower go raw) in
      if host == ""
      then ""
      else if has_char (is_code b':') host
      then host_part (split_host_port host) host
      else trim is_bracket host

  -- One label of the loop in ValidHost.
  unfoldable pub valid_label : String → Bool
  unfolding starts_with_code ends_with_code has_char byte_length
  valid_label label = not (
      label == ""
      || ltb 63 (byte_length label)
      || starts_with_code b'-' label
      || ends_with_code b'-' label
      || has_char (λ c. not (is_letter go c || is_digit go c || is_code b'-' c)) label)

  unfoldable pub valid_host : String → Bool
  unfolding normalize_host contains split_code trim_suffix_code valid_label byte_length
  valid_host h =
      let raw = trim_space go (to_lower go h) in
      let host = normalize_host h in
      if raw == "" || has_char is_forbidden raw || contains raw "://"
      then false
      else if host == "" || ltb 253 (byte_length host)
      then false
      else if has_char is_forbidden host
      then false
      else if contains host ".."
      then false
      else if is_some (go.parse_addr host)
      then true
      else all valid_label (split_code b'.' (trim_suffix_code b'.' host))
