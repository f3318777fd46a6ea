-- ===== src/Go/Text.antt =====
-- The functions of `strings` and `net/http` that consult the Unicode tables or the header rules.
use bedem_waf.Common.{String, Char, Bool, if◌then◌else◌}
use bedem_waf.Go.{Go}
use bedem_waf.Go.Strings.{
  lower_ascii, is_ascii, is_ascii_space, is_ascii_letter, is_ascii_digit, map_chars, trim,
}

module _ (go : Go) where
  abbrev pub lower_rune : Char → Char
  unfolding lower_ascii
  lower_rune c = if is_ascii c then lower_ascii c else go.unicode_lower c

  abbrev pub is_space : Char → Bool
  is_space c = if is_ascii c then is_ascii_space c else go.unicode_space c

  abbrev pub is_letter : Char → Bool
  is_letter c = if is_ascii c then is_ascii_letter c else go.unicode_letter c

  abbrev pub is_digit : Char → Bool
  is_digit c = if is_ascii c then is_ascii_digit c else go.unicode_digit c

  -- `strings.ToLower`
  unfoldable pub to_lower : String → String
  unfolding map_chars lower_ascii
  to_lower s = map_chars lower_rune s

  -- `strings.TrimSpace`
  unfoldable pub trim_space : String → String
  unfolding trim
  trim_space s = trim is_space s
