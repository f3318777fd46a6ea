-- ===== src/Go/Strings.antt =====
-- The functions of `strings` that the program calls, and `net.SplitHostPort`.
pub mod Chars
use Prim.Native.String.{[], ◌∷◌, ◌++◌}
use mathlib.Core.List.{List}
use bedem_waf.Common.{
  ◌==◌, ℕ, ◌+◌, String, Char, code, Bool, true, false, not, ◌&&◌, ◌||◌, Option, none, some, ltb,
  leb, eqb, if◌then◌else◌,
}

-- A character by its number, of a text that has it.
unfoldable pub char_at_code : ℕ → String → String → Char → Char
char_at_code n (u ∷ us) (l ∷ ls) c = if eqb (code u) n then l else char_at_code n us ls c
char_at_code n _ _ c = c

-- The letters of ASCII, and any other character as it is.
unfoldable pub lower_ascii : Char → Char
unfolding char_at_code
lower_ascii c = char_at_code (code c) "ABCDEFGHIJKLMNOPQRSTUVWXYZ" "abcdefghijklmnopqrstuvwxyz" c

abbrev pub is_ascii : Char → Bool
is_ascii c = ltb (code c) 128

-- Tab, line feed, vertical tab, form feed, carriage return and blank.
abbrev pub is_ascii_space : Char → Bool
is_ascii_space c = (leb 9 (code c) && leb (code c) 13) || eqb (code c) 32

abbrev pub is_ascii_digit : Char → Bool
is_ascii_digit c = leb b'0' (code c) && leb (code c) b'9'

abbrev pub is_ascii_lower : Char → Bool
is_ascii_lower c = leb b'a' (code c) && leb (code c) b'z'

abbrev pub is_ascii_letter : Char → Bool
is_ascii_letter c = is_ascii_lower c || (leb b'A' (code c) && leb (code c) b'Z')

-- `strings.Map`
unfoldable pub map_chars : (Char → Char) → String → String
map_chars f [] = []
map_chars f (c ∷ s) = f c ∷ map_chars f s

-- `strings.TrimLeftFunc`, `TrimRightFunc`, `TrimFunc`
unfoldable pub trim_left : (Char → Bool) → String → String
trim_left p [] = []
trim_left p (c ∷ s) = if p c then trim_left p s else c ∷ s

abbrev pub cons_unless : (Char → Bool) → Char → String → String
cons_unless p c [] = if p c then [] else c ∷ []
cons_unless p c (d ∷ s) = c ∷ d ∷ s

unfoldable pub trim_right : (Char → Bool) → String → String
trim_right p [] = []
trim_right p (c ∷ s) = cons_unless p c (trim_right p s)

unfoldable pub trim : (Char → Bool) → String → String
unfolding trim_left trim_right
trim p s = trim_right p (trim_left p s)

-- `strings.HasPrefix`
unfoldable pub has_prefix : String → String → Bool
has_prefix s [] = true
has_prefix [] (c ∷ t) = false
has_prefix (d ∷ s) (c ∷ t) = eqb (code d) (code c) && has_prefix s t

-- `strings.TrimPrefix` of one character
abbrev pub drop_char : ℕ → String → String
drop_char n [] = []
drop_char n (c ∷ s) = if eqb (code c) n then s else c ∷ s

-- `strings.Contains`
unfoldable pub contains : String → String → Bool
unfolding has_prefix
contains [] t = has_prefix [] t
contains (c ∷ s) t = has_prefix (c ∷ s) t || contains s t

-- Some character passes the test: `strings.ContainsAny`, `IndexByte` not negative.
unfoldable pub has_char : (Char → Bool) → String → Bool
has_char p [] = false
has_char p (c ∷ s) = p c || has_char p s

abbrev pub is_code : ℕ → Char → Bool
is_code n c = eqb (code c) n

unfoldable pub starts_with_code : ℕ → String → Bool
starts_with_code n [] = false
starts_with_code n (c ∷ s) = is_code n c

unfoldable pub ends_with_code : ℕ → String → Bool
ends_with_code n [] = false
ends_with_code n (c ∷ []) = is_code n c
ends_with_code n (c ∷ d ∷ s) = ends_with_code n (d ∷ s)

-- `strings.TrimSuffix` of one character
unfoldable pub trim_suffix_code : ℕ → String → String
trim_suffix_code n [] = []
trim_suffix_code n (c ∷ []) = if is_code n c then [] else c ∷ []
trim_suffix_code n (c ∷ d ∷ s) = c ∷ trim_suffix_code n (d ∷ s)

abbrev pub push_first : Char → List String → List String
push_first c List.[] = List.◌∷◌ (c ∷ []) List.[]
push_first c (List.◌∷◌ w ws) = List.◌∷◌ (c ∷ w) ws

-- `strings.Split` at one character
unfoldable pub split_code : ℕ → String → List String
split_code n [] = List.◌∷◌ [] List.[]
split_code n (c ∷ s) =
    let rest = split_code n s in if is_code n c then List.◌∷◌ [] rest else push_first c rest

abbrev cut_under : Char → Option (String × String) → Option (String × String)
cut_under c none = none
cut_under c (some (before, after)) = some (c ∷ before, after)

-- The parts before and after the first character with that number.
unfoldable pub cut_code : ℕ → String → Option (String × String)
cut_code n [] = none
cut_code n (c ∷ s) =
    let rest = cut_under c (cut_code n s) in if is_code n c then some ([], s) else rest

-- `net.SplitHostPort`: host and port, or none where Go returns an error.
-- What follows the closing bracket is a colon and a port with no further colon or bracket.
abbrev after_bracket : String → String → Option (String × String)
after_bracket host [] = none
after_bracket host (c ∷ port) =
    if is_code b':' c
      && not (has_char (λ d. is_code b':' d || is_code b'[' d || is_code b']' d) port)
      && not (has_char (is_code b'[') host)
    then some (host, port)
    else none

abbrev bracketed : Option (String × String) → Option (String × String)
bracketed none = none
bracketed (some (host, after)) = after_bracket host after

-- Without brackets there is exactly one colon.
abbrev one_colon : Option (String × String) → Option (String × String)
one_colon none = none
one_colon (some (host, port)) =
    if has_char (λ d. is_code b':' d || is_code b'[' d || is_code b']' d) port
      || has_char (λ d. is_code b'[' d || is_code b']' d) host
    then none
    else some (host, port)

unfoldable pub split_host_port : String → Option (String × String)
unfolding cut_code has_char
split_host_port [] = none
split_host_port (c ∷ s) =
    if is_code b'[' c then bracketed (cut_code b']' s) else one_colon (cut_code b':' (c ∷ s))

-- The parts of a text made by `fmt.Sprintf` or `+`, in order.
unfoldable pub concat : List String → String
concat List.[] = []
concat (List.◌∷◌ s ss) = s ++ concat ss

-- `len` of a Go string: the bytes of its UTF-8 encoding.
abbrev char_bytes : Char → ℕ
char_bytes c =
    if ltb (code c) 128
    then 1
    else if ltb (code c) 2048
    then 2
    else if ltb (code c) 65536
    then 3
    else 4

unfoldable pub byte_length : String → ℕ
byte_length [] = 0
byte_length (c ∷ s) = char_bytes c + byte_length s

-- strings.HasSuffix
unfoldable pub has_suffix : String → String → Bool
has_suffix [] t = t == ""
has_suffix (c ∷ s) t = (c ∷ s) == t || has_suffix s t
