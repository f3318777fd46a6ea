-- ===== src/ControlApi/Names/Dns.antt =====
-- Proofs about validateDNSName in validation.go, NormalizeHost and ValidHost.
use Prim.Native.String.{[], ◌∷◌}
use mathlib.Core.List.{List}
use bedem_waf.Common.{
  String, Char, Bool, true, false, not, ◌&&◌, ◌||◌, ◌≡◌, refl, arith, ltb, if◌then◌else◌, ◌==◌, All,
  all, is_some, ne→eq-false,
}
use bedem_waf.Common.Result.{ok, >>-eq-ok, refuse->>-eq-ok, refuse-eq-ok}
use bedem_waf.Go.{Go}
use bedem_waf.Go.Text.{to_lower, trim_space, is_space, lower_rune, is_letter, is_digit}
use bedem_waf.Go.Strings.{
  is_code, has_char, has_prefix, contains, trim, split_code, trim_suffix_code, byte_length,
  starts_with_code, ends_with_code,
}
use bedem_waf.Go.Strings.Chars.{
  has_char_narrower, trim_of_none, map_chars_of_fixed, lower_ascii_of_other, AreFilled, later,
  contains_of_filled, trim_suffix_code_of_filled, has_char_of_parts,
}
use bedem_waf.Policy.Host.{normalize_host, valid_host, valid_label, is_bracket, is_forbidden}
use bedem_waf.ControlApi.Names.{
  is_label_char, validate_label, validate_labels, validate_dns_name, bad_label, hyphen_at_edge,
  bad_character, name_too_long,
}

-- Neither a character of a label nor a dot.
abbrev is_foreign : Char → Bool
is_foreign c = not (is_label_char c) && not (is_code b'.' c)

pub record IsLabel (l : String) : Type 0 where
  pub filled : (l == "") ≡ false
  pub short : ltb 63 (byte_length l) ≡ false
  pub starts : starts_with_code b'-' l ≡ false
  pub ends : ends_with_code b'-' l ≡ false
  pub plain : has_char (λ c. not (is_label_char c)) l ≡ false

validate_label-IsLabel : (host l : String) → validate_label host l ≡ ok tt → IsLabel l
unfolding validate_label
validate_label-IsLabel host l h =
    let (filled, h₁) = refuse->>-eq-ok (l == "" || ltb 63 (byte_length l)) (bad_label host) _ h in
    let (inner, h₂) =
      refuse->>-eq-ok (starts_with_code b'-' l || ends_with_code b'-' l) (hyphen_at_edge host) _
        h₁ in
    let plain = refuse-eq-ok _ (bad_character host) h₂ in
    record {
      filled = ground (arith, filled);
      short = ground (arith, filled);
      starts = ground (arith, inner);
      ends = ground (arith, inner);
      plain = plain;
    }

validate_labels-All :
    (host : String) (ls : List String) → validate_labels host ls ≡ ok tt → All IsLabel ls
unfolding validate_labels
validate_labels-All host List.[] h = tt
validate_labels-All host (List.◌∷◌ l ls) h =
    let (first, rest) = >>-eq-ok (validate_label host l) _ h in
    (validate_label-IsLabel host l first, validate_labels-All host ls rest)

All-map :
    (P Q : String → Type 0) → ((l : String) → P l → Q l) → (ls : List String) → All P ls → All Q ls
All-map P Q f List.[] h = tt
All-map P Q f (List.◌∷◌ l ls) h = (f l h.0, All-map P Q f ls h.1)

-- A name that validateDNSName accepts.
pub record IsDnsName (host : String) : Type 0 where
  pub fits : ltb 253 (byte_length host) ≡ false
  pub labels : All IsLabel (split_code b'.' host)

pub validate_dns_name-IsDnsName : (host : String) → validate_dns_name host ≡ ok tt → IsDnsName host
unfolding validate_dns_name
validate_dns_name-IsDnsName host h =
    let (fits, rest) = refuse->>-eq-ok (ltb 253 (byte_length host)) (name_too_long host) _ h in
    record { fits = fits; labels = validate_labels-All host _ rest }

module _ (host : String) (dns : IsDnsName host) where
  no_foreign : has_char is_foreign host ≡ false
  no_foreign =
      has_char_of_parts (λ c. not (is_label_char c)) b'.' host
        (All-map IsLabel (λ l. has_char (λ c. not (is_label_char c)) l ≡ false) (λ l p. p.plain)
          (split_code b'.' host) dns.labels)

  All-filled : AreFilled (split_code b'.' host)
  All-filled = All-map IsLabel _ (λ l p. p.filled) (split_code b'.' host) dns.labels

  lacks :
      (q : Char → Bool)
      → ((c : Char) → is_foreign c ≡ false → q c ≡ false)
      → has_char q host ≡ false
  lacks q f = has_char_narrower is_foreign q f host no_foreign

  no_colon : has_char (is_code b':') host ≡ false
  no_colon = lacks (is_code b':') (λ c e. ground arith)

  no_forbidden : has_char is_forbidden host ≡ false
  no_forbidden = lacks is_forbidden (λ c e. ground arith)

  pub trim-bracket : trim is_bracket host ≡ host
  trim-bracket = trim_of_none is_bracket host (lacks is_bracket (λ c e. ground arith))

module _ (go : Go) (host : String) (dns : IsDnsName host) where
  to_lower-dns : to_lower go host ≡ host
  unfolding to_lower
  to_lower-dns =
      map_chars_of_fixed (lower_rune go) is_foreign
        (λ c e. let same = lower_ascii_of_other c (ground arith) in ground (arith, same)) host
        (no_foreign host dns)

  trim_space-dns : trim_space go host ≡ host
  unfolding trim_space
  trim_space-dns =
      trim_of_none (is_space go) host (lacks host dns (is_space go) (λ c e. ground arith))

  pub normalize_host-dns : (host == "") ≡ false → normalize_host go host ≡ host
  unfolding normalize_host
  normalize_host-dns given =
      rw (to_lower-dns, trim_space-dns, given, no_colon host dns) (trim-bracket host dns)

module _ (go : Go) where
  valid_label-IsLabel : (l : String) → IsLabel l → valid_label go l ≡ true
  unfolding valid_label
  valid_label-IsLabel l p =
      rw
        (
          p.filled,
          p.short,
          p.starts,
          p.ends,
          has_char_narrower (λ c. not (is_label_char c))
              (λ c. not (is_letter go c || is_digit go c || is_code b'-' c)) (λ c e. ground arith) l
              p.plain,
        )
        refl

  all-valid_label : (ls : List String) → All IsLabel ls → all (valid_label go) ls ≡ true
  all-valid_label List.[] h = refl
  all-valid_label (List.◌∷◌ l ls) h = rw (valid_label-IsLabel l h.0) (all-valid_label ls h.1)

no_scheme : (s : String) → has_char (is_code b':') s ≡ false → contains s "://" ≡ false
unfolding has_char contains has_prefix
no_scheme [] h = refl
no_scheme (c ∷ s) h = let rest = no_scheme s in ground (arith, rest)

All-later_of : (P : String → Type 0) (ls : List String) → All P ls → All P (later ls)
All-later_of P List.[] h = tt
All-later_of P (List.◌∷◌ l ls) h = h.1

module _ (go : Go) (host : String) (dns : IsDnsName host) (given : (host == "") ≡ false) where
  all-valid : all (valid_label go) (split_code b'.' (trim_suffix_code b'.' host)) ≡ true
  all-valid =
      rw (trim_suffix_code_of_filled b'.' host (All-later_of _ _ (All-filled host dns)))
        (all-valid_label go (split_code b'.' host) dns.labels)

  if_either : (b c : Bool) → c ≡ true → (if b then true else c) ≡ true
  if_either true c e = refl
  if_either false c e = e

  pub valid_host-dns : valid_host go host ≡ true
  unfolding valid_host
  valid_host-dns =
      rw
        (
          normalize_host-dns go host dns given,
          to_lower-dns go host dns,
          trim_space-dns go host dns,
          given,
          no_forbidden host dns,
          no_scheme host (no_colon host dns),
          dns.fits,
          contains_of_filled host (All-later_of _ _ (All-filled host dns)),
        )
        (if_either (is_some (go.parse_addr host)) _ all-valid)

-- A first label is not empty, and so the name is not.
pub IsDnsName-given : (host : String) → IsDnsName host → (host == "") ≡ false
unfolding split_code
IsDnsName-given [] dns = dns.labels.0.filled
IsDnsName-given (c ∷ s) dns = ne→eq-false (c ∷ s) "" (λ e. cc)
