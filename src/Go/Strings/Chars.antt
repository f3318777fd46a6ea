-- ===== src/Go/Strings/Chars.antt =====
-- Texts that lack some characters, and the parts of a split text.
use Prim.Native.String.{[], ◌∷◌}
use mathlib.Core.List.{List}
use bedem_waf.Common.{
  ℕ, String, Char, code, Bool, true, false, not, ◌&&◌, ◌≡◌, refl, ap, arith, leb, ◌==◌, All,
  Bool-cases, inl, inr,
}
use bedem_waf.Go.Strings.{
  char_at_code, lower_ascii, has_char, is_code, map_chars, trim_left, trim_right, trim, cons_unless,
  has_prefix, contains, trim_suffix_code, split_code, push_first,
}

-- A text without the characters of one test has none of a narrower one.
pub has_char_narrower :
    (p q : Char → Bool)
    → ((c : Char) → p c ≡ false → q c ≡ false)
    → (s : String) → has_char p s ≡ false
    → has_char q s ≡ false
unfolding has_char
has_char_narrower p q f [] h = refl
has_char_narrower p q f (c ∷ s) h =
    let rest = has_char_narrower p q f s in let first = f c in ground (arith, first, rest)

module _ (p : Char → Bool) where
  pub trim_left_of_none : (s : String) → has_char p s ≡ false → trim_left p s ≡ s
  unfolding has_char trim_left
  trim_left_of_none [] h = refl
  trim_left_of_none (c ∷ s) h = ground arith

  cons_unless_of_none : (c : Char) (s : String) → p c ≡ false → cons_unless p c s ≡ c ∷ s
  cons_unless_of_none c [] h = rw h refl
  cons_unless_of_none c (d ∷ s) h = refl

  pub trim_right_of_none : (s : String) → has_char p s ≡ false → trim_right p s ≡ s
  unfolding has_char trim_right
  trim_right_of_none [] h = refl
  trim_right_of_none (c ∷ s) h =
      rw (trim_right_of_none s (ground arith)) (cons_unless_of_none c s (ground arith))

  pub trim_of_none : (s : String) → has_char p s ≡ false → trim p s ≡ s
  unfolding trim
  trim_of_none s h = rw (trim_left_of_none s h) (trim_right_of_none s h)

-- A map that changes no character of the text.
pub map_chars_of_fixed :
    (f : Char → Char) (p : Char → Bool)
    → ((c : Char) → p c ≡ false → f c ≡ c)
    → (s : String) → has_char p s ≡ false
    → map_chars f s ≡ s
unfolding has_char map_chars
map_chars_of_fixed f p fix [] h = refl
map_chars_of_fixed f p fix (c ∷ s) h =
    rw (fix c (ground arith), map_chars_of_fixed f p fix s (ground arith)) refl

char_at_code_of_none :
    (n : ℕ) (us ls : String) (c : Char)
    → has_char (is_code n) us ≡ false
    → char_at_code n us ls c ≡ c
unfolding char_at_code has_char
char_at_code_of_none n [] ls c h = refl
char_at_code_of_none n (u ∷ us) [] c h = refl
char_at_code_of_none n (u ∷ us) (l ∷ ls) c h =
    let rest = char_at_code_of_none n us ls c in ground (arith, rest)

abbrev is_upper : Char → Bool
is_upper c = leb 65 (code c) && leb (code c) 90

no_upper : has_char (λ u. not (is_upper u)) "ABCDEFGHIJKLMNOPQRSTUVWXYZ" ≡ false
unfolding has_char
no_upper = refl

pub lower_ascii_of_other :
    (c : Char) → leb 65 (code c) && leb (code c) 90 ≡ false → lower_ascii c ≡ c
unfolding lower_ascii
lower_ascii_of_other c h =
    char_at_code_of_none (code c) "ABCDEFGHIJKLMNOPQRSTUVWXYZ" "abcdefghijklmnopqrstuvwxyz" c (
      has_char_narrower (λ u. not (is_upper u)) (is_code (code c)) (λ u e. ground arith) _ no_upper)

-- Every part behind the first has a character.
abbrev pub AreFilled : List String → Type 0
AreFilled parts = All (λ l. (l == "") ≡ false) parts

abbrev pub later : List String → List String
later List.[] = List.[]
later (List.◌∷◌ l ls) = ls

later-push_first : (c : Char) (ls : List String) → later (push_first c ls) ≡ later ls
later-push_first c List.[] = refl
later-push_first c (List.◌∷◌ l ls) = refl

All-later : (P : String → Type 0) (ls : List String) → All P ls → All P (later ls)
All-later P List.[] h = tt
All-later P (List.◌∷◌ l ls) h = h.1

module _ (n : ℕ) (c : Char) (s : String) where
  split_code_at : is_code n c ≡ true → split_code n (c ∷ s) ≡ List.◌∷◌ [] (split_code n s)
  unfolding split_code
  split_code_at e = rw e refl

  split_code_within : is_code n c ≡ false → split_code n (c ∷ s) ≡ push_first c (split_code n s)
  unfolding split_code
  split_code_within e = rw e refl

filled_tail :
    (n : ℕ) (c : Char) (s : String)
    → AreFilled (later (split_code n (c ∷ s)))
    → AreFilled (later (split_code n s))
filled_tail n c s h = elim (Bool-cases (is_code n c)) [
  | inl e ↦ All-later _ (split_code n s) (rw (split_code_at n c s e) at h)
  | inr e ↦ rw (split_code_within n c s e, later-push_first c (split_code n s)) at h
]

-- A separator is followed by a part with a character.
filled_behind :
    (n : ℕ) (c : Char) (s : String)
    → is_code n c ≡ true
    → AreFilled (later (split_code n (c ∷ s)))
    → (d : Char) × (rest : String) × (s ≡ d ∷ rest) × (is_code n d ≡ false)
unfolding split_code
filled_behind n c [] e h = let t : ([] == "") ≡ false = (rw (split_code_at n c [] e) at h).0 in cc
filled_behind n c (d ∷ rest) e h = elim (Bool-cases (is_code n d)) [
  | inl f ↦
      let all = rw (split_code_at n c (d ∷ rest) e, split_code_at n d rest f) at h in
      let t : ([] == "") ≡ false = all.0 in cc
  | inr f ↦ (d, rest, refl, f)
]

-- A text that is split into parts with characters has no two separators in a row and none at its end.
pub contains_of_filled :
    (s : String) → AreFilled (later (split_code b'.' s)) → contains s ".." ≡ false
unfolding contains has_prefix
contains_of_filled [] h = refl
contains_of_filled (c ∷ s) h =
    let rest = contains_of_filled s (filled_tail b'.' c s h) in
    elim (Bool-cases (is_code b'.' c)) [
      | inl e ↦
          let (d, after, same, other) = filled_behind b'.' c s e h in
          rw same (let later = rw same at rest in ground (arith, e, other, later))
      | inr e ↦ ground (arith, e, rest)
    ]

pub trim_suffix_code_of_filled :
    (n : ℕ) (s : String) → AreFilled (later (split_code n s)) → trim_suffix_code n s ≡ s
unfolding trim_suffix_code
trim_suffix_code_of_filled n [] h = refl
trim_suffix_code_of_filled n (c ∷ []) h = elim (Bool-cases (is_code n c)) [
  | inl e ↦ let (d, after, same, other) = filled_behind n c [] e h in cc
  | inr e ↦ rw e refl
]
trim_suffix_code_of_filled n (c ∷ d ∷ s) h =
    ap (λ t. c ∷ t) (trim_suffix_code_of_filled n (d ∷ s) (filled_tail n c (d ∷ s) h))

-- Characters of the parts, and of the text.
module _ (p : Char → Bool) where
  Lacks : String → Type 0
  Lacks l = has_char p l ≡ false

  All-push_first :
      (c : Char) (ls : List String) → All Lacks (push_first c ls) → (p c ≡ false) × All Lacks ls
  unfolding has_char Lacks
  All-push_first c List.[] h = (ground arith, tt)
  All-push_first c (List.◌∷◌ l ls) h = (ground (arith, h.0), (ground (arith, h.0), h.1))

  pub has_char_of_parts :
      (n : ℕ) (s : String)
      → All (λ l. has_char p l ≡ false) (split_code n s)
      → has_char (λ c. p c && not (is_code n c)) s ≡ false
  unfolding has_char Lacks
  has_char_of_parts n [] h = refl
  has_char_of_parts n (c ∷ s) h = elim (Bool-cases (is_code n c)) [
    | inl e ↦
        let rest = has_char_of_parts n s (rw (split_code_at n c s e) at h).1 in
        ground (arith, e, rest)
    | inr e ↦
        let (first, parts) =
          All-push_first c (split_code n s) (rw (split_code_within n c s e) at h) in
        let rest = has_char_of_parts n s parts in ground (arith, first, rest)
  ]

-- To trim a trimmed text changes nothing.
module _ (p : Char → Bool) where
  StartsPlain : String → Type 0
  StartsPlain [] = Unit
  StartsPlain (c ∷ s) = p c ≡ false

  trim_left-StartsPlain : (s : String) → StartsPlain (trim_left p s)
  unfolding trim_left StartsPlain
  trim_left-StartsPlain [] = tt
  trim_left-StartsPlain (c ∷ s) = elim (Bool-cases (p c)) [
    | inl e ↦ rw e (trim_left-StartsPlain s)
    | inr e ↦ rw e e
  ]

  trim_left_of_plain : (s : String) → StartsPlain s → trim_left p s ≡ s
  unfolding trim_left StartsPlain
  trim_left_of_plain [] h = refl
  trim_left_of_plain (c ∷ s) h = rw h refl

  cons_unless-StartsPlain : (c : Char) (s : String) → p c ≡ false → StartsPlain (cons_unless p c s)
  unfolding StartsPlain
  cons_unless-StartsPlain c [] h = rw h h
  cons_unless-StartsPlain c (d ∷ s) h = h

  trim_right-StartsPlain : (s : String) → StartsPlain s → StartsPlain (trim_right p s)
  unfolding trim_right StartsPlain
  trim_right-StartsPlain [] h = tt
  trim_right-StartsPlain (c ∷ s) h = cons_unless-StartsPlain c (trim_right p s) h

  cons_unless_twice :
      (c : Char) (s : String)
      → trim_right p s ≡ s
      → trim_right p (cons_unless p c s) ≡ cons_unless p c s
  unfolding trim_right
  cons_unless_twice c [] h = elim (Bool-cases (p c)) [ inl e ↦ rw e refl | inr e ↦ rw (e, e) refl ]
  cons_unless_twice c (d ∷ s) h = ap (cons_unless p c) h

  trim_right_twice : (s : String) → trim_right p (trim_right p s) ≡ trim_right p s
  unfolding trim_right
  trim_right_twice [] = refl
  trim_right_twice (c ∷ s) = cons_unless_twice c (trim_right p s) (trim_right_twice s)

  pub trim_twice : (s : String) → trim p (trim p s) ≡ trim p s
  unfolding trim
  trim_twice s =
      let plain = trim_right-StartsPlain (trim_left p s) (trim_left-StartsPlain s) in
      rw (trim_left_of_plain (trim_right p (trim_left p s)) plain)
        (trim_right_twice (trim_left p s))
