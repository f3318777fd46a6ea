-- ===== src/Go/Maps.antt =====
-- Go maps with text keys, as association lists in which the first entry of a key counts, and the
-- maps of value lists under `http.Header` and `url.Values`.
use bedem_waf.Common.{
  String, ◌≡◌, refl, Bool, Option, none, some, List, [], ◌∷◌, ◌==◌, eq_iff, arith, is_some,
  if◌then◌else◌,
}

abbrev pub GoMap {ℓ} : Type ℓ → Type ℓ
GoMap V = List (String × V)

module _ {ℓ} {V : Type ℓ} where
  -- `v, ok := m[k]`
  unfoldable pub lookup : String → GoMap V → Option V
  lookup k [] = none
  lookup k ((j, v) ∷ m) = if j == k then some v else lookup k m

  -- `m[k] = v`
  unfoldable pub insert : String → V → GoMap V → GoMap V
  insert k v [] = (k, v) ∷ []
  insert k v ((j, w) ∷ m) = if j == k then (k, v) ∷ m else (j, w) ∷ insert k v m

  unfoldable pub has_key : String → GoMap V → Bool
  unfolding lookup
  has_key k m = is_some (lookup k m)

  -- A look at the map behind `m[at] = new`.
  pub lookup-insert :
      (at key : String) (new : V) (entries : GoMap V)
      → lookup key (insert at new entries) ≡ (if at == key then some new else lookup key entries)
  unfolding lookup insert
  lookup-insert at key new [] = refl
  lookup-insert at key new ((name, old) ∷ entries) =
      let later = lookup-insert at key new entries in
      ground (arith, later, eq_iff name key, eq_iff name at, eq_iff at key)

-- `values[k]`, the empty list for a missing key
unfoldable pub values_of : String → GoMap (List String) → List String
unfolding lookup
values_of k m = elim (lookup k m) [ none ↦ [] | some vs ↦ vs ]

-- `Values.Get`: the first value, or the empty text
unfoldable pub first_value : String → GoMap (List String) → String
unfolding values_of
first_value k m = elim (values_of k m) [ [] ↦ "" | v ∷ vs ↦ v ]
