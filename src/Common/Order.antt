-- ===== src/Common/Order.antt =====
-- `sort.Slice` and `sort.Strings`: a sort by a test for "comes before". Where the test orders all
-- elements strictly there is one sorted list of them, written as an insertion sort.
pub mod Texts
use Prim.Native.Nat.{Ordering}
use Prim.Native.String.{String, compare}
use mathlib.Core.List.{List, [], ◌∷◌, Perm}
use mathlib.Core.List.Perm
use bedem_waf.Common.Tests.{Bool-cases, if◌then◌else◌}
use bedem_waf.Common.Lists.{All}
use mathlib.Core.Bool.{Bool, true, false}
use mathlib.Core.Logic.{inl, inr}
use mathlib.Core.Path.{◌≡◌}

-- The order of texts by their bytes.
abbrev pub text_before : String → String → Bool
text_before s t = elim (compare s t) [ Ordering.lt ↦ true | _ ↦ false ]

module _ {A : Type 0} (before : A → A → Bool) where
  -- In front of the first element that does not come before it.
  unfoldable pub insert_in : A → List A → List A
  insert_in x [] = x ∷ []
  insert_in x (y ∷ ys) = if before y x then y ∷ insert_in x ys else x ∷ y ∷ ys

  unfoldable pub sort : List A → List A
  unfolding insert_in
  sort [] = []
  sort (x ∷ xs) = insert_in x (sort xs)

  pub All-insert_in :
      (P : A → Type 0) (x : A) (ys : List A) → P x → All P ys → All P (insert_in x ys)
  unfolding insert_in
  All-insert_in P x [] p h = (p, tt)
  All-insert_in P x (y ∷ ys) p h = elim (Bool-cases (before y x)) [
    | inl e ↦ rw e (h.0, All-insert_in P x ys p h.1)
    | inr e ↦ rw e (p, h)
  ]

  pub All-sort : (P : A → Type 0) (xs : List A) → All P xs → All P (sort xs)
  unfolding sort
  All-sort P [] h = tt
  All-sort P (x ∷ xs) h = All-insert_in P x (sort xs) h.0 (All-sort P xs h.1)

  insert_in-perm : (x : A) (ys : List A) → Perm (insert_in x ys) (x ∷ ys)
  unfolding insert_in
  insert_in-perm x [] = Perm.refl (x ∷ [])
  insert_in-perm x (y ∷ ys) = elim (Bool-cases (before y x)) [
    | inl e ↦ rw e (Perm.trans (Perm.cons y (insert_in-perm x ys)) (Perm.swap x y ys))
    | inr e ↦ rw e (Perm.refl (x ∷ y ∷ ys))
  ]

  pub sort-perm : (xs : List A) → Perm (sort xs) xs
  unfolding sort
  sort-perm [] = Perm.refl []
  sort-perm (x ∷ xs) = Perm.trans (insert_in-perm x (sort xs)) (Perm.cons x (sort-perm xs))

  -- Each element stands in a relation to every later one, if the relation passes on and holds in the
  -- direction in which the test does not speak against it.
  module _ (R : A → A → Type 0) where
    abbrev pub IsOrdered : List A → Type 0
    IsOrdered [] = Unit
    IsOrdered (x ∷ xs) = All (R x) xs × IsOrdered xs

    module _ (follow : (x y z : A) → R x y → R y z → R x z)
        (ahead : (x y : A) → before x y ≡ true → R x y)
        (behind : (x y : A) → before y x ≡ false → R x y) where
      All-follow : (x y : A) (zs : List A) → R x y → All (R y) zs → All (R x) zs
      All-follow x y [] r h = tt
      All-follow x y (z ∷ zs) r h = (follow x y z r h.0, All-follow x y zs r h.1)

      insert_in-IsOrdered : (x : A) (ys : List A) → IsOrdered ys → IsOrdered (insert_in x ys)
      unfolding insert_in
      insert_in-IsOrdered x [] h = (tt, tt)
      insert_in-IsOrdered x (y ∷ ys) h = elim (Bool-cases (before y x)) [
        | inl e ↦ rw e (All-insert_in (R y) x ys (ahead y x e) h.0, insert_in-IsOrdered x ys h.1)
        | inr e ↦ let r = behind x y e in rw e ((r, All-follow x y ys r h.0), h)
      ]

      pub sort-IsOrdered : (xs : List A) → IsOrdered (sort xs)
      unfolding sort
      sort-IsOrdered [] = tt
      sort-IsOrdered (x ∷ xs) = insert_in-IsOrdered x (sort xs) (sort-IsOrdered xs)
