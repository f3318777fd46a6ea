-- ===== src/Common/Sort.antt =====
-- `sort.SliceStable` by an integer key: a stable sort, of which there is one as a function, written
-- as an insertion sort.
use mathlib.Core.Logic.{inl, inr}
use mathlib.Core.List.{List, [], ◌∷◌, Perm}
use mathlib.Core.List.Perm
use bedem_waf.Common.Tests.{if◌then◌else◌, Bool-cases}
use bedem_waf.Common.Lists.{All}
use bedem_waf.Common.Int.{ℤ, leb_ℤ, ◌≤ℤ◌, ≤ℤ_total, ≤ℤ_trans, leb_ℤ→le}

module _ {A : Type 0} (key : A → ℤ) where
  -- Before the first element whose key is not smaller.
  pub insert_by : A → List A → List A
  insert_by x [] = x ∷ []
  insert_by x (y ∷ ys) = if leb_ℤ (key x) (key y) then x ∷ y ∷ ys else y ∷ insert_by x ys

  unfoldable pub stable_sort : List A → List A
  unfolding insert_by
  stable_sort [] = []
  stable_sort (x ∷ xs) = insert_by x (stable_sort xs)

  -- Each key is at most every later one.
  abbrev pub IsSortedBy : List A → Type 0
  IsSortedBy [] = Unit
  IsSortedBy (x ∷ xs) = All (λ y. key x ≤ℤ key y) xs × IsSortedBy xs

  All-insert_by : (P : A → Type 0) (x : A) (ys : List A) → P x → All P ys → All P (insert_by x ys)
  unfolding insert_by
  All-insert_by P x [] p h = (p, tt)
  All-insert_by P x (y ∷ ys) p h = elim (Bool-cases (leb_ℤ (key x) (key y))) [
    | inl e ↦ rw e (p, h)
    | inr e ↦ rw e (h.0, All-insert_by P x ys p h.1)
  ]

  pub All-stable_sort : (P : A → Type 0) (xs : List A) → All P xs → All P (stable_sort xs)
  unfolding stable_sort
  All-stable_sort P [] h = tt
  All-stable_sort P (x ∷ xs) h = All-insert_by P x (stable_sort xs) h.0 (All-stable_sort P xs h.1)

  All-le_trans :
      (x y : A) (zs : List A)
      → key x ≤ℤ key y
      → All (λ z. key y ≤ℤ key z) zs
      → All (λ z. key x ≤ℤ key z) zs
  All-le_trans x y [] h k = tt
  All-le_trans x y (z ∷ zs) h k =
      (≤ℤ_trans (key x) (key y) (key z) h k.0, All-le_trans x y zs h k.1)

  insert_by-IsSortedBy : (x : A) (ys : List A) → IsSortedBy ys → IsSortedBy (insert_by x ys)
  unfolding insert_by
  insert_by-IsSortedBy x [] h = (tt, tt)
  insert_by-IsSortedBy x (y ∷ ys) h = elim (Bool-cases (leb_ℤ (key x) (key y))) [
    | inl e ↦ let le = leb_ℤ→le (key x) (key y) e in rw e ((le, All-le_trans x y ys le h.0), h)
    | inr e ↦
        let ge = leb_ℤ→le (key y) (key x) (≤ℤ_total (key x) (key y) e) in
        rw e (All-insert_by (λ z. key y ≤ℤ key z) x ys ge h.0, insert_by-IsSortedBy x ys h.1)
  ]

  pub stable_sort-IsSortedBy : (xs : List A) → IsSortedBy (stable_sort xs)
  unfolding stable_sort
  stable_sort-IsSortedBy [] = tt
  stable_sort-IsSortedBy (x ∷ xs) =
      insert_by-IsSortedBy x (stable_sort xs) (stable_sort-IsSortedBy xs)

  insert_by-perm : (x : A) (ys : List A) → Perm (insert_by x ys) (x ∷ ys)
  unfolding insert_by
  insert_by-perm x [] = Perm.refl (x ∷ [])
  insert_by-perm x (y ∷ ys) = elim (Bool-cases (leb_ℤ (key x) (key y))) [
    | inl e ↦ rw e (Perm.refl (x ∷ y ∷ ys))
    | inr e ↦ rw e (Perm.trans (Perm.cons y (insert_by-perm x ys)) (Perm.swap x y ys))
  ]

  pub stable_sort-perm : (xs : List A) → Perm (stable_sort xs) xs
  unfolding stable_sort
  stable_sort-perm [] = Perm.refl []
  stable_sort-perm (x ∷ xs) =
      Perm.trans (insert_by-perm x (stable_sort xs)) (Perm.cons x (stable_sort-perm xs))
