-- ===== src/Common/Order/Texts.antt =====
-- The order of texts.
use Prim.Native.Nat.{Ordering, compare as compare_ℕ}
use Prim.Native.Char.{Char, code}
use Prim.Native.String.{String, [], ◌∷◌, compare, then as decides}
use Prim.Native.String.compare
use bedem_waf.Common.Tests.{ltb, eqb, Bool-cases}
use mathlib.Core.List.{List}
use mathlib.Core.Logic.{inl, inr}
use text.Mathlib.Text.{◌==◌}
use text.Mathlib.TextEquality.{eq_iff}
use bedem_waf.Common.Order.{text_before, insert_in}
use mathlib.Core.Path.{◌≡◌, ap, refl, sym, ◌∙◌}
use mathlib.Core.Bool.{Bool, true, false, ◌&&◌, ◌||◌}
use native.Mathlib.Omega.{arith}
use text.Mathlib.TextEquality.{Char-path}

-- The same as a test for "less", as one of its answers.
abbrev before : Ordering → Bool
before o = elim o [ Ordering.lt ↦ true | _ ↦ false ]

before-decides :
    (o p : Ordering)
    → before (decides o p) ≡ (before o || (elim o [ Ordering.eq ↦ true | _ ↦ false ] && before p))
before-decides Ordering.lt p = refl
before-decides Ordering.eq p = refl
before-decides Ordering.gt p = refl

-- The first characters decide, and the rest where they are equal.
text_before-cons :
    (c d : Char) (s t : String)
    → text_before (c ∷ s) (d ∷ t)
      ≡ (ltb (code c) (code d) || (eqb (code c) (code d) && text_before s t))
text_before-cons c d s t =
    ap before (compare.cons-cons c d s t)
    ∙ before-decides (compare_ℕ (code c) (code d)) (compare s t)

text_before-nil : (s : String) → text_before s [] ≡ false
text_before-nil [] = refl
text_before-nil (c ∷ s) = ap before (compare.cons-nil c s)

nil-before : (d : Char) (t : String) → text_before [] (d ∷ t) ≡ true
nil-before d t = ap before (compare.nil-cons d t)

text_before_trans :
    (s t u : String) → text_before s t ≡ true → text_before t u ≡ true → text_before s u ≡ true
text_before_trans [] [] u h k = k
text_before_trans [] (d ∷ t) [] h k = ground (arith, text_before-nil (d ∷ t), k)
text_before_trans [] (d ∷ t) (e ∷ u) h k = nil-before e u
text_before_trans (c ∷ s) [] u h k = ground (arith, text_before-nil (c ∷ s), h)
text_before_trans (c ∷ s) (d ∷ t) [] h k = ground (arith, text_before-nil (d ∷ t), k)
text_before_trans (c ∷ s) (d ∷ t) (e ∷ u) h k =
    let later = text_before_trans s t u in
    let h₁ = sym (text_before-cons c d s t) ∙ h in
    let k₁ = sym (text_before-cons d e t u) ∙ k in
    text_before-cons c e s u ∙ ground (arith, later, h₁, k₁)

-- Of two texts that differ exactly one comes before the other.
pub text_before_asym : (s t : String) → text_before s t ≡ true → text_before t s ≡ false
text_before_asym [] [] h = refl
text_before_asym [] (d ∷ t) h = text_before-nil (d ∷ t)
text_before_asym (c ∷ s) [] h = ground (arith, text_before-nil (c ∷ s), h)
text_before_asym (c ∷ s) (d ∷ t) h =
    let later = text_before_asym s t in
    let h₁ = sym (text_before-cons c d s t) ∙ h in
    text_before-cons d c t s ∙ ground (arith, later, h₁)

pub text_before_total : (s t : String) → text_before s t ≡ false → text_before t s ≡ false → s ≡ t
text_before_total [] [] h k = refl
text_before_total [] (d ∷ t) h k = ground (arith, nil-before d t, h)
text_before_total (c ∷ s) [] h k = ground (arith, nil-before c s, k)
text_before_total (c ∷ s) (d ∷ t) h k =
    let later = text_before_total s t in
    let h₁ = sym (text_before-cons c d s t) ∙ h in
    let k₁ = sym (text_before-cons d c t s) ∙ k in
    let same : code c ≡ code d = ground (arith, h₁, k₁) in
    let rest : s ≡ t = later ground (arith, same, h₁, k₁) ground (arith, same, h₁, k₁) in
    λ i. Char-path c d same i ∷ rest i

text_before_le_trans :
    (x y z : String) → text_before z y ≡ false → text_before z x ≡ true → text_before y x ≡ true
text_before_le_trans x y z h k = elim (Bool-cases (text_before y z)) [
  | inl e ↦ text_before_trans y z x e k
  | inr e ↦ rw (text_before_total y z e h) k
]

abbrev pub put : String → List String → List String
put x zs = insert_in text_before x zs

put_behind :
    (x z : String) (zs : List String)
    → text_before z x ≡ true
    → put x (List.◌∷◌ z zs) ≡ List.◌∷◌ z (put x zs)
unfolding insert_in
put_behind x z zs h = rw h refl

put_ahead :
    (x z : String) (zs : List String)
    → text_before z x ≡ false
    → put x (List.◌∷◌ z zs) ≡ List.◌∷◌ x (List.◌∷◌ z zs)
unfolding insert_in
put_ahead x z zs h = rw h refl

put_nil : (x : String) → put x List.[] ≡ List.◌∷◌ x List.[]
unfolding insert_in
put_nil x = refl

-- Where the first element comes between the two.
put_comm_apart :
    (x y z : String) (zs : List String)
    → text_before z x ≡ true
    → text_before z y ≡ false
    → put x (put y (List.◌∷◌ z zs)) ≡ put y (put x (List.◌∷◌ z zs))
put_comm_apart x y z zs e f =
    ap (put x) (put_ahead y z zs f)
    ∙ put_behind x y (List.◌∷◌ z zs) (text_before_le_trans x y z f e)
    ∙ ap (λ w. List.◌∷◌ y w) (put_behind x z zs e)
    ∙ sym (put_ahead y z (put x zs) f)
    ∙ sym (ap (put y) (put_behind x z zs e))

-- Where neither of two texts goes behind the first element.
put_comm_ahead :
    (x y : String) (zs : List String)
    → put x zs ≡ List.◌∷◌ x zs
    → put y zs ≡ List.◌∷◌ y zs
    → put x (List.◌∷◌ y zs) ≡ put y (List.◌∷◌ x zs)
put_comm_ahead x y zs p q = elim (Bool-cases (text_before y x)) [
  | inl e ↦
      put_behind x y zs e
      ∙ ap (λ w. List.◌∷◌ y w) p
      ∙ sym (put_ahead y x zs (text_before_asym y x e))
  | inr e ↦ elim (Bool-cases (text_before x y)) [
    | inl f ↦ put_ahead x y zs e ∙ ap (λ w. List.◌∷◌ x w) (sym q) ∙ sym (put_behind y x zs f)
    | inr f ↦ rw (text_before_total x y f e) refl
  ]
]

-- The order in which texts are put into a list does not matter.
pub put_comm : (x y : String) (zs : List String) → put x (put y zs) ≡ put y (put x zs)
put_comm x y List.[] =
    ap (put x) (put_nil y)
    ∙ put_comm_ahead x y List.[] (put_nil x) (put_nil y)
    ∙ sym (ap (put y) (put_nil x))
put_comm x y (List.◌∷◌ z zs) = elim (Bool-cases (text_before z x)) [
  | inl e ↦ elim (Bool-cases (text_before z y)) [
    | inl f ↦
        ap (put x) (put_behind y z zs f)
        ∙ put_behind x z (put y zs) e
        ∙ ap (λ w. List.◌∷◌ z w) (put_comm x y zs)
        ∙ sym (put_behind y z (put x zs) f)
        ∙ sym (ap (put y) (put_behind x z zs e))
    | inr f ↦ put_comm_apart x y z zs e f
  ]
  | inr e ↦ elim (Bool-cases (text_before z y)) [
    | inl f ↦ sym (put_comm_apart y x z zs f e)
    | inr f ↦
        ap (put x) (put_ahead y z zs f)
        ∙ put_comm_ahead x y (List.◌∷◌ z zs) (put_ahead x z zs e) (put_ahead y z zs f)
        ∙ sym (ap (put y) (put_ahead x z zs e))
  ]
]

-- Whether two texts are the same can be decided.
pub text_discrete : Discrete String
text_discrete s t = elim (Bool-cases (s == t)) [
  | inl e ↦ yes ((eq_iff s t).0 e)
  | inr e ↦ no (λ p. ground (arith, eq_iff s t, p, e))
]
