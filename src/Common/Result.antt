-- ===== src/Common/Result.antt =====
-- A value or an error, for functions that return `(value, error)`.
use mathlib.Core.Path.{◌≡◌, refl, ap}
use mathlib.Core.Bool.{Bool, true, false}

pub data Result {ℓ κ} (E : Type ℓ) (A : Type κ) : Type (ℓ ⊔ κ) where
  ok : A → Result E A
  err : E → Result E A

infixl 5 ◌>>=◌ ◌>>◌
abbrev pub ◌>>=◌ {ℓ κ μ} :
    {E : Type ℓ} {A : Type κ} {B : Type μ} → Result E A → (A → Result E B) → Result E B
ok a >>= f = f a
err e >>= f = err e

abbrev pub ◌>>◌ {ℓ μ} : {E : Type ℓ} {B : Type μ} → Result E (Unit {0}) → Result E B → Result E B
m >> k = m >>= λ _. k

-- `if bad { return err }`
abbrev pub refuse {ℓ} : {E : Type ℓ} → Bool → E → Result E (Unit {0})
refuse true e = err e
refuse false e = ok tt

-- `fmt.Errorf("…: %w", err)`
abbrev pub map_err {ℓ κ} : {E : Type ℓ} {A : Type κ} → (E → E) → Result E A → Result E A
map_err f (ok a) = ok a
map_err f (err e) = err (f e)

abbrev pub is_ok {ℓ κ} : {E : Type ℓ} {A : Type κ} → Result E A → Bool
is_ok (ok a) = true
is_ok (err e) = false

module _ {ℓ κ μ} {E : Type ℓ} {A : Type κ} {B : Type μ} where
  -- A chain that succeeds: its first part did, and the rest did on the value.
  pub >>=-eq-ok :
      (first : Result E A) (next : A → Result E B) {y : B}
      → (first >>= next) ≡ ok y
      → (x : A) × (first ≡ ok x) × (next x ≡ ok y)
  >>=-eq-ok (err e) next fails = cc
  >>=-eq-ok (ok x) next runs = (x, refl, runs)

pub >>-eq-ok {ℓ μ} :
    {E : Type ℓ} {B : Type μ} (m : Result E (Unit {0})) (k : Result E B) {b : B}
    → (m >> k) ≡ ok b
    → (m ≡ ok tt) × (k ≡ ok b)
>>-eq-ok (ok tt) k h = (refl, h)
>>-eq-ok (err e) k h = (cc, cc)

pub map_err-eq-ok {ℓ κ} :
    {E : Type ℓ} {A : Type κ} (f : E → E) (m : Result E A) {a : A} → map_err f m ≡ ok a → m ≡ ok a
map_err-eq-ok f (ok b) h = h
map_err-eq-ok f (err e) h = cc

pub refuse-eq-ok {ℓ} : {E : Type ℓ} (b : Bool) (e : E) → refuse b e ≡ ok tt → b ≡ false
refuse-eq-ok true e h = cc
refuse-eq-ok false e h = refl

-- The rest of a chain behind a test runs when the test fails, and only then.
module _ {ℓ μ} {E : Type ℓ} {B : Type μ} where
  pub refuse->>-eq-ok :
      (b : Bool) (e : E) (k : Result E B) {x : B}
      → (refuse b e >> k) ≡ ok x
      → (b ≡ false) × (k ≡ ok x)
  refuse->>-eq-ok true e k h = (cc, cc)
  refuse->>-eq-ok false e k h = (refl, h)

  pub refuse->>_of_false : (b : Bool) (e : E) (k : Result E B) → b ≡ false → (refuse b e >> k) ≡ k
  refuse->>_of_false true e k h = cc
  refuse->>_of_false false e k h = refl

module _ {ℓ κ} {E : Type ℓ} {A : Type κ} where
  value_or : A → Result E A → A
  value_or d (ok a) = a
  value_or d (err e) = d

  pub ok_injective : {a b : A} → Path (Result E A) (ok a) (ok b) → a ≡ b
  unfolding value_or
  ok_injective {a = a} h = ap (value_or a) h
