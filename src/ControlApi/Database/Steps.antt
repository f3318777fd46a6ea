-- ===== src/ControlApi/Database/Steps.antt =====
-- Chains of steps that succeed, and the outcomes of a transaction.
use bedem_waf.Common.{◌≡◌, ◌⊎◌, refl, ap, Option, none, some, Option-cases, inl, inr}
use bedem_waf.Common.Result.{Result, ok, err, ok_injective}
use bedem_waf.ControlApi.Models.{DbError, db_failed, Stored}
use bedem_waf.ControlApi.Database.{
  Database, Ran, Step, step_on, ◌>>=◌, done, run_row, run, from_option, transact,
}

Run-cases :
    {T E A : Type 0} (m : Result E A × T)
    → ((e : E) × (t : T) × (m ≡ (err e, t))) ⊎ ((a : A) × (t : T) × (m ≡ (ok a, t)))
Run-cases (ok a, t) = inr (a, t, refl)
Run-cases (err e, t) = inl (e, t, refl)

-- A chain of steps that succeeds: its first part did, and the rest did behind it.
module _ {T A B : Type 0} where
  step_on-ok :
      (f : A → Step T B) (m : Result DbError A × T) (b : B) (t' : T)
      → step_on f m ≡ (ok b, t')
      → (a : A) × (t₁ : T) × (m ≡ (ok a, t₁)) × (f a t₁ ≡ (ok b, t'))
  step_on-ok f (ok a, t) b t' h = (a, t, refl, h)
  step_on-ok f (err e, t) b t' h = let k = ap (λ x. x.0) h in cc

  pub chain-ok :
      (m : Step T A) (f : A → Step T B) (t : T) (b : B) (t' : T)
      → (m >>= f) t ≡ (ok b, t')
      → (a : A) × (t₁ : T) × (m t ≡ (ok a, t₁)) × (f a t₁ ≡ (ok b, t'))
  unfolding ◌>>=◌
  chain-ok m f t b t' h = step_on-ok f (m t) b t' h

module _ {T A : Type 0} where
  pub run-ok :
      (statement : T → Ran T A) (t : T) (a : A) (t' : T)
      → run statement t ≡ (ok a, t')
      → statement t ≡ (ok a, t')
  unfolding run
  run-ok statement t a t' h = elim (Run-cases (statement t)) [
    | inl (e, u, p) ↦ let k = ap (λ x. x.0) (rw p at h) in cc
    | inr (b, u, p) ↦
        let k = rw p at h in rw (p, ok_injective (ap (λ x. x.0) k), ap (λ x. x.1) k) refl
  ]

  pub run_row-ok :
      (statement : T → Ran T A) (t : T) (a : A) (t' : T)
      → run_row statement t ≡ (ok a, t')
      → statement t ≡ (ok a, t')
  unfolding run_row
  run_row-ok statement t a t' h = elim (Run-cases (statement t)) [
    | inl (e, u, p) ↦ let k = ap (λ x. x.0) (rw p at h) in cc
    | inr (b, u, p) ↦
        let k = rw p at h in rw (p, ok_injective (ap (λ x. x.0) k), ap (λ x. x.1) k) refl
  ]

  pub from_option-ok :
      (o : Option A) (t : T) (a : A) (t' : T)
      → from_option o t ≡ (ok a, t')
      → (o ≡ some a) × (t ≡ t')
  unfolding from_option
  from_option-ok none t a t' h = let k = ap (λ x. x.0) h in cc
  from_option-ok (some b) t a t' h = (ap some (ok_injective (ap (λ x. x.0) h)), ap (λ x. x.1) h)

  pub done-ok : (b : A) (t : T) (a : A) (t' : T) → done b t ≡ (ok a, t') → (b ≡ a) × (t ≡ t')
  unfolding done
  done-ok b t a t' h = (ok_injective (ap (λ x. x.0) h), ap (λ x. x.1) h)

module _ {T A B : Type 0} where
  pub chain-run :
      (statement : T → Ran T A) (f : A → Step T B) (t : T) (b : B) (t' : T)
      → (run statement >>= f) t ≡ (ok b, t')
      → (a : A) × (t₁ : T) × (statement t ≡ (ok a, t₁)) × (f a t₁ ≡ (ok b, t'))
  chain-run statement f t b t' h =
      let (a, t₁, ran, rest) = chain-ok (run statement) f t b t' h in
      (a, t₁, run-ok statement t a t₁ ran, rest)

  pub chain-run_row :
      (statement : T → Ran T A) (f : A → Step T B) (t : T) (b : B) (t' : T)
      → (run_row statement >>= f) t ≡ (ok b, t')
      → (a : A) × (t₁ : T) × (statement t ≡ (ok a, t₁)) × (f a t₁ ≡ (ok b, t'))
  chain-run_row statement f t b t' h =
      let (a, t₁, ran, rest) = chain-ok (run_row statement) f t b t' h in
      (a, t₁, run_row-ok statement t a t₁ ran, rest)

  pub chain-from_option :
      (o : Option A) (f : A → Step T B) (t : T) (b : B) (t' : T)
      → (from_option o >>= f) t ≡ (ok b, t')
      → (a : A) × (o ≡ some a) × (f a t ≡ (ok b, t'))
  chain-from_option o f t b t' h =
      let (a, t₁, found, rest) = chain-ok (from_option o) f t b t' h in
      let (value, same) = from_option-ok o t a t₁ found in (a, value, rw same rest)

module _ {D T A : Type 0} (db : Database D T) (d : D) (body : Step T A) where
  -- A transaction that ran to its commit.
  abbrev pub HasCommitted : Stored D A → Type 0
  HasCommitted answer =
      (t : T) × (a : A) × (t' : T) × (d' : D) × (db.begin d ≡ some t)
      × (body t ≡ (ok a, t'))
      × (db.commit t' ≡ some d')
      × (answer ≡ (ok a, d'))

  -- It fails and leaves the database alone, or it has committed.
  pub transact_cases :
      ((e : DbError) × (transact db d body ≡ (err e, d))) ⊎ HasCommitted (transact db d body)
  unfolding transact
  transact_cases = elim (Option-cases (db.begin d)) [
    | inl e ↦ inl (db_failed, rw e refl)
    | inr (t, e) ↦ elim (Run-cases (body t)) [
      | inl (x, t', f) ↦ inl (x, rw (e, f) refl)
      | inr (a, t', f) ↦ elim (Option-cases (db.commit t')) [
        | inl g ↦ inl (db_failed, rw (e, f, g) refl)
        | inr (d', g) ↦ inr (t, a, t', d', e, f, g, rw (e, f, g) refl)
      ]
    ]
  ]
