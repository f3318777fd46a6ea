-- ===== src/ControlApi/Database/Atomic.antt =====
-- The outcomes of the transaction of UpdatePolicy in db.go.
use bedem_waf.Common.{String, ◌≡◌, ◌⊎◌, ap, arith, some, eqb, Bool-cases, inl, inr}
use bedem_waf.Common.Result.{ok, err}
use bedem_waf.Go.{Go}
use bedem_waf.ControlApi.Events.{Time}
use bedem_waf.ControlApi.Models.{Policy, UpdatePolicyRequest, DbError, Stored}
use bedem_waf.ControlApi.Database.{
  Database, Codecs, Step, ◌>>=◌, ◌>>◌, done, failed, metadata_with_snapshot,
}
use bedem_waf.ControlApi.Database.Policies.{
  changed_policy, unchanged_since, update_steps, update_policy,
}
use bedem_waf.ControlApi.Database.Steps.{
  chain-run_row, chain-from_option, run_row-ok, transact_cases,
}

module _ (go : Go) (codecs : Codecs) {D T : Type 0} (db : Database D T) (d : D)
    (tenant_id id : String) where
  -- The update was committed: the row was as old as the request expects, and the changed row was
  -- written with its snapshot.
  pub record IsUpdated (req : UpdatePolicyRequest) (answer : Stored D Policy) : Type 0 where
    pub start : T
    pub began : db.begin d ≡ some start
    pub current : Policy
    pub locked : T
    pub read : db.select_policy_for_update start tenant_id id ≡ (ok current, locked)
    pub expected : current.updated_at ≡ req.expected_updated_at
    pub metadata : String
    pub encoded :
        metadata_with_snapshot codecs (changed_policy req current).snapshot ≡ some metadata
    pub updated : Policy
    pub written : T
    pub wrote :
        db.update_policy_row locked id
          (changed_policy req current).name
          (changed_policy req current).mode
          (changed_policy req current).enabled
          metadata
          tenant_id
        ≡ (ok updated, written)
    pub behind : D
    pub committed : db.commit written ≡ some behind
    pub answered : answer ≡ (ok updated, behind)

  chain-unchanged_since :
      {B : Type 0} (x y : Time) (k : Step T B) (t : T) (b : B) (t' : T)
      → (unchanged_since x y >>= λ _. k) t ≡ (ok b, t')
      → (x ≡ y) × (k t ≡ (ok b, t'))
  unfolding ◌>>=◌ unchanged_since done failed
  chain-unchanged_since x y k t b t' h = elim (Bool-cases (eqb x y)) [
    | inl e ↦ (ground (arith, e), rw e at h)
    | inr e ↦ let k = ap (λ x. x.0) (rw e at h) in cc
  ]

  -- The steps of UpdatePolicy behind a transaction that has begun.
  update_steps-IsUpdated :
      (req : UpdatePolicyRequest) (answer : Stored D Policy) (t : T) (updated : Policy) (t' : T)
      (d' : D)
      → db.begin d ≡ some t
      → update_steps go codecs db tenant_id id req t ≡ (ok updated, t')
      → db.commit t' ≡ some d'
      → answer ≡ (ok updated, d')
      → IsUpdated req answer
  unfolding update_steps ◌>>◌
  update_steps-IsUpdated req answer t updated t' d' began ran ended said =
      let (current, locked, read, h₁) =
        chain-run_row (λ t. db.select_policy_for_update t tenant_id id) _ t updated t' ran in
      let (expected, h₂) =
        chain-unchanged_since current.updated_at req.expected_updated_at _ locked updated t' h₁ in
      let (metadata, text, h₃) =
        chain-from_option (metadata_with_snapshot codecs (changed_policy req current).snapshot) _
          locked updated t' h₂ in
      record {
        start = t;
        began = began;
        current = current;
        locked = locked;
        read = read;
        expected = expected;
        metadata = metadata;
        encoded = text;
        updated = updated;
        written = t';
        wrote = run_row-ok _ locked updated t' h₃;
        behind = d';
        committed = ended;
        answered = said;
      }

  -- UpdatePolicy either fails and leaves the database as it was, or it has written the policy with the
  -- changes of the request over a row that was last updated at the very time that the request expects,
  -- and has committed.
  pub update_policy_cases :
      (req : UpdatePolicyRequest)
      → ((e : DbError) × (update_policy go codecs db d tenant_id id req ≡ (err e, d)))
        ⊎ IsUpdated req (update_policy go codecs db d tenant_id id req)
  unfolding update_policy
  update_policy_cases req =
      elim (transact_cases db d (update_steps go codecs db tenant_id id req)) [
        | inl failure ↦ inl failure
        | inr (t, updated, t', d', began, ran, ended, said) ↦
            inr (update_steps-IsUpdated req _ t updated t' d' began ran ended said)
      ]
