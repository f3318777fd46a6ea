-- ===== src/ControlApi/Events/Summary/Counts.antt =====
-- What the entries of a simulation summary count.
use bedem_waf.Common.{
  ℕ, suc, ◌+◌, String, ◌&&◌, ◌≡◌, refl, ◌∙◌, arith, List, [], ◌∷◌, ◌==◌, map, Bool-cases, inl, inr,
  eq_iff, if◌then◌else◌,
}
use bedem_waf.Common.Order.{sort, insert_in}
use bedem_waf.Go.{Go}
use bedem_waf.Go.Maps.{GoMap, lookup, insert}
use bedem_waf.ControlApi.Events.{Event, SimulationRuleSummary}
use bedem_waf.ControlApi.Events.Summary.{
  Accumulator, or_new, add_event, summary_before, summary_of, rule_id_of, record_event,
  record_events, build_simulation_summary,
}

-- The would-block events of a rule.
unfoldable pub blocks_of : Go → String → List Event → ℕ
blocks_of go rule [] = 0
blocks_of go rule (e ∷ es) =
    if e.would_block && rule_id_of go e == rule
    then suc (blocks_of go rule es)
    else blocks_of go rule es

-- The sum of the counts of the entries of a rule.
unfoldable pub total_for : String → List SimulationRuleSummary → ℕ
total_for rule [] = 0
total_for rule (s ∷ ss) =
    if s.rule_id == rule then s.would_block_count + total_for rule ss else total_for rule ss

module _ (rule : String) where
  total_in : GoMap Accumulator → ℕ
  total_in [] = 0
  total_in ((k, a) ∷ m) = if k == rule then a.count + total_in m else total_in m

  total_for-map : (m : GoMap Accumulator) → total_for rule (map summary_of m) ≡ total_in m
  unfolding total_for total_in summary_of
  total_for-map [] = refl
  total_for-map ((k, a) ∷ m) = rw (total_for-map m) refl

  total_for-insert_in :
      (s : SimulationRuleSummary) (ss : List SimulationRuleSummary)
      → total_for rule (insert_in summary_before s ss) ≡ total_for rule (s ∷ ss)
  unfolding total_for insert_in
  total_for-insert_in s [] = refl
  total_for-insert_in s (t ∷ ss) =
      let rest = total_for-insert_in s ss in
      elim (Bool-cases (summary_before t s)) [
        | inl e ↦ rw e (ground (arith, rest))
        | inr e ↦ rw e refl
      ]

  total_in-insert :
      (k : String) (v : Accumulator) (m : GoMap Accumulator) (e : Event)
      → v.count ≡ suc (or_new e (lookup k m)).count
      → total_in (insert k v m) ≡ (if k == rule then suc (total_in m) else total_in m)
  unfolding total_in lookup insert
  total_in-insert k v [] e h = ground (arith, h)
  total_in-insert k v ((j, w) ∷ m) e h = elim (Bool-cases (j == k)) [
    | inl f ↦
        let same = (eq_iff j k).0 f in
        let count : v.count ≡ suc w.count = rw f at h in rw (f, same) (ground (arith, count))
    | inr f ↦ let rest = total_in-insert k v m e (rw f at h) in rw f (ground (arith, rest))
  ]

  total_for-sort :
      (ss : List SimulationRuleSummary)
      → total_for rule (sort summary_before ss) ≡ total_for rule ss
  unfolding total_for sort
  total_for-sort [] = refl
  total_for-sort (s ∷ ss) =
      let rest = total_for-sort ss in
      total_for-insert_in s (sort summary_before ss) ∙ (ground (arith, rest))

module _ (go : Go) (rule : String) where
  total_in-record_events :
      (m : GoMap Accumulator) (es : List Event)
      → total_in rule (record_events go m es) ≡ total_in rule m + blocks_of go rule es
  unfolding record_events record_event blocks_of add_event
  total_in-record_events m [] = omega arith
  total_in-record_events m (e ∷ es) = elim (Bool-cases e.would_block) [
    | inl f ↦
        let id = rule_id_of go e in
        let got = add_event e (or_new e (lookup id m)) in
        let rest = total_in-record_events (insert id got m) es in
        let step = total_in-insert rule id got m e refl in rw f (ground (arith, rest, step))
    | inr f ↦ let rest = total_in-record_events m es in rw f (ground (arith, rest))
  ]

  -- The counts of the entries of a rule in a simulation summary add up to the number of events that
  -- would have been blocked by that rule, in whatever order the events come.
  pub total_counted :
      (events : List Event)
      → total_for rule (build_simulation_summary go events) ≡ blocks_of go rule events
  unfolding build_simulation_summary total_in
  total_counted events =
      total_for-sort rule (map summary_of (record_events go [] events))
      ∙ total_for-map rule (record_events go [] events)
      ∙ total_in-record_events [] events
      ∙ (omega arith)
