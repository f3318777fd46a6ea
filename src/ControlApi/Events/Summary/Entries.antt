-- ===== src/ControlApi/Events/Summary/Entries.antt =====
-- The shape of a simulation summary: one entry for a rule, in order, within the bounds.
use bedem_waf.Common.{
  ℕ, zero, suc, ◌≤◌, String, Bool, true, false, not, ◌&&◌, ◌≡◌, ◌≢◌, refl, sym, arith, Option, none,
  some, List, [], ◌∷◌, ◌==◌, ltb, eqb, length, length-append, take, map, All, Bool-cases, inl, inr,
  eq_iff, if◌then◌else◌,
}
use bedem_waf.Common.Order.{sort, IsOrdered, sort-IsOrdered, All-sort, insert_in, All-insert_in}
use bedem_waf.Go.{Go}
use bedem_waf.Go.Maps.{GoMap, lookup, insert}
use bedem_waf.Policy.Rules.{is_member}
use bedem_waf.ControlApi.Events.{Event, SimulationRuleSummary}
use bedem_waf.ControlApi.Events.Summary.{
  Accumulator, or_new, with_ip, with_sample, add_event, summary_before, summary_of, rule_id_of,
  record_event, record_events, build_simulation_summary, top_paths, path_before,
}

-- An accumulator behind at least one event.
pub record IsCounted (a : Accumulator) : Type 0 where
  pub some_event : 1 ≤ a.count
  pub ips_min : length a.ips ≤ a.count
  pub samples_max : length a.samples ≤ 5

with_ip-length : (ip : String) (ips : List String) → length (with_ip ip ips) ≤ suc (length ips)
unfolding with_ip
with_ip-length ip ips = elim (Bool-cases (ip == "")) [
  | inl e ↦ rw e (omega arith)
  | inr e ↦ elim (Bool-cases (is_member ip ips)) [
    | inl f ↦ rw (e, f) (omega arith)
    | inr f ↦ rw (e, f) (omega arith)
  ]
]

with_sample-length :
    (id : String) (samples : List String) → length samples ≤ 5 → length (with_sample id samples) ≤ 5
unfolding with_sample
with_sample-length id samples h = elim (Bool-cases (not (id == "") && ltb (length samples) 5)) [
  | inl e ↦ rw (e, length-append samples (id ∷ [])) (ground (arith, e))
  | inr e ↦ rw e h
]

add_event-IsCounted :
    (e : Event) (a : Accumulator)
    → length a.ips ≤ a.count
    → length a.samples ≤ 5
    → IsCounted (add_event e a)
unfolding add_event
add_event-IsCounted e a few short = record {
  some_event = omega arith;
  ips_min = let h = with_ip-length e.client_ip a.ips in omega arith;
  samples_max = with_sample-length e.request_id a.samples short;
}

add_event-IsCounted_of :
    (e : Event) (found : Option Accumulator)
    → ((a : Accumulator) → found ≡ some a → IsCounted a)
    → IsCounted (add_event e (or_new e found))
add_event-IsCounted_of e none h = add_event-IsCounted e (or_new e none) (omega arith) (omega arith)
add_event-IsCounted_of e (some a) h =
    let good = h a refl in add_event-IsCounted e a good.ips_min good.samples_max

module _ {V : Type 0} (P : V → Type 0) where
  All-lookup :
      (k : String) (m : GoMap V) → All (λ entry. P entry.1) m → (v : V) → lookup k m ≡ some v → P v
  unfolding lookup
  All-lookup k [] h v e = cc
  All-lookup k ((j, w) ∷ m) h v e = elim (Bool-cases (j == k)) [
    | inl f ↦ let found = rw f at e in let same : w ≡ v = cc in rw (← same) h.0
    | inr f ↦ All-lookup k m h.1 v (rw f at e)
  ]

  All-insert :
      (k : String) (v : V) (m : GoMap V)
      → P v
      → All (λ entry. P entry.1) m
      → All (λ entry. P entry.1) (insert k v m)
  unfolding insert
  All-insert k v [] p h = (p, tt)
  All-insert k v ((j, w) ∷ m) p h = elim (Bool-cases (j == k)) [
    | inl f ↦ rw f (p, h.1)
    | inr f ↦ rw f (h.0, All-insert k v m p h.1)
  ]

-- The keys of a map are distinct.
module _ {V : Type 0} where
  Apart : String → GoMap V → Type 0
  Apart x m = All (λ entry. x ≢ entry.0) m

  HasDistinctKeys : GoMap V → Type 0
  HasDistinctKeys [] = Unit
  HasDistinctKeys ((k, v) ∷ m) = Apart k m × HasDistinctKeys m

  Apart-insert : (x k : String) (v : V) (m : GoMap V) → x ≢ k → Apart x m → Apart x (insert k v m)
  unfolding insert Apart
  Apart-insert x k v [] d h = (d, tt)
  Apart-insert x k v ((j, w) ∷ m) d h = elim (Bool-cases (j == k)) [
    | inl f ↦ rw f (d, h.1)
    | inr f ↦ rw f (h.0, Apart-insert x k v m d h.1)
  ]

  insert-HasDistinctKeys :
      (k : String) (v : V) (m : GoMap V) → HasDistinctKeys m → HasDistinctKeys (insert k v m)
  unfolding insert HasDistinctKeys Apart
  insert-HasDistinctKeys k v [] h = (tt, tt)
  insert-HasDistinctKeys k v ((j, w) ∷ m) h = elim (Bool-cases (j == k)) [
    | inl f ↦ let same = (eq_iff j k).0 f in rw f (rw same at h)
    | inr f ↦ rw f (
      Apart-insert j k v m (λ e. ground (arith, eq_iff j k)) h.0,
      insert-HasDistinctKeys k v m h.1,
    )
  ]

module _ (go : Go) where
  abbrev Good : GoMap Accumulator → Type 0
  Good m = All (λ entry. IsCounted entry.1) m × HasDistinctKeys m

  record_events-Good :
      (m : GoMap Accumulator) (es : List Event) → Good m → Good (record_events go m es)
  unfolding record_events record_event
  record_events-Good m [] h = h
  record_events-Good m (e ∷ es) h = elim (Bool-cases e.would_block) [
    | inl f ↦
        let id = rule_id_of go e in
        let counted =
          add_event-IsCounted_of e (lookup id m)
            (λ a found. All-lookup IsCounted id m h.0 a found) in
        rw f (
          record_events-Good (insert id (add_event e (or_new e (lookup id m))) m) es
            (All-insert IsCounted id _ m counted h.0, insert-HasDistinctKeys id _ m h.1))
    | inr f ↦ rw f (record_events-Good m es h)
  ]

-- An entry: its rule has at least one event, no more addresses than events, and at most five paths
-- and five requests are shown.
pub record IsWithin (s : SimulationRuleSummary) : Type 0 where
  pub some_event : 1 ≤ s.would_block_count
  pub ips_min : s.unique_ips ≤ s.would_block_count
  pub paths_max : length s.top_paths ≤ 5
  pub samples_max : length s.sample_request_ids ≤ 5

length-take : {A B : Type 0} (f : A → B) (n : ℕ) (xs : List A) → length (map f (take n xs)) ≤ n
length-take f zero xs = omega arith
length-take f (suc n) [] = omega arith
length-take f (suc n) (x ∷ xs) = let h = length-take f n xs in omega arith

summary_of-IsWithin :
    (m : GoMap Accumulator) → All (λ e. IsCounted e.1) m → All IsWithin (map summary_of m)
unfolding summary_of top_paths
summary_of-IsWithin [] h = tt
summary_of-IsWithin ((k, a) ∷ m) h = (
  record {
    some_event = h.0.some_event;
    ips_min = h.0.ips_min;
    paths_max = length-take _ 5 (sort path_before a.paths);
    samples_max = h.0.samples_max;
  },
  summary_of-IsWithin m h.1,
)

-- No two entries are of one rule.
abbrev pub HaveDistinctRules : List SimulationRuleSummary → Type 0
HaveDistinctRules [] = Unit
HaveDistinctRules (s ∷ ss) = All (λ t. s.rule_id ≢ t.rule_id) ss × HaveDistinctRules ss

Apart-map :
    (x : String) (m : GoMap Accumulator) → Apart x m → All (λ t. x ≢ t.rule_id) (map summary_of m)
unfolding Apart summary_of
Apart-map x [] h = tt
Apart-map x ((k, a) ∷ m) h = (h.0, Apart-map x m h.1)

map-HaveDistinctRules :
    (m : GoMap Accumulator) → HasDistinctKeys m → HaveDistinctRules (map summary_of m)
unfolding HasDistinctKeys summary_of
map-HaveDistinctRules [] h = tt
map-HaveDistinctRules ((k, a) ∷ m) h = (Apart-map k m h.0, map-HaveDistinctRules m h.1)

insert_in-HaveDistinctRules :
    (s : SimulationRuleSummary) (ss : List SimulationRuleSummary)
    → All (λ t. s.rule_id ≢ t.rule_id) ss
    → HaveDistinctRules ss
    → HaveDistinctRules (insert_in summary_before s ss)
unfolding insert_in
insert_in-HaveDistinctRules s [] d h = (tt, tt)
insert_in-HaveDistinctRules s (t ∷ ss) d h = elim (Bool-cases (summary_before t s)) [
  | inl e ↦ rw e (
    All-insert_in summary_before (λ u. t.rule_id ≢ u.rule_id) s ss (λ p. d.0 (sym p)) h.0,
    insert_in-HaveDistinctRules s ss d.1 h.1,
  )
  | inr e ↦ rw e (d, h)
]

sort-HaveDistinctRules :
    (ss : List SimulationRuleSummary)
    → HaveDistinctRules ss
    → HaveDistinctRules (sort summary_before ss)
unfolding sort
sort-HaveDistinctRules [] h = tt
sort-HaveDistinctRules (s ∷ ss) h =
    insert_in-HaveDistinctRules s (sort summary_before ss)
      (All-sort summary_before (λ t. s.rule_id ≢ t.rule_id) ss h.0) (sort-HaveDistinctRules ss h.1)

abbrev pub IsAtLeast : SimulationRuleSummary → SimulationRuleSummary → Type 0
IsAtLeast s t = t.would_block_count ≤ s.would_block_count

ahead_of : (m n : ℕ) (x : Bool) → (if eqb m n then x else ltb n m) ≡ true → n ≤ m
ahead_of m n x h = ground arith

behind_of : (m n : ℕ) (x : Bool) → (if eqb n m then x else ltb m n) ≡ false → n ≤ m
behind_of m n x h = ground arith

count_ahead : (s t : SimulationRuleSummary) → summary_before s t ≡ true → IsAtLeast s t
count_ahead s t h = ahead_of s.would_block_count t.would_block_count _ h

count_behind : (s t : SimulationRuleSummary) → summary_before t s ≡ false → IsAtLeast s t
count_behind s t h = behind_of s.would_block_count t.would_block_count _ h

-- A simulation summary has one entry for a rule, the rules with more blocked events before those with
-- fewer. Each entry counts at least one event and no more addresses than events, and shows at most
-- five paths and at most five requests.
pub build_simulation_summary_shape :
    (go : Go) (events : List Event)
    → HaveDistinctRules (build_simulation_summary go events)
      × IsOrdered summary_before IsAtLeast (build_simulation_summary go events)
      × All IsWithin (build_simulation_summary go events)
unfolding build_simulation_summary HasDistinctKeys
build_simulation_summary_shape go events =
    let (counted, distinct) = record_events-Good go [] events (tt, tt) in
    let m = record_events go [] events in
    (
      sort-HaveDistinctRules (map summary_of m) (map-HaveDistinctRules m distinct),
      sort-IsOrdered summary_before IsAtLeast (λ s t u p q. omega arith) count_ahead count_behind
          (map summary_of m),
      All-sort summary_before IsWithin (map summary_of m) (summary_of-IsWithin m counted),
    )
