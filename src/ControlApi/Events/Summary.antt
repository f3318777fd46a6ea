-- ===== src/ControlApi/Events/Summary.antt =====
-- BuildSimulationSummary and topPaths of events.go. The maps are association lists, and a set of
-- texts is the list of its elements.
pub mod Counts
pub mod Entries
use bedem_waf.Common.{
  ℕ, suc, String, Bool, true, false, not, ◌&&◌, Option, none, some, List, [], ◌∷◌, ◌++◌, ◌==◌, ltb,
  eqb, length, take, map, if◌then◌else◌,
}
use bedem_waf.Common.Order.{sort, text_before}
use bedem_waf.Go.{Go}
use bedem_waf.Go.Maps.{GoMap, lookup, insert}
use bedem_waf.Go.Text.{trim_space}
use bedem_waf.Policy.Rules.{is_member}
use bedem_waf.ControlApi.Events.{Event, SimulationRuleSummary}

pub record Accumulator : Type 0 where
  pub rule_name : String
  pub count : ℕ
  pub ips : List String
  pub paths : GoMap ℕ
  pub samples : List String

-- `counts[path]`, 0 for a missing key
abbrev pub count_or_zero : Option ℕ → ℕ
count_or_zero none = 0
count_or_zero (some n) = n

-- A new accumulator for a rule that has none.
abbrev pub or_new : Event → Option Accumulator → Accumulator
or_new e none = record {
  rule_name = e.matched_rule_name;
  count = 0;
  ips = [];
  paths = [];
  samples = [];
}
or_new e (some got) = got

unfoldable pub with_ip : String → List String → List String
with_ip ip ips = if ip == "" then ips else if is_member ip ips then ips else ip ∷ ips

unfoldable pub with_path : String → GoMap ℕ → GoMap ℕ
unfolding lookup insert
with_path path paths =
    if path == "" then paths else insert path (suc (count_or_zero (lookup path paths))) paths

unfoldable pub with_sample : String → List String → List String
with_sample id samples =
    if not (id == "") && ltb (length samples) 5 then samples ++ (id ∷ []) else samples

unfoldable pub add_event : Event → Accumulator → Accumulator
unfolding with_ip with_path with_sample
add_event e got = record {
  rule_name = got.rule_name;
  count = suc got.count;
  ips = with_ip e.client_ip got.ips;
  paths = with_path e.path got.paths;
  samples = with_sample e.request_id got.samples;
}

-- More often before less often, and paths of one count by their text.
abbrev pub path_before : String × ℕ → String × ℕ → Bool
path_before a b = if eqb a.1 b.1 then text_before a.0 b.0 else ltb b.1 a.1

unfoldable pub top_paths : GoMap ℕ → ℕ → List String
unfolding sort
top_paths counts limit = map (λ item. item.0) (take limit (sort path_before counts))

abbrev pub summary_before : SimulationRuleSummary → SimulationRuleSummary → Bool
summary_before a b =
    if eqb a.would_block_count b.would_block_count
    then text_before a.rule_id b.rule_id
    else ltb b.would_block_count a.would_block_count

unfoldable pub summary_of : String × Accumulator → SimulationRuleSummary
unfolding top_paths
summary_of entry = record {
  rule_id = entry.0;
  rule_name = entry.1.rule_name;
  would_block_count = entry.1.count;
  unique_ips = length entry.1.ips;
  top_paths = top_paths entry.1.paths 5;
  sample_request_ids = entry.1.samples;
}

module _ (go : Go) where
  unfoldable pub rule_id_of : Event → String
  unfolding trim_space
  rule_id_of e = let id = trim_space go e.matched_rule_id in if id == "" then "unknown" else id

  -- One round of the loop.
  unfoldable pub record_event : GoMap Accumulator → Event → GoMap Accumulator
  unfolding rule_id_of add_event lookup insert
  record_event by_rule e =
      let id = rule_id_of e in
      if e.would_block
      then insert id (add_event e (or_new e (lookup id by_rule))) by_rule
      else by_rule

  unfoldable pub record_events : GoMap Accumulator → List Event → GoMap Accumulator
  unfolding record_event
  record_events by_rule [] = by_rule
  record_events by_rule (e ∷ es) = record_events (record_event by_rule e) es

  unfoldable pub build_simulation_summary : List Event → List SimulationRuleSummary
  unfolding record_events summary_of sort
  build_simulation_summary input = sort summary_before (map summary_of (record_events [] input))
