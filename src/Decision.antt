-- ===== src/Decision.antt =====
-- services/gateway/internal/decision/decision.go
pub mod Enforcement
use bedem_waf.Common.{
  ℕ, String, Bool, true, false, ◌||◌, ◌&&◌, Option, none, some, List, [], ◌==◌, if◌then◌else◌, ◌≡◌,
  refl,
}
use bedem_waf.Common.Int.{ℤ, pos}

-- Whether a string is one of the constants of the type `Action`.
abbrev pub is_constant : String → Bool
is_constant s =
    s == "allow" || s == "count" || s == "block" || s == "challenge" || s == "rate_limit"

-- The type `Action` is a string in Go: one of the five constants, or any other string.
pub data Action : Type 0 where
  allow count block challenge rate_limit : Action
  other : (s : String) → is_constant s ≡ false → Action

abbrev pub constant_of : String → Action
constant_of s =
    if s == "allow"
    then allow
    else if s == "count"
    then count
    else if s == "block"
    then block
    else if s == "challenge"
    then challenge
    else rate_limit

-- With the test whether the string is a constant.
abbrev pub action_by : (s : String) (b : Bool) → is_constant s ≡ b → Action
action_by s true e = constant_of s
action_by s false e = other s e

-- The conversion `decision.Action(s)`.
unfoldable pub action_of : String → Action
action_of s = action_by s (is_constant s) refl

-- The conversion `string(action)`.
unfoldable pub action_string : Action → String
action_string allow = "allow"
action_string count = "count"
action_string block = "block"
action_string challenge = "challenge"
action_string rate_limit = "rate_limit"
action_string (other s e) = s

-- The type `Mode` is a string in Go: one of the two constants, or any other string.
abbrev pub is_mode_constant : String → Bool
is_mode_constant s = s == "count" || s == "block"

pub data Mode : Type 0 where
  count_mode block_mode : Mode
  other_mode : (s : String) → is_mode_constant s ≡ false → Mode

abbrev pub mode_by : (s : String) (b : Bool) → is_mode_constant s ≡ b → Mode
mode_by s true e = if s == "count" then count_mode else block_mode
mode_by s false e = other_mode s e

-- The conversions `decision.Mode(s)` and `string(mode)`.
unfoldable pub mode_of : String → Mode
mode_of s = mode_by s (is_mode_constant s) refl

unfoldable pub mode_string : Mode → String
mode_string count_mode = "count"
mode_string block_mode = "block"
mode_string (other_mode s e) = s

-- The tests `a == ActionAllow`, and so on.
abbrev pub is_allow : Action → Bool
is_allow allow = true
is_allow _ = false

abbrev pub is_count : Action → Bool
is_count count = true
is_count _ = false

abbrev pub is_block : Action → Bool
is_block block = true
is_block _ = false

abbrev pub is_challenge : Action → Bool
is_challenge challenge = true
is_challenge _ = false

abbrev pub is_rate_limit : Action → Bool
is_rate_limit rate_limit = true
is_rate_limit _ = false

abbrev pub is_count_mode : Mode → Bool
is_count_mode count_mode = true
is_count_mode _ = false

abbrev pub is_block_mode : Mode → Bool
is_block_mode block_mode = true
is_block_mode _ = false

-- `ResetAt` is in seconds since 1970.
pub record RateLimitInfo : Type 0 where
  pub limit : ℤ
  pub remaining : ℤ
  pub reset_at : ℕ
  pub rule_id : String
  pub action : Action

pub record Decision : Type 0 where
  pub action : Action
  pub reason : String
  pub matched_rule_id : String
  pub matched_rule_name : String
  pub rule_group : String
  pub tags : List String
  pub anomaly_score : ℤ
  pub status_code : ℤ
  pub limit_info : Option RateLimitInfo

-- `Decision{Action: a, Reason: r, MatchedRuleID: id}`: the other fields are zero.
abbrev pub bare_decision : Action → String → String → Decision
bare_decision a r id = record {
  action = a;
  reason = r;
  matched_rule_id = id;
  matched_rule_name = "";
  rule_group = "";
  tags = [];
  anomaly_score = pos 0;
  status_code = pos 0;
  limit_info = none;
}

abbrev pub allow_decision : Decision
allow_decision = bare_decision allow "" ""

abbrev pub block_decision : String → String → Decision
block_decision reason id = record (bare_decision block reason id) { status_code = pos 403 }

abbrev pub rate_limit_decision : String → String → Decision
rate_limit_decision reason id = bare_decision rate_limit reason id

abbrev pub count_decision : String → String → Decision
count_decision reason id = bare_decision count reason id

abbrev pub allow_rule : String → String → Decision
allow_rule reason id = bare_decision allow reason id

abbrev pub with_status : Decision → ℤ → Decision
with_status d status = record d { status_code = status }

unfoldable pub would_block : Decision → Bool
would_block d = is_block d.action || is_rate_limit d.action || is_challenge d.action

unfoldable pub enforced_action : Mode → Decision → Action
unfolding would_block
enforced_action mode d = if is_count_mode mode && would_block d then count else d.action
