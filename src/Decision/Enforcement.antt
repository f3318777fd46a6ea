-- ===== src/Decision/Enforcement.antt =====
-- Proofs about services/gateway/internal/decision/decision.go.
use bedem_waf.Common.{
  refl, Bool, false, ◌==◌, if◌then◌else◌, ◌≡◌, ◌≢◌, ◌⊎◌, ◌↔◌, true, arith, String,
}
use bedem_waf.Decision.{
  Action, block, challenge, rate_limit, Mode, count_mode, Decision, would_block, enforced_action,
  is_constant, action_by, constant_of, action_of, is_mode_constant, mode_by, mode_of, block_mode,
}

-- An action that reaches the client as a refusal.
abbrev pub IsRefusal : Action → Type 0
IsRefusal a = (a ≡ block) ⊎ (a ≡ rate_limit) ⊎ (a ≡ challenge)

-- A decision would block exactly when its action is block, rate_limit or challenge.
pub would_block_iff : (d : Decision) → (would_block d ≡ true) ↔ IsRefusal d.action
unfolding would_block
would_block_iff d = ground arith

-- In count mode the enforced action is never a refusal, and in any other mode the enforced action
-- is the decision's own.
pub enforced_action_by_mode :
    (d : Decision)
    → (¬ IsRefusal (enforced_action count_mode d))
      × ((m : Mode) → m ≢ count_mode → enforced_action m d ≡ d.action)
unfolding enforced_action
enforced_action_by_mode d = (ground arith, λ m h. ground arith)

action_by-constant_of :
    (s : String) (b : Bool) (e : is_constant s ≡ b) → b ≡ true → action_by s b e ≡ constant_of s
action_by-constant_of s true e h = refl
action_by-constant_of s false e h = cc

-- The conversion of a string that is one of the constants.
pub action_of-constant_of : (s : String) → is_constant s ≡ true → action_of s ≡ constant_of s
unfolding action_of
action_of-constant_of s h = action_by-constant_of s (is_constant s) refl h

mode_by_constant :
    (s : String) (b : Bool) (e : is_mode_constant s ≡ b)
    → b ≡ true
    → mode_by s b e ≡ (if s == "count" then count_mode else block_mode)
mode_by_constant s true e h = refl
mode_by_constant s false e h = cc

pub mode_of_constant :
    (s : String)
    → is_mode_constant s ≡ true
    → mode_of s ≡ (if s == "count" then count_mode else block_mode)
unfolding mode_of
mode_of_constant s h = mode_by_constant s (is_mode_constant s) refl h
