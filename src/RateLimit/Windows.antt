-- ===== src/RateLimit/Windows.antt =====
-- The fixed window over MemoryStore of ratelimit.go, window by window, and the keys of its counters.
use Prim.Native.String.{[], ◌∷◌, ◌++◌}
use Prim.Native.String.append
use mathlib.Core.List.{List}
use bedem_waf.Common.{ℕ, suc, ◌≡◌, ◌≢◌, String, Bool, false, ◌&&◌, ◌==◌, eqb, if◌then◌else◌}
use bedem_waf.Go.{Go}
use bedem_waf.RateLimit.{applies, key_part, window_of, counter_key}
use bedem_waf.RateLimit.Window.{Call}

-- What stands in front of the window in a key.
abbrev front : String → String → String → String → String → String
front tenant app rule hash rest =
    "bedemwaf:rl:"
    ++ (tenant ++ (":" ++ (app ++ (":" ++ (rule ++ (":" ++ (hash ++ (":" ++ rest))))))))

module _ (go : Go) where
  abbrev pub hash_of : Call → String
  hash_of c = go.sha256_hex (key_part go c.request c.rule)

  -- The two calls are of one tenant, app and rule, and of one client: their hashed key parts agree.
  abbrev pub is_same_client : Call → Call → Bool
  is_same_client c d =
      d.app.tenant_id == c.app.tenant_id
      && (d.app.id == c.app.id && (d.rule.id == c.rule.id && hash_of d == hash_of c))

  abbrev pub call_window : Call → ℕ
  call_window c = window_of go c.now c.rule

  -- An earlier call that takes from the limit of a call: its rule applies, and it is of the same
  -- client in the same window.
  abbrev pub takes_from : Call → Call → Bool
  takes_from c d =
      applies go d.app d.request d.rule
      && (is_same_client c d && eqb (call_window d) (call_window c))

  pub earlier_in_window : Call → List Call → ℕ
  earlier_in_window c List.[] = 0
  earlier_in_window c (List.◌∷◌ d ds) =
      let rest = earlier_in_window c ds in if takes_from c d then suc rest else rest

  abbrev pub key_of : Call → String
  key_of c = counter_key go c.now c.app c.request c.rule

  -- A call of another client has another key.
  abbrev pub IsApart : Call → Call → Type 0
  IsApart c d = is_same_client c d ≡ false → key_of d ≢ key_of c
