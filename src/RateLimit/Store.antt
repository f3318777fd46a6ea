-- ===== src/RateLimit/Store.antt =====
-- The stores of ratelimit.go that keep their counters in the process.
use bedem_waf.Common.{String, Option, none, some, if◌then◌else◌}
use bedem_waf.Common.Int.{ℤ, pos, ltb_ℤ, wrap_64, ◌+ℤ◌, ◌-ℤ◌}
use bedem_waf.Common.Result.{Result, ok, err}
use bedem_waf.Go.Maps.{GoMap, lookup, insert}
use bedem_waf.RateLimit.{CounterStore}

abbrev pub or_zero : Option ℤ → ℤ
or_zero none = pos 0
or_zero (some n) = n

-- `m.counts[key]`, zero for a key that is missing
unfoldable pub count_of : String → GoMap ℤ → ℤ
unfolding lookup
count_of key counts = or_zero (lookup key counts)

abbrev pub at_least_zero : ℤ → ℤ
at_least_zero n = if ltb_ℤ n (pos 0) then pos 0 else n

-- MemoryStore.IncrementFixedWindow, on 64-bit counters
unfoldable pub increment_memory : GoMap ℤ → String → ℤ → ℤ → Result String (ℤ × ℤ) × GoMap ℤ
increment_memory counts key limit window =
    let next = wrap_64 (count_of key counts +ℤ pos 1) in
    (ok (next, at_least_zero (wrap_64 (limit -ℤ next))), insert key next counts)

abbrev pub memory_store : CounterStore (GoMap ℤ)
memory_store = record { increment = increment_memory }

-- FailingStore: the error is given, or the default text
abbrev pub failing_store : Option String → CounterStore (Unit {0})
failing_store given = record {
  increment = λ s key limit window.
      (err (elim given [ none ↦ "rate limit store failure" | some e ↦ e ]), s);
}
