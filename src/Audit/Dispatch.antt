-- ===== src/Audit/Dispatch.antt =====
-- The dispatcher of audit.go: Log, the worker's loop and its write, and the clamps of the row that
-- ClickHouseSink sends. A sink is an interface, an operation on a state that the sinks share. The
-- queue is a buffered channel. Log lines and the counter of the package metrics are left out.
pub mod Delivery
pub mod Clamps
use bedem_waf.Common.{
  ℕ, ◌+◌, ◌-◌, ◌%◌, ◌^◌, ltb, length, String, Bool, true, false, ◌||◌, Option, none, some, List, [],
  ◌∷◌, ◌++◌, ◌==◌, if◌then◌else◌, is_nonempty,
}
use bedem_waf.Common.Int.{ℤ, pos, negsuc, pos_part, ltb_ℤ, leb_ℤ}
use bedem_waf.Common.Result.{Result, ok, err}
use bedem_waf.Audit.{Event}

-- The interface Sink: Write; true when there was no error.
abbrev pub Sink : Type 0 → Type 0
Sink K = K → Event → Bool × K

-- The queue and its size, the counters of Metrics, and the state of the sinks.
pub record Dispatcher (K : Type 0) : Type 0 where
  pub capacity : ℕ
  pub queue : List Event
  pub sent : ℕ
  pub dropped : ℕ
  pub blocked : ℕ
  pub allowed : ℕ
  pub sinks : K

abbrev pub add_one : ℕ → ℕ
add_one n = (n + 1) % 2 ^ 64

-- NewDispatcher, which refuses an empty queue and an empty list of sinks.
unfoldable pub new_dispatcher : {K : Type 0} → ℤ → List (Sink K) → K → Result String (Dispatcher K)
new_dispatcher size sinks k =
    if leb_ℤ size (pos 0)
    then err "audit queue size must be positive"
    else if is_nonempty sinks
    then ok (record {
      capacity = pos_part size;
      queue = [];
      sent = 0;
      dropped = 0;
      blocked = 0;
      allowed = 0;
      sinks = k;
    })
    else err "at least one audit sink is required"

abbrev pub is_refusal : Event → Bool
is_refusal e = e.action == "block" || e.action == "rate_limit"

-- The conversions `uint16(value)` and `uint32(value)`, which keep the low bits.
abbrev pub low_bits : ℕ → ℤ → ℕ
low_bits w (pos n) = n % 2 ^ w
low_bits w (negsuc n) = 2 ^ w - 1 - n % 2 ^ w

unfoldable pub clamp_uint16 : ℤ → ℕ
clamp_uint16 value =
    if ltb_ℤ value (pos 0) then 0 else if ltb_ℤ (pos 65535) value then 65535 else low_bits 16 value

unfoldable pub clamp_uint32 : ℤ → ℕ
clamp_uint32 value =
    if ltb_ℤ value (pos 0)
    then 0
    else if ltb_ℤ (pos 4294967295) value
    then 4294967295
    else low_bits 32 value

module _ {K : Type 0} where
  abbrev pub counted : Dispatcher K → Event → Dispatcher K
  counted d e =
      if is_refusal e
      then record d { blocked = add_one d.blocked }
      else record d { allowed = add_one d.allowed }

  abbrev pub has_room : Dispatcher K → Bool
  has_room d = ltb (length d.queue) d.capacity

  -- The select of Log: the event is queued if there is room, and dropped otherwise.
  abbrev pub enqueued : Dispatcher K → Event → Dispatcher K
  enqueued d e =
      if has_room d
      then record d { queue = d.queue ++ (e ∷ []) }
      else record d { dropped = add_one d.dropped }

  -- Log, before Shutdown closes the queue.
  unfoldable pub log : Dispatcher K → Event → Dispatcher K
  log d e = enqueued (counted d e) e

  -- The loop over the sinks, with `sent`.
  unfoldable pub write_all : List (Sink K) → K → Event → Bool → Bool × K
  write_all [] k e sent = (sent, k)
  write_all (sink ∷ sinks) k e sent =
      let (fine, k') = sink k e in write_all sinks k' e (sent || fine)

  unfoldable pub write : List (Sink K) → Dispatcher K → Event → Dispatcher K
  write sinks d e =
      let (sent, k) = write_all sinks d.sinks e false in
      if sent then record d { sent = add_one d.sent; sinks = k } else record d { sinks = k }

  -- One turn of the worker: it takes the first event of the queue; on an empty queue it waits.
  abbrev pub turn : List (Sink K) → List Event → Dispatcher K → Dispatcher K
  turn sinks [] d = d
  turn sinks (e ∷ queue) d = write sinks (record d { queue = queue }) e
