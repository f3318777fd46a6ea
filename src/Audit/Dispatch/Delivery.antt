-- ===== src/Audit/Dispatch/Delivery.antt =====
-- What becomes of the events that are logged, in any interleaving of callers and worker.
use bedem_waf.Common.{
  ℕ, suc, ◌+◌, ◌^◌, ◌<◌, ◌≡◌, refl, sym, ap, ◌∙◌, length, length-append, false, List, [], ◌∷◌, ◌++◌,
  if◌then◌else◌, arith, Bool, ◌||◌, Bool-cases, inl, inr,
}
use bedem_waf.Audit.{Event}
use bedem_waf.Audit.Dispatch.{
  Sink, Dispatcher, add_one, is_refusal, has_room, enqueued, log, write_all, write, turn,
}

-- A caller logs an event, or the worker takes a turn.
pub data Step : Type 0 where
  logs : Event → Step
  works : Step

append_assoc {ℓ} : {A : Type ℓ} (xs ys zs : List A) → (xs ++ ys) ++ zs ≡ xs ++ (ys ++ zs)
append_assoc [] ys zs = refl
append_assoc (x ∷ xs) ys zs = ap (λ r. x ∷ r) (append_assoc xs ys zs)

append_nil {ℓ} : {A : Type ℓ} (xs : List A) → xs ++ [] ≡ xs
append_nil [] = refl
append_nil (x ∷ xs) = ap (λ r. x ∷ r) (append_nil xs)

abbrev first_of : List Event → List Event
first_of [] = []
first_of (e ∷ es) = e ∷ []

module _ {K : Type 0} (sinks : List (Sink K)) where
  abbrev pub step : Step → Dispatcher K → Dispatcher K
  step (logs e) d = log d e
  step works d = turn sinks d.queue d

  pub run : List Step → Dispatcher K → Dispatcher K
  run [] d = d
  run (s ∷ ss) d = run ss (step s d)

  -- The events that a step queues, and those that it takes to the sinks.
  abbrev queued_by : Step → Dispatcher K → List Event
  queued_by (logs e) d = if has_room d then e ∷ [] else []
  queued_by works d = []

  abbrev taken_by : Step → Dispatcher K → List Event
  taken_by (logs e) d = []
  taken_by works d = first_of d.queue

  -- The events that a run queues and takes, in order.
  pub queued : List Step → Dispatcher K → List Event
  queued [] d = []
  queued (s ∷ ss) d = queued_by s d ++ queued ss (step s d)

  pub taken : List Step → Dispatcher K → List Event
  taken [] d = []
  taken (s ∷ ss) d = taken_by s d ++ taken ss (step s d)

  enqueued-queue :
      (d : Dispatcher K) (e : Event)
      → ((enqueued d e).queue ≡ d.queue ++ queued_by (logs e) d)
        × ((enqueued d e).capacity ≡ d.capacity)
  enqueued-queue d e = elim (Bool-cases (has_room d)) [
    | inl room ↦ rw room (refl, refl)
    | inr full ↦ rw full (sym (append_nil d.queue), refl)
  ]

  log-queue :
      (d : Dispatcher K) (e : Event)
      → ((log d e).queue ≡ d.queue ++ queued_by (logs e) d) × ((log d e).capacity ≡ d.capacity)
  unfolding log
  log-queue d e = elim (Bool-cases (is_refusal e)) [
    | inl bad ↦ rw bad (enqueued-queue (record d { blocked = add_one d.blocked }) e)
    | inr good ↦ rw good (enqueued-queue (record d { allowed = add_one d.allowed }) e)
  ]

  write-queue :
      (d : Dispatcher K) (e : Event)
      → ((write sinks d e).queue ≡ d.queue) × ((write sinks d e).capacity ≡ d.capacity)
  unfolding write
  write-queue d e = elim (Bool-cases (write_all sinks d.sinks e false).0) [
    | inl any_sent ↦ rw any_sent (refl, refl)
    | inr failed ↦ rw failed (refl, refl)
  ]

  turn-queue :
      (d : Dispatcher K) (q : List Event)
      → d.queue ≡ q
      → (first_of q ++ (turn sinks q d).queue ≡ q) × ((turn sinks q d).capacity ≡ d.capacity)
  turn-queue d [] same = (same, refl)
  turn-queue d (e ∷ q) same =
      let (rest, size) = write-queue (record d { queue = q }) e in (ap (λ r. e ∷ r) rest, size)

  -- What was taken and what waits is what waited before and what was queued.
  step-queue :
      (s : Step) (d : Dispatcher K)
      → (taken_by s d ++ (step s d).queue ≡ d.queue ++ queued_by s d)
        × ((step s d).capacity ≡ d.capacity)
  step-queue (logs e) d = log-queue d e
  step-queue works d =
      let (rest, size) = turn-queue d d.queue refl in (rest ∙ sym (append_nil d.queue), size)

  -- The events that a run takes, followed by those that wait, are those that waited at the start
  -- followed by those that found room.
  run-queue :
      (ss : List Step) (d : Dispatcher K) → taken ss d ++ (run ss d).queue ≡ d.queue ++ queued ss d
  unfolding run queued taken
  run-queue [] d = sym (append_nil d.queue)
  run-queue (s ∷ ss) d =
      append_assoc (taken_by s d) (taken ss (step s d)) (run ss (step s d)).queue
      ∙ ap (λ r. taken_by s d ++ r) (run-queue ss (step s d))
      ∙ sym (append_assoc (taken_by s d) (step s d).queue (queued ss (step s d)))
      ∙ ap (λ r. r ++ queued ss (step s d)) (step-queue s d).0
      ∙ append_assoc d.queue (queued_by s d) (queued ss (step s d))

  -- The sinks' state behind an event that each of them was given once, in order, and behind a list of
  -- such events. Whether a sink succeeds does not matter to the others.
  abbrev pub given : List (Sink K) → K → Event → K
  given [] k e = k
  given (sink ∷ rest) k e = given rest (sink k e).1 e

  abbrev pub all_given : K → List Event → K
  all_given k [] = k
  all_given k (e ∷ es) = all_given (given sinks k e) es

  all_given-append :
      (k : K) (es fs : List Event) → all_given k (es ++ fs) ≡ all_given (all_given k es) fs
  all_given-append k [] fs = refl
  all_given-append k (e ∷ es) fs = all_given-append (given sinks k e) es fs

  write_all-given :
      (rest : List (Sink K)) (k : K) (e : Event) (sent : Bool)
      → (write_all rest k e sent).1 ≡ given rest k e
  unfolding write_all
  write_all-given [] k e sent = refl
  write_all-given (sink ∷ rest) k e sent =
      write_all-given rest (sink k e).1 e (sent || (sink k e).0)

  write-sinks : (d : Dispatcher K) (e : Event) → (write sinks d e).sinks ≡ given sinks d.sinks e
  unfolding write
  write-sinks d e = elim (Bool-cases (write_all sinks d.sinks e false).0) [
    | inl any_sent ↦ rw any_sent (write_all-given sinks d.sinks e false)
    | inr failed ↦ rw failed (write_all-given sinks d.sinks e false)
  ]

  log-sinks : (d : Dispatcher K) (e : Event) → (log d e).sinks ≡ d.sinks
  unfolding log
  log-sinks d e = elim (Bool-cases (has_room d)) [
    | inl room ↦ elim (Bool-cases (is_refusal e)) [
      | inl bad ↦ simp (bad, room)
      | inr good ↦ simp (good, room)
    ]
    | inr full ↦ elim (Bool-cases (is_refusal e)) [
      | inl bad ↦ simp (bad, full)
      | inr good ↦ simp (good, full)
    ]
  ]

  turn-sinks :
      (d : Dispatcher K) (q : List Event) → (turn sinks q d).sinks ≡ all_given d.sinks (first_of q)
  turn-sinks d [] = refl
  turn-sinks d (e ∷ q) = write-sinks (record d { queue = q }) e

  step-sinks : (s : Step) (d : Dispatcher K) → (step s d).sinks ≡ all_given d.sinks (taken_by s d)
  step-sinks (logs e) d = log-sinks d e
  step-sinks works d = turn-sinks d d.queue

  run-sinks :
      (ss : List Step) (d : Dispatcher K) → (run ss d).sinks ≡ all_given d.sinks (taken ss d)
  unfolding run taken
  run-sinks [] d = refl
  run-sinks (s ∷ ss) d =
      run-sinks ss (step s d)
      ∙ ap (λ k. all_given k (taken ss (step s d))) (step-sinks s d)
      ∙ sym (all_given-append d.sinks (taken_by s d) (taken ss (step s d)))

  -- In any interleaving of Log calls and turns of the worker, the sinks are left in the state that
  -- they reach when each of them is given certain events one after the other, and these events,
  -- followed by those that wait, are the events that waited at the start followed by those that found
  -- room, each once and in the order in which they were logged.
  pub run_in_order :
      (ss : List Step) (d : Dispatcher K)
      → (delivered : List Event) × ((run ss d).sinks ≡ all_given d.sinks delivered)
        × (delivered ++ (run ss d).queue ≡ d.queue ++ queued ss d)
  run_in_order ss d = (taken ss d, run-sinks ss d, run-queue ss d)

  -- The worker empties the queue: as many turns as there are events waiting take them all, in order.
  abbrev pub turns : {A : Type 0} → List A → List Step
  turns [] = []
  turns (a ∷ q) = works ∷ turns q

  drained :
      (q : List Event) (d : Dispatcher K)
      → d.queue ≡ q
      → ((run (turns q) d).queue ≡ []) × (taken (turns q) d ≡ q)
  unfolding run taken
  drained [] d same = (same, refl)
  drained (e ∷ q) d same =
      let rest = (write-queue (record d { queue = q }) e).0 in
      let next = drained q (write sinks (record d { queue = q }) e) rest in
      let taking : turn sinks d.queue d ≡ write sinks (record d { queue = q }) e =
        ap (λ r. turn sinks r d) same in
      (
        ap (λ x. (run (turns q) x).queue) taking ∙ next.0,
        ap (λ r. first_of r ++ taken (turns q) (turn sinks d.queue d)) same
            ∙ ap (λ x. e ∷ taken (turns q) x) taking
            ∙ ap (λ r. e ∷ r) next.1,
      )

  -- Once nothing more is logged, as many turns of the worker as there are events waiting leave the
  -- queue empty, and the sinks in the state that they reach when each of them is given every one of
  -- these events, in order.
  pub run_drains :
      (d : Dispatcher K)
      → ((run (turns d.queue) d).queue ≡ [])
        × ((run (turns d.queue) d).sinks ≡ all_given d.sinks d.queue)
  run_drains d =
      let (empty, all_taken) = drained d.queue d refl in
      (empty, run-sinks (turns d.queue) d ∙ ap (all_given d.sinks) all_taken)

  abbrev pub logs_in : List Step → ℕ
  logs_in [] = 0
  logs_in (logs e ∷ ss) = suc (logs_in ss)
  logs_in (works ∷ ss) = logs_in ss

  log-dropped :
      (d : Dispatcher K) (e : Event)
      → suc d.dropped < 2 ^ 64
      → (log d e).dropped + length (queued_by (logs e) d) ≡ suc d.dropped
  unfolding log
  log-dropped d e small = elim (Bool-cases (has_room d)) [
    | inl room ↦ elim (Bool-cases (is_refusal e)) [
      | inl bad ↦ simp (bad, room) (omega arith)
      | inr good ↦ simp (good, room) (omega arith)
    ]
    | inr full ↦ elim (Bool-cases (is_refusal e)) [
      | inl bad ↦ simp (bad, full) (omega arith)
      | inr good ↦ simp (good, full) (omega arith)
    ]
  ]

  write-dropped : (d : Dispatcher K) (e : Event) → (write sinks d e).dropped ≡ d.dropped
  unfolding write
  write-dropped d e = elim (Bool-cases (write_all sinks d.sinks e false).0) [
    | inl any_sent ↦ rw any_sent refl
    | inr failed ↦ rw failed refl
  ]

  turn-dropped : (d : Dispatcher K) (q : List Event) → (turn sinks q d).dropped ≡ d.dropped
  turn-dropped d [] = refl
  turn-dropped d (e ∷ q) = write-dropped (record d { queue = q }) e

  -- No event is lost silently: in any run, each logged event was queued or is counted as dropped,
  -- as long as the 64-bit counter holds the number.
  pub run_accounts :
      (ss : List Step) (d : Dispatcher K)
      → suc (d.dropped + logs_in ss) < 2 ^ 64
      → (run ss d).dropped + length (queued ss d) ≡ d.dropped + logs_in ss
  unfolding run queued
  run_accounts [] d small = refl
  run_accounts (logs e ∷ ss) d small =
      let here = log-dropped d e (omega arith) in
      let next = run_accounts ss (log d e) (omega (arith, here)) in
      let longer = length-append (queued_by (logs e) d) (queued ss (log d e)) in
      omega (arith, here, next, longer)
  run_accounts (works ∷ ss) d small =
      let here = turn-dropped d d.queue in
      let next = run_accounts ss (turn sinks d.queue d) (omega (arith, here)) in
      omega (arith, here, next)
