-- ===== src/Proxy/Serve/Outcome.antt =====
-- What becomes of a request for an app: the ends of ServeHTTP behind the lookup.
use bedem_waf.Common.{
  ◌≡◌, refl, sym, ◌∙◌, String, Bool, true, false, not, ◌&&◌, ◌||◌, Option, none, some,
  if◌then◌else◌, ◌⊎◌, Bool-cases, inl, inr, arith,
}
use bedem_waf.Common.Int.{pos}
use bedem_waf.Common.Result.{Result, ok, err}
use bedem_waf.Go.{Go}
use bedem_waf.Go.Netip.{Addr}
use bedem_waf.Decision.{
  Action, Mode, is_allow, is_block, is_rate_limit, is_challenge, is_block_mode, is_count_mode,
  Decision, would_block, enforced_action, RateLimitInfo, action_string, count,
}
use bedem_waf.Policy.{App}
use bedem_waf.Audit.{Event}
use bedem_waf.Proxy.{HttpRequest, Gateway, State, Transport}
use bedem_waf.Proxy.Reading.{Prepared, prepare_request_body}
use bedem_waf.Proxy.Decide.{decide}
use bedem_waf.Proxy.Serve.{
  error_response, proxied, Served, refuses, or_status, with_limit, decided_event, forwarded_request,
  finish, serve_prepared, after_decision, after_body_read, serve_app, with_preview, filled_app,
}

test :
    (m : Mode) (a : Action)
    → (not (
          is_allow (
            if is_count_mode m && (is_block a || is_rate_limit a || is_challenge a)
            then count
            else a))
        && (is_block_mode m && (is_block a || is_rate_limit a || is_challenge a)))
      ≡ (is_block_mode m && (is_block a || is_rate_limit a || is_challenge a))
test m a = ground arith

-- A request is refused in the mode block by a decision that would block, and only so.
refuses-eq : (app : App) (d : Decision) → refuses app d ≡ (is_block_mode app.mode && would_block d)
unfolding refuses enforced_action would_block
refuses-eq app d = test app.mode d.action

second : (a b : Bool) → a && b ≡ true → b ≡ true
second a b h = ground arith

abbrev pub Shown : Option Event → (Event → Type 0) → Type 0
Shown none P = ⊥
Shown (some e) P = P e

module _ (go : Go) {P L W O : Type 0} (g : Gateway P L W) (transport : Transport O) (o : O)
    (id : String) where
  -- The client gets a refusal, with the status of the decision or 403, and the origin gets nothing.
  abbrev pub IsRefused : Served P L W O → Decision → Type 0
  IsRefused served d =
      (served.response ≡ error_response (or_status (pos 403) d.status_code) id "request blocked")
      × (served.origins ≡ o)
      × Shown served.event (λ e.
        (e.enforced ≡ true)
        × (e.would_block ≡ true)
        × (e.action ≡ action_string d.action)
        × (e.reason ≡ d.reason)
        × (e.status ≡ or_status (pos 403) d.status_code))

  -- The request goes to the origin of the app, and the client gets its answer.
  abbrev pub IsForwarded : App → HttpRequest → Served P L W O → Decision → Type 0
  IsForwarded app r served d =
      (served.response
        ≡ proxied app.origin (forwarded_request go id r)
            (transport o app.origin (forwarded_request go id r)).0)
      × (served.origins ≡ (transport o app.origin (forwarded_request go id r)).1)
      × Shown served.event (λ e.
        (e.enforced ≡ false)
        × (e.would_block ≡ would_block d)
        × (e.action ≡ action_string d.action)
        × (e.reason ≡ d.reason))

  -- The fields of the event that a decision fills, whether or not it carries a rate limit.
  with_limit-fields :
      (o : Option RateLimitInfo) (e : Event)
      → ((with_limit o e).enforced ≡ e.enforced)
        × ((with_limit o e).would_block ≡ e.would_block)
        × ((with_limit o e).action ≡ e.action)
        × ((with_limit o e).reason ≡ e.reason)
  with_limit-fields none e = (refl, refl, refl, refl)
  with_limit-fields (some i) e = (refl, refl, refl, refl)

  decided_event-fields :
      (app : App) (d : Decision) (e : Event)
      → ((decided_event app d e).enforced ≡ (is_block_mode app.mode && would_block d))
        × ((decided_event app d e).would_block ≡ would_block d)
        × ((decided_event app d e).action ≡ action_string d.action)
        × ((decided_event app d e).reason ≡ d.reason)
  unfolding decided_event
  decided_event-fields app d e = with_limit-fields d.limit_info _

  pub finish_cases :
      (s : State P L W) (app : App) (r : HttpRequest) (e : Event) (d : Decision)
      → ((is_block_mode app.mode && would_block d ≡ true)
          × IsRefused (finish go g transport o id s app r e d) d)
        ⊎ ((is_block_mode app.mode && would_block d ≡ false)
            × IsForwarded app r (finish go g transport o id s app r e d) d)
  unfolding finish
  finish_cases s app r e d =
      let (enforced, would, act, why) = decided_event-fields app d e in
      elim (Bool-cases (refuses app d)) [
        | inl bad ↦
            let on : is_block_mode app.mode && would_block d ≡ true =
              sym (refuses-eq app d) ∙ bad in
            rw bad (inl (on, (refl, refl, (enforced ∙ on, would ∙ second _ _ on, act, why, refl))))
        | inr good ↦
            let off : is_block_mode app.mode && would_block d ≡ false =
              sym (refuses-eq app d) ∙ good in
            rw good (inr (off, (refl, refl, (enforced ∙ off, would, act, why))))
      ]

  -- The request is given up with status 400; the event says why.
  abbrev pub IsGivenUp : Served P L W O → String → String → Type 0
  IsGivenUp served why message =
      (served.response ≡ error_response (pos 400) id message)
      × (served.origins ≡ o)
      × Shown served.event (λ e. (e.action ≡ "block") × (e.reason ≡ why) × (e.status ≡ pos 400))

  -- The decision about the request with the prepared body, and the services' states behind it.
  abbrev pub decided :
      State P L W → App → HttpRequest → Prepared → Addr → String → Result String Decision × (L × W)
  decided s app r p ip host =
      decide go g.limiter g.waf s.counters s.engine id app (record r { body = p.body }) p.preview
        p.exceeded ip host

  abbrev pub IsServed : App → HttpRequest → Served P L W O → Result String Decision → Type 0
  IsServed app r served (err error) = IsGivenUp served "waf_error" "waf inspection failed"
  IsServed app r served (ok d) =
      ((is_block_mode app.mode && would_block d ≡ true) × IsRefused served d)
      ⊎ ((is_block_mode app.mode && would_block d ≡ false) × IsForwarded app r served d)

  abbrev pub IsAnswered :
      State P L W
      → App
      → HttpRequest
      → Addr
      → String
      → Served P L W O
      → Result String Prepared
      → Type 0
  IsAnswered s app r ip host served (err error) =
      IsGivenUp served "request_body_read_failed" "invalid request body"
  IsAnswered s app r ip host served (ok p) =
      IsServed app (record r { body = p.body }) served (decided s app r p ip host).0

  after_decision_cases :
      (s : State P L W) (app : App) (r : HttpRequest) (e : Event)
      (outcome : Result String Decision × (L × W))
      → IsServed app r (after_decision go g transport o id s app r e outcome) outcome.0
  after_decision_cases s app r e (err error, states) = (refl, refl, (refl, refl, refl))
  after_decision_cases s app r e (ok d, states) = finish_cases _ app r e d

  after_body_read_cases :
      (s : State P L W) (app : App) (r : HttpRequest) (ip : Addr) (host : String) (e : Event)
      (b : Result String Prepared)
      → IsAnswered s app r ip host (after_body_read go g transport o id s app r ip host e b) b
  unfolding serve_prepared
  after_body_read_cases s app r ip host e (err error) = (refl, refl, (refl, refl, refl))
  after_body_read_cases s app r ip host e (ok p) =
      after_decision_cases s app (record r { body = p.body })
        (with_preview go g transport o id p.preview e) (decided s app r p ip host)

  -- Every request for an app ends in one of four ways. If its body cannot be read it gets status 400,
  -- and so it does, in every mode, if the inspection fails. Otherwise a decision is made: if it would
  -- block and the app is in the mode block, the request is refused with the status of the decision, or
  -- 403 where it has none. In these three cases the origins are left in the state they were in; in any
  -- other case the request is forwarded once to the origin of the app, which leaves the state that the
  -- transport gives, and the client gets the origin's answer. The event says which: it has the
  -- action and the reason of the decision, and is marked as enforced exactly for a refusal.
  pub serve_app_cases :
      (s : State P L W) (app : App) (r : HttpRequest) (ip : Addr) (host : String) (e : Event)
      → IsAnswered s app r ip host
          (serve_app go g transport o id s app r ip host e)
          (prepare_request_body g.body_limit r.body)
  unfolding serve_app
  serve_app_cases s app r ip host e =
      after_body_read_cases s app r ip host (filled_app app e)
        (prepare_request_body g.body_limit r.body)
