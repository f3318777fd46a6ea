-- ===== src/Proxy/Serve/Logging.antt =====
-- The audit event and the services' states behind ServeHTTP.
use bedem_waf.Common.{
  ◌≡◌, ◌≢◌, refl, ap, ◌∙◌, String, Bool, true, false, not, ◌&&◌, ◌||◌, Option, none, some,
  Bool-cases, inl, inr, ◌==◌,
}
use bedem_waf.Common.Int.{pos}
use bedem_waf.Common.Result.{Result, ok, err}
use bedem_waf.Go.{Go}
use bedem_waf.Go.Netip.{Addr}
use bedem_waf.Decision.{
  block_mode, is_allow, is_block_mode, Decision, would_block, block, action_string,
}
use bedem_waf.Policy.{App}
use bedem_waf.Policy.Host.{normalize_host, valid_host}
use bedem_waf.Policy.Store.{LookupResult}
use bedem_waf.Policy.Evaluation.{evaluate_ip}
use bedem_waf.Policy.Evaluation.Addresses.{
  IsTurnedAway, IsTurnedAway→not-IsAdmitted, evaluate_ip_cases,
}
use bedem_waf.Audit.{Event}
use bedem_waf.Proxy.{HttpRequest, Gateway, State, Transport}
use bedem_waf.Proxy.Reading.{Prepared, prepare_request_body}
use bedem_waf.Proxy.Decide.Verdict.{decide_refused_address}
use bedem_waf.Proxy.Serve.{
  error_response, status_of, Served, refuses, or_status, finish, serve_prepared, after_decision,
  after_body_read, serve_app, serve_found, serve_lookup, serve_http, with_preview, filled_app,
}
use bedem_waf.Proxy.Serve.Outcome.{Shown, finish_cases, decided}

module _ {P L W O : Type 0} where
  -- The event has the status that the client gets.
  abbrev pub IsLogged : Served P L W O → Type 0
  IsLogged served = Shown served.event (λ e. e.status ≡ status_of served.response)

-- A lookup that says it found an app has it.
abbrev pub IsSound : LookupResult → Type 0
IsSound lookup = lookup.found ≡ true → lookup.app ≢ none

Shown-map :
    (o : Option Event) (P Q : Event → Type 0) → ((e : Event) → P e → Q e) → Shown o P → Shown o Q
Shown-map none P Q f h = h
Shown-map (some e) P Q f h = f e h

module _ (go : Go) {P L W O : Type 0} (g : Gateway P L W) (transport : Transport O) (o : O)
    (id : String) where
  finish-IsLogged :
      (s : State P L W) (app : App) (r : HttpRequest) (e : Event) (d : Decision)
      → IsLogged (finish go g transport o id s app r e d)
  unfolding finish
  finish-IsLogged s app r e d = elim (Bool-cases (refuses app d)) [
    | inl bad ↦ rw bad refl
    | inr good ↦ rw good refl
  ]

  finish-state :
      (s : State P L W) (app : App) (r : HttpRequest) (e : Event) (d : Decision)
      → (finish go g transport o id s app r e d).state ≡ s
  unfolding finish
  finish-state s app r e d = elim (Bool-cases (refuses app d)) [
    | inl bad ↦ rw bad refl
    | inr good ↦ rw good refl
  ]

  after_decision-IsLogged :
      (s : State P L W) (app : App) (r : HttpRequest) (e : Event)
      (outcome : Result String Decision × (L × W))
      → IsLogged (after_decision go g transport o id s app r e outcome)
  after_decision-IsLogged s app r e (err error, states) = refl
  after_decision-IsLogged s app r e (ok d, states) = finish-IsLogged _ app r e d

  after_body_read-IsLogged :
      (s : State P L W) (app : App) (r : HttpRequest) (ip : Addr) (host : String) (e : Event)
      (b : Result String Prepared)
      → IsLogged (after_body_read go g transport o id s app r ip host e b)
  unfolding serve_prepared
  after_body_read-IsLogged s app r ip host e (err error) = refl
  after_body_read-IsLogged s app r ip host e (ok p) = after_decision-IsLogged s app _ _ _

  serve_found-IsLogged :
      (s : State P L W) (found : Option App) (r : HttpRequest) (ip : Addr) (host : String)
      (e : Event)
      → found ≢ none
      → IsLogged (serve_found go g transport o id s found r ip host e)
  unfolding serve_app
  serve_found-IsLogged s none r ip host e there = elim (there refl) [ ]
  serve_found-IsLogged s (some app) r ip host e there =
      after_body_read-IsLogged s app r ip host (filled_app app e) _

  serve_lookup-IsLogged :
      (s : State P L W) (r : HttpRequest) (ip : Addr) (host : String) (lookup : LookupResult)
      (e : Event)
      → IsSound lookup
      → IsLogged (serve_lookup go g transport o id s r ip host lookup e)
  unfolding serve_lookup
  serve_lookup-IsLogged s r ip host lookup e sound = elim (Bool-cases lookup.fail_open) [
    | inl opens ↦ simp opens
    | inr shut ↦ elim (Bool-cases lookup.found) [
      | inl found ↦ simp (shut, found) (serve_found-IsLogged s lookup.app r ip host e (sound found))
      | inr lost ↦ simp (shut, lost)
    ]
  ]

  -- The request is answered by the gateway itself: its path is one of the two pages, or its host is
  -- invalid.
  abbrev pub is_answered_here : HttpRequest → Bool
  is_answered_here r =
      r.url_path == "/healthz"
      || (r.url_path == "/metrics" || not (valid_host go (normalize_host go r.host)))

  -- No event, and nothing changed; or one event with the status that the client gets.
  abbrev pub Leaves : Bool → State P L W → Served P L W O → Type 0
  Leaves true s served = (served.event ≡ none) × (served.state ≡ s) × (served.origins ≡ o)
  Leaves false s served = IsLogged served

  -- A request for one of the two fixed paths or an invalid host leaves no event and changes neither the
  -- services' states nor the origins'; every other request leaves one event, with the status that the
  -- client gets, if the lookup of its host, should it say that it found an app, has one.
  pub serve_http-IsLogged :
      (s : State P L W) (r : HttpRequest)
      → IsSound (g.provider.lookup_host s.policies (normalize_host go r.host)).0
      → Leaves (is_answered_here r) s (serve_http go g transport o id s r)
  unfolding serve_http
  serve_http-IsLogged s r sound = elim (Bool-cases (r.url_path == "/healthz")) [
    | inl health ↦ rw health (refl, refl, refl)
    | inr page ↦ elim (Bool-cases (r.url_path == "/metrics")) [
      | inl metrics ↦ rw (page, metrics) (refl, refl, refl)
      | inr path ↦ elim (Bool-cases (valid_host go (normalize_host go r.host))) [
        | inr bad ↦ rw (page, path, bad) (refl, refl, refl)
        | inl good ↦
            rw (page, path, good) (serve_lookup-IsLogged _ r _ (normalize_host go r.host) _ _ sound)
      ]
    ]
  ]

  serve_app-decided :
      (s : State P L W) (app : App) (r : HttpRequest) (ip : Addr) (host : String) (e : Event)
      (p : Prepared)
      → prepare_request_body g.body_limit r.body ≡ ok p
      → serve_app go g transport o id s app r ip host e
        ≡ after_decision go g transport o id s app
            (record r { body = p.body })
            (with_preview go g transport o id p.preview (filled_app app e))
            (decided go g transport o id s app r p ip host)
  unfolding serve_app serve_prepared
  serve_app-decided s app r ip host e p h =
      ap (after_body_read go g transport o id s app r ip host (filled_app app e)) h

  blocks_in_mode :
      (app : App) (d : Decision)
      → app.mode ≡ block_mode
      → d.action ≡ block
      → is_block_mode app.mode && would_block d ≡ true
  unfolding would_block
  blocks_in_mode app d mode act = simp (mode, act)

  refused_end :
      (s : State P L W) (app : App) (r : HttpRequest) (e : Event) (d : Decision)
      → app.mode ≡ block_mode
      → d.action ≡ block
      → d.status_code ≡ pos 403
      → ((finish go g transport o id s app r e d).response
          ≡ error_response (pos 403) id "request blocked")
        × ((finish go g transport o id s app r e d).origins ≡ o)
        × Shown
            (finish go g transport o id s app r e d).event
            (λ seen. (seen.enforced ≡ true) × (seen.action ≡ "block") × (seen.status ≡ pos 403))
  unfolding action_string
  refused_end s app r e d mode act status = elim (finish_cases go g transport o id s app r e d) [
    | inl (on, (resp, kept, seen)) ↦
        let code : or_status (pos 403) d.status_code ≡ pos 403 = ap (or_status (pos 403)) status in
        (
          resp ∙ ap (λ c. error_response c id "request blocked") code,
          kept,
          Shown-map (finish go g transport o id s app r e d).event _ _
              (λ e (enforced, would, action, why, st).
                (enforced, action ∙ ap action_string act, st ∙ code))
              seen,
        )
    | inr (off, rest) ↦ let on = blocks_in_mode app d mode act in cc
  ]

  -- In the mode block, a request from an address that the app turns away is refused with status 403
  -- once its body is read: no rate-limit counter moves, and neither the inspection nor the origin is
  -- asked.
  pub serve_app_turned_away :
      (s : State P L W) (app : App) (r : HttpRequest) (ip : Addr) (host : String) (e : Event)
      (p : Prepared)
      → prepare_request_body g.body_limit r.body ≡ ok p
      → app.mode ≡ block_mode
      → IsTurnedAway go ip app
      → ((serve_app go g transport o id s app r ip host e).response
          ≡ error_response (pos 403) id "request blocked")
        × ((serve_app go g transport o id s app r ip host e).state ≡ s)
        × ((serve_app go g transport o id s app r ip host e).origins ≡ o)
        × Shown
            (serve_app go g transport o id s app r ip host e).event
            (λ seen. (seen.enforced ≡ true) × (seen.action ≡ "block") × (seen.status ≡ pos 403))
  serve_app_turned_away s app r ip host e p h blocking away = elim (evaluate_ip_cases go ip app) [
    | inl (passed, admitted) ↦ elim (IsTurnedAway→not-IsAdmitted go ip app away admitted) [ ]
    | inr (act, status, _) ↦
        let d = evaluate_ip go app ip in
        let off : is_allow d.action ≡ false = ap is_allow act in
        let body = record r { body = p.body } in
        let seen = with_preview go g transport o id p.preview (filled_app app e) in
        let refusing =
          decide_refused_address go g.limiter g.waf s.counters s.engine id app body p.preview
            p.exceeded ip host off in
        let same =
          serve_app-decided s app r ip host e p h
          ∙ ap (after_decision go g transport o id s app body seen) refusing in
        let (resp, kept, shown_event) = refused_end s app body seen d blocking act status in
        rw same (resp, finish-state s app body seen d, kept, shown_event)
  ]
