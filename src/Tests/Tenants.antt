-- ===== src/Tests/Tenants.antt =====
-- Examples of the guards and the routes of the control API.
use Prim.Native.String.{◌++◌}
use bedem_waf.Common.{
  ◌≡◌, ◌≢◌, ◌↔◌, refl, String, true, false, List, [], ◌∷◌, ◌==◌, All, Bool-cases, inl, inr,
}
use bedem_waf.Common.Result.{ok}
use bedem_waf.Go.Maps.{first_value}
use bedem_waf.Go.Text.{trim_space}
use bedem_waf.ControlApi.Snapshot.{validate_policy_snapshot}
use bedem_waf.ControlApi.Handlers.Kept.{Keeps}
use bedem_waf.ControlApi.Models.{Policy}
use bedem_waf.ControlApi.Access.{authorized, tenant_of}
use bedem_waf.ControlApi.Access.Bearer.{authorized_iff}
use bedem_waf.ControlApi.Routes.{create_policy, dispatch, serve}
use bedem_waf.ControlApi.Routes.Guards.{serve_unauthorized}
use bedem_waf.ControlApi.Routes.Isolation.{AgreeFor, AgreeOnEvents, dispatch_isolated}
use bedem_waf.ControlApi.Routes.Invariant.{serve_keeps}
use bedem_waf.Tests.Samples.{sample_go}
use bedem_waf.Tests.ControlSamples.{
  net, io, repo, here, event_store, server, request_with, empty_context, stored_policy,
}

abbrev secret : String
secret = "secret"

authorized_iff_example :
    (authorized sample_go secret (request_with "Bearer secret").headers ≡ true) ↔ (
      (secret ≢ "")
      × ((rest : String) × (first_value "Authorization" (request_with "Bearer secret").headers
            ≡ "Bearer " ++ rest)
          × (trim_space sample_go rest ≡ secret)))
authorized_iff_example = authorized_iff sample_go secret (request_with "Bearer secret").headers

refused : authorized sample_go "secret" (request_with "Bearer guess").headers ≡ false
unfolding authorized
refused = refl

serve_unauthorized_example :
    ((serve sample_go net io here event_store server "id" create_policy
        (request_with "Bearer guess")
        []).0.status
      ≡ 401)
    × ((serve sample_go net io here event_store server "id" create_policy
          (request_with "Bearer guess")
          []).1
        ≡ [])
serve_unauthorized_example =
    serve_unauthorized sample_go net io here event_store server "id" create_policy
      (request_with "Bearer guess") [] "secret" refl refl refused

-- Another repository, which stores something for other tenants.
abbrev there_policy : Policy
there_policy = stored_policy "{other}"

acme_asks : tenant_of sample_go empty_context (request_with "Bearer secret") ≡ ok "acme"
unfolding tenant_of
acme_asks = refl

acme_agrees : AgreeFor "acme" here (repo (ok there_policy, "{other}" ∷ []))
acme_agrees = record {
  list_apps = λ s. refl;
  create_app = λ s req u e. refl;
  get_app = λ s id. refl;
  update_app = λ s id req u. refl;
  list_policies = λ s id. refl;
  create_policy = λ s id req. refl;
  get_policy = λ s id. refl;
  update_policy = λ s id req. refl;
  publish_policy = λ s id. refl;
  get_active_policy = λ s id. refl;
}

acme_events_agree : AgreeOnEvents "acme" event_store event_store
acme_events_agree = record { search = λ s f e. refl; get_by_request_id = λ s id. refl }

dispatch_isolated_example :
    dispatch sample_go net io here event_store server
      (request_with "Bearer secret")
      []
      empty_context
      create_policy
    ≡ dispatch sample_go net io
        (repo (ok there_policy, "{other}" ∷ []))
        event_store
        server
        (request_with "Bearer secret")
        []
        empty_context
        create_policy
dispatch_isolated_example =
    dispatch_isolated sample_go net io here (repo (ok there_policy, "{other}" ∷ [])) event_store
      event_store "acme" acme_agrees acme_events_agree server (request_with "Bearer secret") []
      empty_context acme_asks create_policy refl

-- The snapshots that the repository stores are valid.
abbrev AreValid : List String → Type 0
AreValid s = All (λ raw. validate_policy_snapshot sample_go net raw ≡ ok tt) s

here_keeps : Keeps sample_go net here event_store AreValid
here_keeps = record {
  ping = λ s h. h;
  list_tenants = λ s h. h;
  create_tenant = λ s req valid h. h;
  list_apps = λ s t h. h;
  create_app = λ s req u valid h. h;
  get_app = λ s t id h. h;
  update_app = λ s t id req u valid h. h;
  list_policies = λ s t id h. h;
  create_policy = λ s t id req valid h. elim (Bool-cases (t == "acme")) [
    | inl e ↦ rw e (valid.snapshot, h)
    | inr e ↦ rw e tt
  ];
  get_policy = λ s t id h. h;
  update_policy = λ s t id req valid h. h;
  publish_policy = λ s s' t id p same valid h. h;
  get_active_policy = λ s t id h. h;
  get_gateway_policy = λ s host h. h;
  list_rule_sets = λ s h. h;
  list_rule_versions = λ s id h. h;
  activate = λ s id version h. h;
  search = λ s f h. h;
  get_event = λ s t id h. h;
}

serve_keeps_example :
    AreValid
      (serve sample_go net io here event_store server "id" create_policy
        (request_with "Bearer secret")
        []).1
serve_keeps_example =
    serve_keeps sample_go net io here event_store server AreValid here_keeps "id" create_policy
      (request_with "Bearer secret") [] tt
