-- ===== src/Proxy/Serve/Secrets.antt =====
-- What the audit event of ServeHTTP keeps of a query.
use bedem_waf.Common.{String, ◌≡◌, refl}
use bedem_waf.Go.{Go}
use bedem_waf.Go.Netip.{Addr}
use bedem_waf.Proxy.{HttpRequest}
use bedem_waf.Proxy.Serve.{base_event}
use bedem_waf.Audit.Redaction.Secrets.{IsSameButSecrets, query_same}

-- The audit event that ServeHTTP starts with is the same for two requests that differ only in the
-- values of sensitive parameters of their queries: the queries are not empty, and either neither of
-- them can be parsed, or they have the same parameters in the same order, each of them sensitive (by
-- its name in small letters, without the space around it) or with the same values.
pub base_event_same :
    (go : Go) (id : String) (ip : Addr) (host : String) (r : HttpRequest) (q : String)
    → IsSameButSecrets go r.raw_query q
    → base_event go id ip host r ≡ base_event go id ip host (record r { raw_query = q })
unfolding base_event
base_event_same go id ip host r q same = rw (query_same go r.raw_query q same) refl
