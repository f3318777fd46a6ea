-- ===== src/Proxy.antt =====
-- services/gateway/internal/proxy/gateway.go and the interface of services/gateway/internal/waf: the
-- types. The functions are in the children.
pub mod Client
pub mod Reading
pub mod Decide
pub mod Serve
use bedem_waf.Common.{ℕ, String, Bool, Option, List}
use bedem_waf.Common.Int.{ℤ}
use bedem_waf.Common.Result.{Result}
use bedem_waf.Go.{Url}
use bedem_waf.Go.Maps.{GoMap}
use bedem_waf.Go.Netip.{Prefix}
use bedem_waf.Decision.{Decision, Mode}
use bedem_waf.Policy.{App, RateLimitRule}
use bedem_waf.Policy.Store.{Provider}
use bedem_waf.RateLimit.{Request}

-- A stream: its bytes, whether reading on behind them fails instead of ending, and whether Close
-- fails.
pub record Body : Type 0 where
  pub bytes : List ℕ
  pub read_fails : Bool
  pub close_fails : Bool

-- The fields of `http.Request` that are used; no body is nil or `http.NoBody`, `tls` that TLS is not
-- nil.
pub record HttpRequest : Type 0 where
  pub method : String
  pub url_path : String
  pub raw_query : String
  pub host : String
  pub remote_addr : String
  pub headers : GoMap (List String)
  pub body : Option Body
  pub tls : Bool

pub record PolicyContext : Type 0 where
  pub request_id : String
  pub app_id : String
  pub host : String
  pub client_ip : String
  pub mode : Mode

-- The interface waf.Engine: InspectRequest, on a state of the engine's own.
pub record Engine (W : Type 0) : Type 0 where
  pub inspect_request :
      W → HttpRequest → List ℕ → PolicyContext → Result String (Option Decision) × W

-- The interface ratelimit.Limiter: Check.
pub record Checker (L : Type 0) : Type 0 where
  pub check_rule : L → App → Request → RateLimitRule → Decision × L

-- The fields of Gateway and of its configuration that ServeHTTP reads.
pub record Gateway (P L W : Type 0) : Type 0 where
  pub body_limit : ℤ
  pub debug_preview : Bool
  pub preview_bytes : ℤ
  pub provider : Provider P
  pub limiter : Checker L
  pub waf : Engine W
  pub trusted_proxies : List Prefix

-- What the three services keep between requests.
pub record State (P L W : Type 0) : Type 0 where
  pub policies : P
  pub counters : L
  pub engine : W

-- The transport to the origins, on a state of their own: the status of the answer, or none when the
-- origin cannot be reached.
abbrev pub Transport : Type 0 → Type 0
Transport O = O → Url → HttpRequest → Option ℤ × O
