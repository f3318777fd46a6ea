-- ===== src/Audit/Redaction.antt =====
-- services/gateway/internal/audit/redaction/redaction.go
pub mod Secrets
use bedem_waf.Common.{String, Bool, List, [], ◌∷◌, ◌==◌, any, if◌then◌else◌}
use bedem_waf.Go.{Go}
use bedem_waf.Go.Maps.{GoMap, insert}
use bedem_waf.Go.Text.{to_lower, trim_space}

abbrev pub sensitive_query_names : List String
sensitive_query_names =
    "password" ∷ "pass" ∷ "token" ∷ "access_token" ∷ "refresh_token" ∷ "secret" ∷ "api_key" ∷ "key"
    ∷ "code" ∷ []

abbrev pub sensitive_header_names : List String
sensitive_header_names = "authorization" ∷ "cookie" ∷ []

abbrev pub redacted_value : String
redacted_value = "[REDACTED]"

module _ (go : Go) where
  unfoldable pub is_sensitive_query_name : String → Bool
  unfolding to_lower trim_space
  is_sensitive_query_name name =
      any (λ n. n == to_lower go (trim_space go name)) sensitive_query_names

  unfoldable pub is_sensitive_header_name : String → Bool
  unfolding to_lower trim_space
  is_sensitive_header_name name =
      any (λ n. n == to_lower go (trim_space go name)) sensitive_header_names

  -- The loop over the values of a query.
  unfoldable pub redact_values : GoMap (List String) → GoMap (List String)
  redact_values [] = []
  redact_values ((name, vs) ∷ values) =
      (name, if is_sensitive_query_name name then redacted_value ∷ [] else vs)
      ∷ redact_values values

  unfoldable pub query : String → String
  unfolding redact_values
  query raw =
      if raw == ""
      then ""
      else let (values, parsed) = go.parse_query raw in
        if parsed then go.encode_query (redact_values values) else redacted_value

  -- The loop of Headers, over the map that it fills.
  unfoldable pub redact_headers : GoMap (List String) → GoMap (List String) → GoMap (List String)
  redact_headers redacted [] = redacted
  redact_headers redacted ((name, vs) ∷ headers) =
      redact_headers
        (insert (go.canonical_header_key name)
          (if is_sensitive_header_name name then redacted_value ∷ [] else vs) redacted)
        headers

  unfoldable pub headers : GoMap (List String) → GoMap (List String)
  unfolding redact_headers
  headers hs = redact_headers [] hs
