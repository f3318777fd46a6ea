-- ===== src/Audit/Redaction/Secrets.antt =====
-- Proofs about Query of redaction.go: where the values of sensitive parameters go.
use bedem_waf.Common.{
  String, true, false, ◌≡◌, ◌≢◌, ◌⊎◌, inl, inr, refl, List, [], ◌∷◌, ne→eq-false,
}
use bedem_waf.Go.{Go}
use bedem_waf.Go.Maps.{GoMap}
use bedem_waf.Audit.Redaction.{is_sensitive_query_name, redact_values, query}

module _ (go : Go) where
  -- The same parameters, each of them sensitive or with the same values.
  abbrev pub AreAlike : GoMap (List String) → GoMap (List String) → Type 0
  AreAlike [] [] = Unit
  AreAlike [] (q ∷ qs) = ⊥
  AreAlike (p ∷ ps) [] = ⊥
  AreAlike ((name, vs) ∷ ps) ((name', ws) ∷ qs) =
      (name ≡ name') × ((is_sensitive_query_name go name ≡ true) ⊎ (vs ≡ ws)) × AreAlike ps qs

  -- Two queries that are not empty and differ only in the values of sensitive parameters, or cannot be
  -- parsed.
  abbrev pub IsSameButSecrets : String → String → Type 0
  IsSameButSecrets q r =
      (q ≢ "")
      × (r ≢ "")
      × ((((go.parse_query q).1 ≡ false) × ((go.parse_query r).1 ≡ false))
          ⊎ (((go.parse_query q).1 ≡ true)
              × ((go.parse_query r).1 ≡ true)
              × AreAlike (go.parse_query q).0 (go.parse_query r).0))

  redact_values-same :
      (ps qs : GoMap (List String)) → AreAlike ps qs → redact_values go ps ≡ redact_values go qs
  unfolding redact_values
  redact_values-same [] [] h = refl
  redact_values-same [] (q ∷ qs) h = absurd h
  redact_values-same (p ∷ ps) [] h = absurd h
  redact_values-same ((name, vs) ∷ ps) ((name', ws) ∷ qs) (named, inl secret, rest) =
      rw (← named, secret, redact_values-same ps qs rest) refl
  redact_values-same ((name, vs) ∷ ps) ((name', ws) ∷ qs) (named, inr same, rest) =
      rw (← named, same, redact_values-same ps qs rest) refl

  pub query_same : (q r : String) → IsSameButSecrets q r → query go q ≡ query go r
  unfolding query
  query_same q r (some_q, some_r, inl (bad_q, bad_r)) =
      rw (ne→eq-false q "" some_q, ne→eq-false r "" some_r, bad_q, bad_r) refl
  query_same q r (some_q, some_r, inr (good_q, good_r, alike)) =
      rw
        (
          ne→eq-false q "" some_q,
          ne→eq-false r "" some_r,
          good_q,
          good_r,
          redact_values-same (go.parse_query q).0 (go.parse_query r).0 alike,
        )
        refl
