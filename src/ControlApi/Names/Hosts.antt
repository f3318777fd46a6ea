-- ===== src/ControlApi/Names/Hosts.antt =====
-- Proofs about validateHostnames in validation.go, and what the gateway makes of its names.
use mathlib.Core.List.{List}
use bedem_waf.Common.{
  String, true, false, not, ◌||◌, ◌≡◌, ◌≢◌, ap, arith, if◌then◌else◌, ◌==◌, All, all, Bool-cases,
  Option-cases, is_some, inl, inr, eq_iff, eq_refl, map, is_nonempty,
}
use bedem_waf.Common.Result.{ok, >>=-eq-ok, >>-eq-ok, refuse->>-eq-ok}
use bedem_waf.Go.{Go}
use bedem_waf.Go.Text.{to_lower, trim_space}
use bedem_waf.Go.Strings.{is_code, has_char, contains, trim, split_host_port}
use bedem_waf.Policy.Host.{normalize_host, valid_host, host_part, is_bracket}
use bedem_waf.Policy.Rules.{is_member}
use bedem_waf.Policy.Rules.Order.{AreDistinct}
use bedem_waf.ControlApi.Names.{
  validate_dns_name, hostname_of, hostnames_from, validate_hostnames, without_port, hostname_empty,
  hostname_not_bare, hostname_is_address, hostname_repeated, hostnames_missing, is_url_mark,
}
use bedem_waf.ControlApi.Names.Dns.{
  IsDnsName, validate_dns_name-IsDnsName, trim-bracket, normalize_host-dns, valid_host-dns,
  IsDnsName-given,
}

module _ (go : Go) where
  -- The name that the gateway looks up for the value.
  pub record IsRoutable (value : String) : Type 0 where
    pub routed : valid_host go (normalize_host go value) ≡ true
    pub settled : normalize_host go (normalize_host go value) ≡ normalize_host go value

  without_port-bare :
      (value raw bare : String)
      → without_port value raw ≡ ok bare
      → IsDnsName bare
      → (if has_char (is_code b':') raw
          then host_part (split_host_port raw) raw
          else trim is_bracket raw)
        ≡ bare
  unfolding without_port
  without_port-bare value raw bare h dns = elim (Bool-cases (has_char (is_code b':') raw)) [
    | inl e ↦ rw e (elim (Option-cases (split_host_port raw)) [
      | inl f ↦ let g = rw (e, f) at h in cc
      | inr (parts, f) ↦
          let g = rw (e, f) at h in
          let same : parts.0 ≡ bare = cc in rw (f, same) (trim-bracket bare dns)
    ])
    | inr e ↦
        let g = rw e at h in let same : raw ≡ bare = cc in rw (e, same) (trim-bracket bare dns)
  ]

  hostname_of-bare :
      (value bare : String)
      → hostname_of go value ≡ ok bare
      → IsDnsName bare × (normalize_host go value ≡ bare)
  unfolding hostname_of normalize_host
  hostname_of-bare value bare h =
      let (given, h₁) =
        refuse->>-eq-ok (trim_space go (to_lower go value) == "") hostname_empty _ h in
      let (plain, h₂) =
        refuse->>-eq-ok
          (contains (trim_space go (to_lower go value)) "://"
            || has_char is_url_mark (trim_space go (to_lower go value)))
          (hostname_not_bare value) _ h₁ in
      let (host, found, h₃) =
        >>=-eq-ok (without_port value (trim_space go (to_lower go value))) _ h₂ in
      let (named, h₄) =
        refuse->>-eq-ok (is_some (go.parse_addr host)) (hostname_is_address value) _ h₃ in
      let (dns, h₅) = >>-eq-ok (validate_dns_name host) _ h₄ in
      let same : host ≡ bare = cc in
      let good = rw same at (validate_dns_name-IsDnsName host dns) in
      (
        good,
        rw given (
            without_port-bare value (trim_space go (to_lower go value)) bare (rw same at found)
              good),
      )

  routable : (value bare : String) → hostname_of go value ≡ ok bare → IsRoutable value
  routable value bare h =
      let (dns, same) = hostname_of-bare value bare h in
      let given = IsDnsName-given bare dns in
      record {
        routed = rw same (valid_host-dns go bare dns given);
        settled = rw same (normalize_host-dns go bare dns given);
      }

  -- A successful round: the name is routable and was not seen.
  round_of_ok :
      (seen : List String) (v : String) (vs : List String)
      → hostnames_from go seen (List.◌∷◌ v vs) ≡ ok tt
      → IsRoutable v
        × (is_member (normalize_host go v) seen ≡ false)
        × (hostnames_from go (List.◌∷◌ (normalize_host go v) seen) vs ≡ ok tt)
  unfolding hostnames_from
  round_of_ok seen v vs h =
      let (bare, found, h₁) = >>=-eq-ok (hostname_of go v) _ h in
      let (fresh, rest) = refuse->>-eq-ok (is_member bare seen) (hostname_repeated v) _ h₁ in
      let (dns, same) = hostname_of-bare v bare found in
      (routable v bare found, rw same fresh, rw same rest)

  hostnames_unseen :
      (seen vs : List String)
      → hostnames_from go seen vs ≡ ok tt
      → (x : String) → is_member x seen ≡ true
      → All (λ y. x ≢ y) (map (normalize_host go) vs)
  hostnames_unseen seen List.[] h x m = tt
  hostnames_unseen seen (List.◌∷◌ v vs) h x m =
      let (good, fresh, rest) = round_of_ok seen v vs h in
      (
        λ p. ground (arith, ap (λ y. is_member y seen) p),
        hostnames_unseen (List.◌∷◌ (normalize_host go v) seen) vs rest x
            (ground (arith, eq_iff (normalize_host go v) x)),
      )

  hostnames_from_sound :
      (seen vs : List String)
      → hostnames_from go seen vs ≡ ok tt
      → All IsRoutable vs × AreDistinct (map (normalize_host go) vs)
  hostnames_from_sound seen List.[] h = (tt, tt)
  hostnames_from_sound seen (List.◌∷◌ v vs) h =
      let (good, fresh, rest) = round_of_ok seen v vs h in
      let name = normalize_host go v in
      let (all, distinct) = hostnames_from_sound (List.◌∷◌ name seen) vs rest in
      (
        (good, all),
        (
          hostnames_unseen (List.◌∷◌ name seen) vs rest name (ground (arith, eq_refl name)),
          distinct,
        ),
      )

  -- Hostnames that the control API accepts: there is at least one; the gateway's normal form of each
  -- is a host that the gateway lets through and that is its own normal form; and no two of them have
  -- the same normal form, so no two would meet in the gateway's store.
  pub validate_hostnames-IsRoutable :
      (values : List String)
      → validate_hostnames go values ≡ ok tt
      → (values ≢ List.[]) × All IsRoutable values × AreDistinct (map (normalize_host go) values)
  unfolding validate_hostnames
  validate_hostnames-IsRoutable values h =
      let (given, rest) = refuse->>-eq-ok (not (is_nonempty values)) hostnames_missing _ h in
      let (all, distinct) = hostnames_from_sound List.[] values rest in
      (λ e. let t = ap is_nonempty e in ground (arith, t, given), all, distinct)
