-- ===== src/ControlApi/Access/Bearer.antt =====
-- Who is authorized.
use Prim.Native.String.{[], ◌∷◌, ◌++◌}
use Prim.Native.String.append
use bedem_waf.Common.{
  ℕ, compare, Ordering, List, String, code, true, ◌≡◌, ◌≢◌, ◌↔◌, refl, ap, sym, arith, eqb, eq_iff,
  eq_refl, ne→eq-false,
}
use text.Mathlib.TextEquality.{codes_equal}
use bedem_waf.Go.{Go}
use bedem_waf.Go.Maps.{GoMap, first_value}
use bedem_waf.Go.Strings.{has_prefix}
use bedem_waf.Go.Text.{trim_space}
use bedem_waf.ControlApi.Access.{drop_prefix, authorized}

eqb→compare : (m n : ℕ) → eqb m n ≡ true → compare m n ≡ Ordering.eq
eqb→compare m n h = ground (arith, h)

prefix_split : (s t : String) → has_prefix s t ≡ true → s ≡ t ++ drop_prefix s t
unfolding has_prefix drop_prefix
prefix_split s [] h = sym (append.nil s)
prefix_split [] (c ∷ t) h = cc
prefix_split (d ∷ s) (c ∷ t) h =
    let same = codes_equal d c (eqb→compare (code d) (code c) (ground (arith, h))) in
    rw (same, append.cons c t (drop_prefix s t))
      (ap (λ u. c ∷ u) (prefix_split s t (ground (arith, h))))

eqb_refl : (n : ℕ) → eqb n n ≡ true
eqb_refl n = ground arith

has_prefix-append : (t rest : String) → has_prefix (t ++ rest) t ≡ true
unfolding has_prefix
has_prefix-append [] rest = refl
has_prefix-append (c ∷ t) rest =
    rw (append.cons c t rest, eqb_refl (code c)) (has_prefix-append t rest)

drop_prefix-append : (t rest : String) → drop_prefix (t ++ rest) t ≡ rest
unfolding drop_prefix
drop_prefix-append [] rest = append.nil rest
drop_prefix-append (c ∷ t) rest = rw (append.cons c t rest) (drop_prefix-append t rest)

-- A token authorizes a request exactly when it is not empty and the header Authorization is "Bearer "
-- and then the token, with any space around it. So no request is authorized while no token is set.
pub authorized_iff :
    (go : Go) (token : String) (headers : GoMap (List String))
    → (authorized go token headers ≡ true) ↔ (
        (token ≢ "")
        × ((rest : String) × (first_value "Authorization" headers ≡ "Bearer " ++ rest)
            × (trim_space go rest ≡ token)))
unfolding authorized
authorized_iff go token headers =
    let header = first_value "Authorization" headers in
    (
      λ h.
          let rest = drop_prefix header "Bearer " in
          (
            ground (arith, h, eq_iff token ""),
            (
              rest,
              prefix_split header "Bearer " (ground (arith, h)),
              (eq_iff (trim_space go rest) token).0 (ground (arith, h)),
            ),
          ),
      λ h.
          let (given, (rest, whole, same)) = h in
          rw
            (
              whole,
              has_prefix-append "Bearer " rest,
              drop_prefix-append "Bearer " rest,
              same,
              eq_refl token,
              ne→eq-false token "" given,
            )
            refl,
    )
