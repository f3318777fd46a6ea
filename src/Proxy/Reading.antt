-- ===== src/Proxy/Reading.antt =====
-- prepareRequestBody and redactedPreview, in gateway.go, with the `io.ReadAll` of an `io.LimitReader`
-- that it calls.
pub mod Exact
use bedem_waf.Common.{
  ℕ, zero, suc, ◌≤◌, ◌≡◌, refl, ap, String, Bool, true, false, Option, none, some, List, [], ◌∷◌,
  ◌++◌, length, take, arith, leb, if◌then◌else◌,
}
use bedem_waf.Common.Int.{ℤ, pos, pos_part, ◌+ℤ◌, leb_ℤ, ltb_ℤ, wrap_64}
use bedem_waf.Common.Result.{Result, ok, err}
use bedem_waf.Go.{Go}
use bedem_waf.Go.Strings.{concat}
use bedem_waf.Proxy.{Body}

abbrev pub drop {ℓ} : {A : Type ℓ} → ℕ → List A → List A
drop zero xs = xs
drop (suc n) [] = []
drop (suc n) (x ∷ xs) = drop n xs

-- `io.ReadAll(io.LimitReader(b, n))`: it stops behind n bytes, and fails where reading on fails.
unfoldable pub read_limited : ℕ → Body → Option (List ℕ)
read_limited n b =
    if leb n (length b.bytes)
    then some (take n b.bytes)
    else if b.read_fails
    then none
    else some b.bytes

-- The body that is read next, behind the first n bytes that were read already.
abbrev pub rejoined : ℕ → List ℕ → Body → Body
rejoined n read b = record b { bytes = read ++ drop n b.bytes }

-- The returned preview and `exceeded`, and `r.Body` behind the call.
pub record Prepared : Type 0 where
  pub preview : List ℕ
  pub exceeded : Bool
  pub body : Option Body

abbrev pub prepared : List ℕ → Bool → Option Body → Prepared
prepared p e b = record { preview = p; exceeded = e; body = b }

-- The part behind the read.
unfoldable pub with_data : ℤ → Body → List ℕ → Result String Prepared
with_data limit b read =
    if ltb_ℤ limit (pos (length read))
    then ok (
        prepared (take (pos_part limit) read) true
          (some (rejoined (pos_part (wrap_64 (limit +ℤ pos 1))) read b)))
    else if b.close_fails
    then err "close failed"
    else ok (
        prepared read false
          (some (record { bytes = read; read_fails = false; close_fails = false })))

abbrev pub after_read : ℤ → Body → Option (List ℕ) → Result String Prepared
after_read limit b none = err "read failed"
after_read limit b (some read) = with_data limit b read

unfoldable pub read_body : ℤ → Body → Result String Prepared
unfolding read_limited with_data
read_body limit b = after_read limit b (read_limited (pos_part (wrap_64 (limit +ℤ pos 1))) b)

unfoldable pub prepare_request_body : ℤ → Option Body → Result String Prepared
unfolding read_body
prepare_request_body limit none = ok (prepared [] false none)
prepare_request_body limit (some b) =
    if leb_ℤ limit (pos 0) then ok (prepared [] false (some b)) else read_body limit b

-- redactedPreview
unfoldable pub redacted_preview : Go → List ℕ → ℤ → String
unfolding concat
redacted_preview go body max =
    if leb_ℤ max (pos 0)
    then ""
    else let shown = if ltb_ℤ max (pos (length body)) then take (pos_part max) body else body in
      concat ("[redacted preview: " ∷ go.itoa (pos (length shown)) ∷ " bytes]" ∷ [])
