-- ===== src/Proxy/Reading/Exact.antt =====
-- What the preparation of a body leaves to the origin.
use bedem_waf.Common.{
  none, ◌∙◌, Bool, ℕ, zero, suc, ◌^◌, ◌≤◌, ◌<◌, ◌≡◌, refl, ap, true, false, some, List, [], ◌∷◌,
  ◌++◌, length, take, arith, ltb, leb, if◌then◌else◌, Bool-cases, inl, inr,
}
use bedem_waf.Common.Int.{pos, pos_part, ltb_ℤ, leb_ℤ, ◌+ℤ◌, wrap_64, wrap_64_of_small}
use bedem_waf.Common.Result.{ok, err}
use bedem_waf.Proxy.{Body}
use bedem_waf.Proxy.Reading.{
  drop, read_limited, rejoined, prepared, with_data, after_read, read_body, prepare_request_body,
}

take-append-drop {ℓ} : {A : Type ℓ} (n : ℕ) (xs : List A) → take n xs ++ drop n xs ≡ xs
take-append-drop zero xs = refl
take-append-drop (suc n) [] = refl
take-append-drop (suc n) (x ∷ xs) = ap (λ ys. x ∷ ys) (take-append-drop n xs)

take-take-suc {ℓ} : {A : Type ℓ} (n : ℕ) (xs : List A) → take n (take (suc n) xs) ≡ take n xs
take-take-suc zero xs = refl
take-take-suc (suc n) [] = refl
take-take-suc (suc n) (x ∷ xs) = ap (λ ys. x ∷ ys) (take-take-suc n xs)

take_of_length_le {ℓ} : {A : Type ℓ} (n : ℕ) (xs : List A) → length xs ≤ n → take n xs ≡ xs
take_of_length_le zero [] h = refl
take_of_length_le zero (x ∷ xs) h = ground arith
take_of_length_le (suc n) [] h = refl
take_of_length_le (suc n) (x ∷ xs) h = ap (λ ys. x ∷ ys) (take_of_length_le n xs (omega arith))

limit_next : (l : ℕ) → suc l < 2 ^ 63 → pos_part (wrap_64 (pos l +ℤ pos 1)) ≡ suc l
unfolding ◌+ℤ◌
limit_next l h =
    let e : pos l +ℤ pos 1 ≡ pos (suc l) = ground arith in
    rw e (ap pos_part (wrap_64_of_small (suc l) h))

length-take-suc :
    {A : Type 0} (l : ℕ) (xs : List A) → l < length xs → ltb l (length (take (suc l) xs)) ≡ true
length-take-suc l [] h = ground arith
length-take-suc zero (x ∷ xs) h = refl
length-take-suc (suc l) (x ∷ xs) h = let e = length-take-suc l xs (omega arith) in ground (arith, e)

-- A body that was read to its end: the bytes are behind it, and it fails no more.
abbrev pub replayed : Body → Body
replayed b = record b { read_fails = false; close_fails = false }

read_limited_long :
    (l : ℕ) (b : Body)
    → ltb l (length b.bytes) ≡ true
    → read_limited (suc l) b ≡ some (take (suc l) b.bytes)
unfolding read_limited
read_limited_long l b e =
    let first : leb (suc l) (length b.bytes) ≡ true = ground arith in rw first refl

read_limited_short :
    (l : ℕ) (b : Body)
    → ltb l (length b.bytes) ≡ false
    → read_limited (suc l) b ≡ (if b.read_fails then none else some b.bytes)
unfolding read_limited
read_limited_short l b e =
    let first : leb (suc l) (length b.bytes) ≡ false = ground arith in rw first refl

with_data_long :
    (l : ℕ) (b : Body)
    → suc l < 2 ^ 63
    → ltb l (length b.bytes) ≡ true
    → with_data (pos l) b (take (suc l) b.bytes) ≡ ok (prepared (take l b.bytes) true (some b))
unfolding with_data
with_data_long l b fits e =
    let shorter = length-take-suc l b.bytes (ground arith) in
    let long : ltb_ℤ (pos l) (pos (length (take (suc l) b.bytes))) ≡ true = ground arith in
    let next = limit_next l fits in
    let back : rejoined (suc l) (take (suc l) b.bytes) b ≡ b =
      ap (λ bs. record b { bytes = bs }) (take-append-drop (suc l) b.bytes) in
    let shown = take-take-suc l b.bytes in rw (long, next, back, shown) refl

with_data_short :
    (l : ℕ) (b : Body)
    → ltb l (length b.bytes) ≡ false
    → with_data (pos l) b b.bytes ≡ (
        if b.close_fails
        then err "close failed"
        else ok (prepared b.bytes false (some (replayed b))))
unfolding with_data
with_data_short l b e =
    let off : ltb_ℤ (pos l) (pos (length b.bytes)) ≡ false = ground arith in rw off refl

after_short :
    (l : ℕ) (b : Body) (fails : Bool)
    → ltb l (length b.bytes) ≡ false
    → after_read (pos l) b (if fails then none else some b.bytes) ≡ (
        if fails
        then err "read failed"
        else if b.close_fails
        then err "close failed"
        else ok (prepared b.bytes false (some (replayed b))))
after_short l b true e = refl
after_short l b false e = with_data_short l b e

-- With a positive limit that is not the largest one of 64 bits, all that becomes of a body: a body
-- longer than the limit gives its first bytes as the preview, is marked as exceeding, and is passed
-- on as it was, whether or not reading it to the end would fail; any other body fails the request if
-- it cannot be read or closed, and else is its own preview, and is passed on with the same bytes.
pub prepare_request_body_exact :
    (l : ℕ) (b : Body)
    → 0 < l
    → suc l < 2 ^ 63
    → prepare_request_body (pos l) (some b) ≡ (
        if ltb l (length b.bytes)
        then ok (prepared (take l b.bytes) true (some b))
        else if b.read_fails
        then err "read failed"
        else if b.close_fails
        then err "close failed"
        else ok (prepared b.bytes false (some (replayed b))))
unfolding prepare_request_body read_body
prepare_request_body_exact zero b positive fits = elim positive [ ]
prepare_request_body_exact (suc m) b positive fits =
    let positive_limit : leb_ℤ (pos (suc m)) (pos 0) ≡ false = ground arith in
    let next = ap (λ n. after_read (pos (suc m)) b (read_limited n b)) (limit_next (suc m) fits) in
    elim (Bool-cases (ltb (suc m) (length b.bytes))) [
      | inl e ↦
          rw positive_limit next
          ∙ ap (after_read (pos (suc m)) b) (read_limited_long (suc m) b e)
          ∙ with_data_long (suc m) b fits e
          ∙ rw e refl
      | inr e ↦
          rw positive_limit next
          ∙ ap (after_read (pos (suc m)) b) (read_limited_short (suc m) b e)
          ∙ after_short (suc m) b b.read_fails e
          ∙ rw e refl
    ]
