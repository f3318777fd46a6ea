-- ===== src/Worker/Rules/Checksum.antt =====
-- What the checksum of checksumDirectory depends on.
use mathlib.Core.List.{foldr, Perm}
use mathlib.Core.List.Perm
use mathlib.Core.List as Lists
use mathlib.Core.Option as Options
use mathlib.Core.HLevel.{hedberg}
use bedem_waf.Common.{
  String, true, not, ◌||◌, ◌≡◌, refl, ap, sym, ◌∙◌, Option, none, some, List, [], ◌∷◌, ◌++◌, All,
  ◌⊎◌, inl, inr, Bool-cases, ◌==◌, if◌then◌else◌,
}
use bedem_waf.Common.Order.{sort, text_before}
use bedem_waf.Common.Order.Texts.{put, put_comm, text_discrete}
use bedem_waf.Common.Result.{Result, ok, err, ◌>>=◌, >>=-eq-ok, ok_injective}
use bedem_waf.Go.{Go}
use bedem_waf.Worker.{Visit, FileSystem, Platform, ScanError}
use bedem_waf.Worker.Rules.{
  metadata_file, is_rule_name, file_of, visited, add_file, collect, hash_input, checksum_directory,
}

files_set : IsSet (Option (List String))
files_set = hedberg (Options.discrete (Lists.List-discrete text_discrete))

-- The files in sorted order, if there is no error.
abbrev sorted : Result ScanError (List String) → Option (List String)
sorted (err e) = none
sorted (ok files) = some (sort text_before files)

-- The same for files that are sorted already.
abbrev put_file : Result ScanError (Option String) → Option (List String) → Option (List String)
put_file (err e) files = none
put_file (ok none) files = files
put_file (ok (some f)) none = none
put_file (ok (some f)) (some files) = some (put f files)

sorted-add_file :
    (x : Result ScanError (Option String)) (files : Result ScanError (List String))
    → sorted (x >>= λ f. files >>= λ fs. ok (add_file f fs)) ≡ put_file x (sorted files)
unfolding sort
sorted-add_file (err e) files = refl
sorted-add_file (ok none) (err e) = refl
sorted-add_file (ok none) (ok files) = refl
sorted-add_file (ok (some f)) (err e) = refl
sorted-add_file (ok (some f)) (ok files) = refl

put_file_comm :
    (x y : Result ScanError (Option String)) (files : Option (List String))
    → put_file x (put_file y files) ≡ put_file y (put_file x files)
put_file_comm (err d) (err e) files = refl
put_file_comm (err d) (ok none) files = refl
put_file_comm (err d) (ok (some g)) none = refl
put_file_comm (err d) (ok (some g)) (some files) = refl
put_file_comm (ok none) y files = refl
put_file_comm (ok (some f)) (err e) none = refl
put_file_comm (ok (some f)) (err e) (some files) = refl
put_file_comm (ok (some f)) (ok none) files = refl
put_file_comm (ok (some f)) (ok (some g)) none = refl
put_file_comm (ok (some f)) (ok (some g)) (some files) = ap some (put_comm f g files)

-- A visit without an error: of a directory, or of a file that is the metadata or not a rule file.
abbrev pub IsIgnored : Platform → String → Visit → Type 0
IsIgnored platform dir v =
    (v.failed ≡ none)
    × ((v.is_dir ≡ true)
        ⊎ ((rel : String) × (platform.rel dir v.path ≡ ok rel)
            × ((platform.to_slash rel == metadata_file
                  || not (is_rule_name (platform.to_slash rel)))
                ≡ true)))

module _ (platform : Platform) (dir : String) where
  abbrev step : Visit → Option (List String) → Option (List String)
  step v files = put_file (file_of platform dir v) files

  sorted-collect :
      (visits : List Visit) → sorted (collect platform dir visits) ≡ foldr step (some []) visits
  unfolding collect sort
  sorted-collect [] = refl
  sorted-collect (v ∷ vs) =
      sorted-add_file (file_of platform dir v) (collect platform dir vs)
      ∙ ap (step v) (sorted-collect vs)

  file_of-IsIgnored : (v : Visit) → IsIgnored platform dir v → file_of platform dir v ≡ ok none
  unfolding file_of
  file_of-IsIgnored v (works, inl is_dir) = rw (works, is_dir) refl
  file_of-IsIgnored v (works, inr (rel, relative, left_out)) =
      ap (λ e. visited platform dir e v) works ∙ elim (Bool-cases v.is_dir) [
        | inl h ↦ rw h refl
        | inr h ↦
            rw (h, relative)
              (ap (λ b. ok (if b then none else some (platform.to_slash rel))) left_out)
      ]

  foldr-ignored :
      (ws extra : List Visit)
      → All (IsIgnored platform dir) extra
      → foldr step (some []) (ws ++ extra) ≡ foldr step (some []) ws
  foldr-ignored (w ∷ ws) extra h = ap (step w) (foldr-ignored ws extra h)
  foldr-ignored [] [] h = refl
  foldr-ignored [] (v ∷ extra) (h, hs) =
      ap (λ x. put_file x (foldr step (some []) extra)) (file_of-IsIgnored v h)
      ∙ foldr-ignored [] extra hs

  collect-same :
      (vs ws extra : List Visit)
      → Perm vs (ws ++ extra)
      → All (IsIgnored platform dir) extra
      → sorted (collect platform dir vs) ≡ sorted (collect platform dir ws)
  collect-same vs ws extra p ignored =
      sorted-collect vs
      ∙ Perm.foldr-eq files_set step
          (λ v w files. put_file_comm (file_of platform dir v) (file_of platform dir w) files) p
          (some [])
      ∙ foldr-ignored ws extra ignored
      ∙ sym (sorted-collect ws)

-- A walk that gives these files when they are sorted.
sorted-eq-some :
    (walk : Result ScanError (List String)) (files : List String)
    → sorted walk ≡ some files
    → (found : List String) × (walk ≡ ok found) × (sort text_before found ≡ files)
sorted-eq-some (err e) files h = cc
sorted-eq-some (ok found) files h = (found, refl, cc)

module _ (go : Go) (platform : Platform) (here there : FileSystem) (dir : String) where
  -- Both file systems read the same content for the file.
  abbrev pub IsSameFile : String → Type 0
  IsSameFile f =
      here.read_file (platform.join dir (platform.from_slash f))
      ≡ there.read_file (platform.join dir (platform.from_slash f))

  hash_input-same :
      (files : List String)
      → All IsSameFile files
      → hash_input go platform here dir files ≡ hash_input go platform there dir files
  unfolding hash_input
  hash_input-same [] same = refl
  hash_input-same (f ∷ fs) same = rw (same.0, hash_input-same fs same.1) refl

  -- Where checksumDirectory succeeds there, it gives the same files and the same checksum here, when
  -- the walk here makes the visits of the walk there, in any order, and besides them only visits that
  -- are ignored: without an error, and of a directory, of the metadata or of a file with another
  -- ending than a rule file. Each rule file must have the same content here and there; the contents
  -- of the metadata and of other files may differ.
  pub checksum_directory-same :
      (extra : List Visit) (answer : List String × String)
      → Perm (here.walk_dir dir) (there.walk_dir dir ++ extra)
      → All (IsIgnored platform dir) extra
      → All IsSameFile answer.0
      → checksum_directory go platform there dir ≡ ok answer
      → checksum_directory go platform here dir ≡ ok answer
  unfolding checksum_directory
  checksum_directory-same extra answer p ignored same runs =
      let (found, walks, rest) = >>=-eq-ok (collect platform dir (there.walk_dir dir)) _ runs in
      let (content, hashed, ends) =
        >>=-eq-ok (hash_input go platform there dir (sort text_before found)) _ rest in
      let answered = ok_injective ends in
      let (found', walks', sorted') =
        sorted-eq-some (collect platform dir (here.walk_dir dir)) (sort text_before found) (
          collect-same platform dir (here.walk_dir dir) (there.walk_dir dir) extra p ignored
          ∙ ap sorted walks) in
      let files : sort text_before found ≡ answer.0 =
        ap (λ (a : List String × String). a.0) answered in
      let same_input = hash_input-same (sort text_before found) (rw files same) in
      rw walks' (rw sorted' (rw (same_input, hashed) ends))
