-- ===== src/Tests/RulePackages.antt =====
-- Examples of a scan of rule packages, on two file systems that read the same rule files.
use mathlib.Core.List.{Perm}
use mathlib.Core.List.Perm
use bedem_waf.Common.{
  ◌≡◌, refl, ℕ, ◌++◌, All, inr, String, true, false, Option, none, List, [], ◌∷◌, ◌==◌,
  if◌then◌else◌,
}
use bedem_waf.Common.Result.{ok, err}
use bedem_waf.Go.Strings.{concat}
use bedem_waf.Worker.{
  RuleSet, ScanError, Metadata, DirEntry, Visit, FileSystem, Platform, version_required, io_failed,
}
use bedem_waf.Worker.Rules.{
  file_of, is_rule_name, checked_metadata, checksum_directory, scan_local_directory,
  scan_and_record, rule_directories, directories, scan_rule_set,
}
use bedem_waf.Worker.Rules.Checksum.{IsIgnored, checksum_directory-same}
use bedem_waf.Tests.Samples.{sample_go}

abbrev crs_metadata : Metadata
crs_metadata = record {
  name = "crs";
  provider = "";
  source = "";
  version = " 4.0 ";
  description = "";
  enabled = true;
  extra = "";
}

-- The metadata of a rule set without a version is the text `{}`.
abbrev unix : Platform
unix = record {
  join = λ dir name. concat (dir ∷ "/" ∷ name ∷ []);
  rel = λ dir path. ok path;
  to_slash = λ path. path;
  from_slash = λ path. path;
  decode_metadata =
      λ text. ok (if text == "{}" then record crs_metadata { version = " " } else crs_metadata);
  encode_snapshot = λ files now. ok (concat files);
}

abbrev clock : ℕ → String
clock i = "2026-01-01T00:00:00Z"

abbrev entry : String → DirEntry
entry name = record { name = name; is_dir = true }

abbrev visit : String → Visit
visit path = record { path = path; is_dir = false; failed = none }

abbrev files : List DirEntry → List Visit → FileSystem
files entries visits = record {
  stat = λ path. if path == "rules" then ok true else err (io_failed "not found");
  read_dir = λ path. ok entries;
  read_file = λ path. ok path;
  walk_dir = λ path. visits;
}

abbrev here : FileSystem
here =
    files (entry "a" ∷ entry "b" ∷ [])
      (visit "x.conf" ∷ visit "d.data" ∷ visit "ruleset.json" ∷ visit "notes.md" ∷ [])

-- Without the metadata and the notes, and in another order.
abbrev there : FileSystem
there = files (entry "b" ∷ entry "a" ∷ []) (visit "d.data" ∷ visit "x.conf" ∷ [])

abbrev left_out : List Visit
left_out = visit "ruleset.json" ∷ visit "notes.md" ∷ []

left_out-IsIgnored : All (IsIgnored unix "a") left_out
unfolding is_rule_name
left_out-IsIgnored =
    ((refl, inr ("ruleset.json", refl, refl)), ((refl, inr ("notes.md", refl, refl)), tt))

visits-Perm : Perm (here.walk_dir "a") (there.walk_dir "a" ++ left_out)
visits-Perm = Perm.swap (visit "d.data") (visit "x.conf") left_out

-- The files are sorted, and the metadata and other files are left out.
abbrev answer : List String × String
answer = (
  "d.data" ∷ "x.conf" ∷ [],
  concat ("d.data" ∷ "\0" ∷ "a/d.data" ∷ "\0" ∷ "x.conf" ∷ "\0" ∷ "a/x.conf" ∷ "\0" ∷ []),
)

summed : checksum_directory sample_go unix there "a" ≡ ok answer
unfolding checksum_directory file_of is_rule_name concat
summed = refl

checksum_directory-same_example : checksum_directory sample_go unix here "a" ≡ ok answer
checksum_directory-same_example =
    checksum_directory-same sample_go unix here there "a" left_out answer visits-Perm
      left_out-IsIgnored (refl, (refl, tt)) summed

-- The recorder keeps the local paths.
abbrev keep : List String → RuleSet → Option ScanError × List String
keep paths set = (none, set.local_path ∷ paths)

recorded_sets :
    (scan_and_record sample_go unix there keep clock [] " rules ").1 ≡ "rules/b" ∷ "rules/a" ∷ []
unfolding scan_and_record scan_local_directory rule_directories directories scan_rule_set concat
    is_rule_name
recorded_sets = refl

accepted :
    checked_metadata sample_go crs_metadata
    ≡ ok (record crs_metadata { provider = "local"; source = "local"; version = "4.0" })
unfolding checked_metadata
accepted = refl

version_missing :
    checked_metadata sample_go (record crs_metadata { version = " " }) ≡ err version_required
unfolding checked_metadata
version_missing = refl
