-- ===== src/Worker/Rules.antt =====
-- services/worker/internal/rules/rules.go
pub mod Checksum
use bedem_waf.Common.{
  String, Bool, true, false, not, ◌&&◌, ◌||◌, Option, none, some, ℕ, suc, List, [], ◌∷◌, ◌==◌,
  if◌then◌else◌,
}
use bedem_waf.Common.Order.{text_before, sort}
use bedem_waf.Common.Result.{Result, ok, err, is_ok, refuse, ◌>>=◌, ◌>>◌}
use bedem_waf.Go.{Go}
use bedem_waf.Go.Strings.{concat, has_suffix}
use bedem_waf.Go.Text.{trim_space}
use bedem_waf.Worker.{
  Metadata, RuleSet, ManagedVersion, DirEntry, Visit, FileSystem, Platform, ScanError,
  directory_required, not_a_directory, name_required, version_required,
}

abbrev pub metadata_file : String
metadata_file = "ruleset.json"

-- defaultRaw
unfoldable pub raw_or : String → String → String
raw_or value fallback = if value == "" then fallback else value

-- The ends of the names of rule files.
unfoldable pub is_rule_name : String → Bool
unfolding has_suffix
is_rule_name rel = has_suffix rel ".conf" || has_suffix rel ".data" || has_suffix rel ".txt"

-- What a visit adds to the files: an error, nothing, or the relative path of a rule file.
module _ (platform : Platform) (dir : String) where
  abbrev pub rule_file : String → Option String
  rule_file path =
      let rel = platform.to_slash path in
      if rel == metadata_file || not (is_rule_name rel) then none else some rel

  abbrev pub visited : Option ScanError → Visit → Result ScanError (Option String)
  visited (some e) v = err e
  visited none v =
      if v.is_dir then ok none else (platform.rel dir v.path >>= λ path. ok (rule_file path))

  unfoldable pub file_of : Visit → Result ScanError (Option String)
  file_of v = visited v.failed v

abbrev pub add_file : Option String → List String → List String
add_file none files = files
add_file (some f) files = f ∷ files

-- The walk, in the order of its visits, up to the first error.
unfoldable pub collect : Platform → String → List Visit → Result ScanError (List String)
unfolding file_of
collect platform dir [] = ok []
collect platform dir (v ∷ vs) = do
  file ← file_of platform dir v
  files ← collect platform dir vs
  ok (add_file file files)

module _ (platform : Platform) where
  -- The directories among the entries.
  unfoldable pub directories : String → List DirEntry → List String
  directories root [] = []
  directories root (e ∷ es) =
      let rest = directories root es in if e.is_dir then platform.join root e.name ∷ rest else rest

module _ (go : Go) where
  -- readMetadata, behind the decoder
  unfoldable pub checked_metadata : Metadata → Result ScanError Metadata
  unfolding trim_space
  checked_metadata raw = do
    let name = trim_space go raw.name
    let provider = trim_space go raw.provider
    let source = trim_space go raw.source
    let version = trim_space go raw.version
    refuse (name == "") name_required
    refuse (version == "") version_required
    ok (record raw {
      name = name;
      provider = if provider == "" then "local" else provider;
      source = if source == "" then "local" else source;
      version = version;
    })

module _ (go : Go) (platform : Platform) (fs : FileSystem) where
  -- What is written to the hash: for each file its path and its content, each with a zero byte.
  unfoldable pub hash_input : String → List String → Result ScanError String
  hash_input dir [] = ok ""
  hash_input dir (rel ∷ files) = do
    content ← fs.read_file (platform.join dir (platform.from_slash rel))
    rest ← hash_input dir files
    ok (concat (rel ∷ "\0" ∷ content ∷ "\0" ∷ rest ∷ []))

  unfoldable pub checksum_directory : String → Result ScanError (List String × String)
  unfolding collect sort hash_input
  checksum_directory dir = do
    found ← collect platform dir (fs.walk_dir dir)
    let files = sort text_before found
    content ← hash_input dir files
    ok (files, go.sha256_hex content)

  unfoldable pub read_metadata : String → Result ScanError Metadata
  unfolding checked_metadata
  read_metadata dir = do
    text ← fs.read_file (platform.join dir metadata_file)
    raw ← platform.decode_metadata text
    checked_metadata go raw

  -- With the time at which the snapshot is taken.
  unfoldable pub scan_rule_set : String → String → Result ScanError RuleSet
  unfolding read_metadata checksum_directory raw_or concat
  scan_rule_set now dir = do
    metadata ← read_metadata dir
    summed ← checksum_directory dir
    snapshot ← platform.encode_snapshot summed.0 now
    ok (record {
      name = metadata.name;
      provider = metadata.provider;
      source = metadata.source;
      description = metadata.description;
      local_path = dir;
      enabled = metadata.enabled;
      metadata = raw_or metadata.extra "{}";
      version = record {
        version = metadata.version;
        source_uri = concat ("local://" ∷ platform.to_slash dir ∷ []);
        local_path = dir;
        checksum_sha256 = summed.1;
        ruleset_snapshot = snapshot;
      };
    })

  -- The root itself if it has the metadata, and else the directories in it.
  unfoldable pub rule_directories : String → Result ScanError (List String)
  unfolding directories
  rule_directories root =
      if is_ok (fs.stat (platform.join root metadata_file))
      then ok (root ∷ [])
      else (fs.read_dir root >>= λ entries. ok (directories platform root entries))

  -- The loop over the directories: reading i of the clock is what time.Now gives the set i.
  unfoldable pub scan_all : (ℕ → String) → ℕ → List String → Result ScanError (List RuleSet)
  unfolding scan_rule_set
  scan_all clock i [] = ok []
  scan_all clock i (dir ∷ dirs) = do
    set ← scan_rule_set (clock i) dir
    sets ← scan_all clock (suc i) dirs
    ok (set ∷ sets)

  unfoldable pub scan_local_directory : (ℕ → String) → String → Result ScanError (List RuleSet)
  unfolding rule_directories sort scan_all trim_space
  scan_local_directory clock raw = do
    let root = trim_space go raw
    refuse (root == "") directory_required
    is_dir ← fs.stat root
    refuse (not is_dir) not_a_directory
    dirs ← rule_directories root
    scan_all clock 0 (sort text_before dirs)

  -- The loop over the sets, with a recorder on a state of its own; none stands for a nil error.
  module _ {R : Type 0} (record_set : R → RuleSet → Option ScanError × R) where
    abbrev pub recorded_then :
        Option ScanError × R → (R → Option ScanError × R) → Option ScanError × R
    recorded_then (none, s) next = next s
    recorded_then (some e, s) next = (some e, s)

    unfoldable pub record_all : R → List RuleSet → Option ScanError × R
    record_all s [] = (none, s)
    record_all s (set ∷ sets) = recorded_then (record_set s set) (λ s. record_all s sets)

    abbrev pub answer_of : List RuleSet → Option ScanError × R → Result ScanError (List RuleSet) × R
    answer_of sets (none, s) = (ok sets, s)
    answer_of sets (some e, s) = (err e, s)

    abbrev pub recorded : R → Result ScanError (List RuleSet) → Result ScanError (List RuleSet) × R
    recorded s (err e) = (err e, s)
    recorded s (ok sets) = answer_of sets (record_all s sets)

    unfoldable pub scan_and_record : (ℕ → String) → R → String → Result ScanError (List RuleSet) × R
    unfolding record_all scan_local_directory
    scan_and_record clock s root = recorded s (scan_local_directory clock root)
