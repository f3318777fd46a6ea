-- ===== src/Worker.antt =====
-- services/worker/internal/rules/rules.go: the types. The file system is an interface: what it is
-- asked, with its own errors.
pub mod Rules
use bedem_waf.Common.{String, Bool, Option, List}
use bedem_waf.Common.Result.{Result}

-- The errors of the scan, and those of the file system, of path/filepath and of encoding/json with
-- their texts.
pub data ScanError : Type 0 where
  directory_required not_a_directory name_required version_required : ScanError
  io_failed : String → ScanError

-- Raw JSON texts are the empty text where they are missing.
pub record Metadata : Type 0 where
  pub name : String
  pub provider : String
  pub source : String
  pub version : String
  pub description : String
  pub enabled : Bool
  pub extra : String

pub record ManagedVersion : Type 0 where
  pub version : String
  pub source_uri : String
  pub local_path : String
  pub checksum_sha256 : String
  pub ruleset_snapshot : String

pub record RuleSet : Type 0 where
  pub name : String
  pub provider : String
  pub source : String
  pub description : String
  pub local_path : String
  pub enabled : Bool
  pub metadata : String
  pub version : ManagedVersion

pub record DirEntry : Type 0 where
  pub name : String
  pub is_dir : Bool

-- A call of the function that WalkDir gets: the path, the entry and the error.
pub record Visit : Type 0 where
  pub path : String
  pub is_dir : Bool
  pub failed : Option ScanError

pub record FileSystem : Type 0 where
  -- os.Stat: whether it is a directory
  pub stat : String → Result ScanError Bool
  pub read_dir : String → Result ScanError (List DirEntry)
  -- os.ReadFile, and os.Open with io.Copy and Close
  pub read_file : String → Result ScanError String
  -- filepath.WalkDir: the calls of its function, for as long as that returns nil
  pub walk_dir : String → List Visit

-- path/filepath and encoding/json
pub record Platform : Type 0 where
  pub join : String → String → String
  pub rel : String → String → Result ScanError String
  pub to_slash : String → String
  pub from_slash : String → String
  pub decode_metadata : String → Result ScanError Metadata
  -- the files and the time
  pub encode_snapshot : List String → String → Result ScanError String
