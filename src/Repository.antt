-- ===== src/Repository.antt =====
-- apexd/apex_file_repository.{h,cpp}: the stores of pre-installed and data APEXes.
pub mod Queries
pub mod Scan
pub mod Data
pub mod Block
pub mod Trust
pub mod Keyed
pub mod Grouping
pub mod Highest
use system_apex.Base.{ℕ, String, Bool, true, Option, none, List, [], ◌∷◌, Dict, ℤ, Result}
use system_apex.ApexFile.{ApexFile}

pub record BlockApexOverride : Type 0 where
  pub block_apex_root_digest : Option String
  pub last_update_seconds : Option ℤ

-- The unordered maps are association lists; the set of public keys of a name is a list.
pub record ApexFileRepository : Type 0 where
  pub pre_installed_store : Dict ApexFile
  pub data_store : Dict ApexFile
  pub multi_install_public_keys : Dict (List String)
  pub multi_install_select_prop_prefixes : List String
  pub enforce_multi_install_partition : Bool
  pub ignore_duplicate_apex_definitions : Bool
  pub decompression_dir : String
  pub block_disk_path : Option String
  pub block_apex_overrides : Dict BlockApexOverride

-- What the repository reads of the device, none of which it changes: system properties, the file
-- system, and packages through `ApexFile::Open`.
pub record Device : Type 0 where
  -- `GetProperty` of a name and a default
  pub get_property : String → String → String
  -- `access(dir, F_OK) != 0 && errno == ENOENT`
  pub no_entry : String → Bool
  pub find_files_by_suffix : String → List String → Result (List String)
  pub open_apex : String → Result ApexFile
  pub realpath : String → Option String

-- `Reset`.
unfoldable pub reset : ApexFileRepository → String → ApexFileRepository
reset r dir = record r {
  pre_installed_store = [];
  data_store = [];
  block_apex_overrides = [];
  decompression_dir = dir;
  block_disk_path = none;
}
