-- ===== src/Examples.antt =====
-- Concrete packages, devices and daemons at which the theorems apply.
mod Packages
mod Stores
mod Mounted
mod Sessions
mod Daemons
mod Staging
mod Interrupted
mod Submission
mod Mounting
mod Installation
mod Boot
mod Starting
use Prim.Native.String.{◌++◌ as append}
use system_apex.Base.{
  ℕ, String, true, false, Option, none, some, List, [], ◌∷◌, ℤ, pos, Result, ok, error, ◌==◌,
  if◌then◌else◌,
}
use system_apex.ApexFile.{ApexManifest, ApexFile}
use system_apex.Repository.{ApexFileRepository, Device}

abbrev pub manifest_of : String → ℤ → ApexManifest
manifest_of n v = record {
  name = n;
  version = v;
  version_name = "";
  provide_native_libs = [];
  require_shared_apex_libs = [];
  jni_libs = [];
  provide_shared_apex_libs = false;
  original_apex_digest = "d1";
  supports_rebootless_update = false;
  vndk_version = "";
  no_code = false;
  vendor_bootstrap = false;
}

abbrev pub apex_at : String → String → ℤ → ApexFile
apex_at path n v = record {
  apex_path = path;
  image_offset = some 4096;
  image_size = some 8192;
  manifest = manifest_of n v;
  apex_pubkey = "key";
  fs_type = some "ext4";
  is_compressed = false;
}

abbrev pub system_tz : ApexFile
system_tz = apex_at "/system/apex/tz.apex" "tz" (pos 1)

abbrev pub data_tz : ApexFile
data_tz = apex_at "/data/apex/active/tz@2.apex" "tz" (pos 2)

abbrev pub newer_tz : ApexFile
newer_tz = apex_at "/system/apex/tz.capex" "tz" (pos 3)

abbrev pub no_apexes : ApexFileRepository
no_apexes = record {
  pre_installed_store = [];
  data_store = [];
  multi_install_public_keys = [];
  multi_install_select_prop_prefixes = [];
  enforce_multi_install_partition = false;
  ignore_duplicate_apex_definitions = false;
  decompression_dir = "/data/apex/decompressed";
  block_disk_path = none;
  block_apex_overrides = [];
}

abbrev pub factory_repo : ApexFileRepository
factory_repo = record no_apexes { pre_installed_store = ("tz", system_tz) ∷ [] }

abbrev pub repo : ApexFileRepository
repo = record factory_repo { data_store = ("tz", data_tz) ∷ [] }

-- After the next update of the system.
abbrev pub updated_repo : ApexFileRepository
updated_repo = record repo { pre_installed_store = ("tz", newer_tz) ∷ [] }

abbrev pub found_apex : String → Result ApexFile
found_apex path =
    if path == "/data/apex/active/tz@2.apex"
    then ok data_tz
    else if path == "/system/apex/tz.apex"
    then ok system_tz
    else error "Failed to open package"

abbrev pub device : Device
device = record {
  get_property = λ name default. default;
  no_entry = λ dir. false;
  find_files_by_suffix = λ dir suffixes. ok ("/data/apex/active/tz@2.apex" ∷ []);
  open_apex = found_apex;
  realpath = λ path. some path;
}
