-- ===== src/Repository/Block.antt =====
-- `AddBlockApex`: the APEXes of a VM, each on a partition of a disk.
use Prim.Native.String.{◌++◌ as append}
use system_apex.Base.{
  ℕ, suc, ◌+◌, ℤ, pos, String, Bool, not, ◌||◌, Option, none, some, List, [], ◌∷◌, find, emplace,
  Result, ok, error, abort, is_some, ◌==◌, if◌then◌else◌, int_eq, guard, ◌>>◌,
}
use system_apex.Text.{consume_suffix, to_text}
use system_apex.ApexFile.{ApexFile}
use system_apex.Repository.{ApexFileRepository, BlockApexOverride, Device}

-- An entry of the metadata of the VM payload.
pub record ApexConfig : Type 0 where
  pub public_key : String
  pub root_digest : String
  pub last_update_seconds : ℤ
  pub is_factory : Bool
  pub manifest_name : String
  pub manifest_version : ℤ

pub record BlockDevices : Type 0 where
  -- `WaitForFile`, with its timeout
  pub wait_for_file : String → Bool
  pub path_exists : String → Bool
  -- `ReadMetadata` of the microdroid library
  pub read_metadata : String → Option (List ApexConfig)
  pub bytes_to_hex : String → String

abbrev pub first_apex_partition : ℕ
first_apex_partition = 2

-- What the metadata say must agree with the package, where they say something.
unfoldable pub check_config : ApexConfig → String → ApexFile → Result (Unit {0})
check_config c apex_path apex = do
  guard (c.public_key == "" || c.public_key == apex.apex_pubkey)
      (append "public key doesn't match: " apex_path)
  guard (c.manifest_name == "" || c.manifest_name == apex.name)
      (append "manifest name doesn't match: " apex_path)
  guard (int_eq c.manifest_version (pos 0) || int_eq c.manifest_version apex.version)
      (append "manifest version doesn't match: " apex_path)

unfoldable pub overrides_of : BlockDevices → ApexConfig → BlockApexOverride
overrides_of b c = record {
  block_apex_root_digest =
      if c.root_digest == "" then none else some (b.bytes_to_hex c.root_digest);
  last_update_seconds =
      if int_eq c.last_update_seconds (pos 0) then none else some c.last_update_seconds;
}

unfoldable pub add_overrides : ApexFileRepository → String → BlockApexOverride → ApexFileRepository
add_overrides r path o =
    if is_some o.last_update_seconds || is_some o.block_apex_root_digest
    then record r { block_apex_overrides = emplace r.block_apex_overrides path o }
    else r

-- Into the pre-installed store, or into the data store; each store holds a name once.
unfoldable pub add_to_store : ApexFileRepository → Bool → ApexFile → Result ApexFileRepository
add_to_store r is_factory apex =
    let store = if is_factory then r.pre_installed_store else r.data_store in
    elim (find store apex.name) [
      | some it ↦
          error (append "duplicate of " (append apex.name (append " found in " it.apex_path)))
      | none ↦
          let store' = emplace store apex.name apex in
          ok (
            if is_factory
            then record r { pre_installed_store = store' }
            else record r { data_store = store' })
    ]

-- The body of the loop, for the APEX of index `i`. Overrides are there also if the name is a duplicate.
unfoldable pub add_block_apex_of :
    Device
    → BlockDevices
    → ApexFileRepository
    → String
    → ℕ
    → ApexConfig
    → Result (Unit {0}) × ApexFileRepository
add_block_apex_of d b r disk i c =
    let apex_path = append disk (to_text (i + first_apex_partition)) in
    if not (b.wait_for_file apex_path)
    then (error "Error waiting for apex file : ", r)
    else elim (d.open_apex apex_path) [
      | error e ↦ (error (append "Failed to open " (append apex_path (append " : " e))), r)
      | abort ↦ (abort, r)
      | ok apex ↦ elim (check_config c apex_path apex) [
        | error e ↦ (error e, r)
        | abort ↦ (abort, r)
        | ok _ ↦
            let r' = add_overrides r apex_path (overrides_of b c) in
            elim (add_to_store r' c.is_factory apex) [
              | error e ↦ (error e, r')
              | abort ↦ (abort, r')
              | ok r'' ↦ (ok tt, r'')
            ]
      ]
    ]

unfoldable pub add_block_apexes :
    Device
    → BlockDevices
    → ApexFileRepository
    → String
    → ℕ
    → List ApexConfig
    → Result ℕ × ApexFileRepository
add_block_apexes d b r disk i [] = (ok i, r)
add_block_apexes d b r disk i (c ∷ rest) =
    let (result, r') = add_block_apex_of d b r disk i c in
    elim result [
      | ok _ ↦ add_block_apexes d b r' disk (suc i) rest
      | error e ↦ (error e, r')
      | abort ↦ (abort, r')
    ]

-- The path of the metadata, which microdroid_manager may override.
unfoldable pub metadata_source : BlockDevices → String → String
metadata_source b real =
    if b.path_exists "/apex/vm-payload-metadata" then "/apex/vm-payload-metadata" else real

-- The number of APEXes that were added.
unfoldable pub add_block_apex :
    Device → BlockDevices → ApexFileRepository → String → Result ℕ × ApexFileRepository
add_block_apex d b r metadata_partition =
    if is_some r.block_disk_path
    then (abort, r)
    else if not (b.wait_for_file metadata_partition) || d.no_entry metadata_partition
    then (ok 0, r)
    else elim (d.realpath metadata_partition) [
      | none ↦ (ok 0, r)
      | some real ↦
          let (disk, first) = consume_suffix real "1" in
          let r' = record r { block_disk_path = some disk } in
          if not first then (ok 0, r) else elim (b.read_metadata (metadata_source b real)) [
            | none ↦ (ok 0, r')
            | some configs ↦ add_block_apexes d b r' disk 0 configs
          ]
    ]
