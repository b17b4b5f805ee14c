-- ===== src/Repository/Data.antt =====
-- `AddDataApex`.
use system_apex.Base.{
  String, Bool, false, not, ◌&&◌, none, some, List, [], ◌∷◌, find, assign, emplace, Result, ok,
  error, abort, ◌==◌, if◌then◌else◌, ltb_ℤ,
}
use system_apex.Text.{ends_with}
use system_apex.ApexFile.{ApexFile}
use system_apex.Repository.{ApexFileRepository, Device}
use system_apex.Repository.Queries.{has_pre_installed_version, get_public_key}

-- A data APEX is taken only with the key of the pre-installed one, and not from a decompressed file.
unfoldable pub acceptable : ApexFileRepository → ApexFile → Bool
acceptable r apex =
    has_pre_installed_version r apex.name
    && elim (get_public_key r apex.name) [ ok key ↦ apex.apex_pubkey == key | _ ↦ false ]
    && not (ends_with apex.apex_path ".decompressed.apex")

-- Among several of one name the highest version stays, and of equal versions the first.
unfoldable pub store_data_apex : ApexFileRepository → ApexFile → ApexFileRepository
store_data_apex r apex = elim (find r.data_store apex.name) [
  | none ↦ record r { data_store = emplace r.data_store apex.name apex }
  | some existing ↦
      if ltb_ℤ existing.version apex.version
      then record r { data_store = assign r.data_store apex.name apex }
      else r
]

-- The body of the loop. A file that does not open is skipped.
unfoldable pub add_data_file : Device → ApexFileRepository → String → ApexFileRepository
add_data_file d r file = elim (d.open_apex file) [
  | ok apex ↦ if acceptable r apex then store_data_apex r apex else r
  | _ ↦ r
]

unfoldable pub add_data_files : Device → ApexFileRepository → List String → ApexFileRepository
add_data_files d r [] = r
add_data_files d r (file ∷ rest) = add_data_files d (add_data_file d r file) rest

unfoldable pub add_data_apex :
    Device → ApexFileRepository → String → Result (Unit {0}) × ApexFileRepository
add_data_apex d r data_dir =
    if d.no_entry data_dir
    then (ok tt, r)
    else elim (d.find_files_by_suffix data_dir (".apex" ∷ [])) [
      | error e ↦ (error e, r)
      | abort ↦ (abort, r)
      | ok files ↦ (ok tt, add_data_files d r files)
    ]
