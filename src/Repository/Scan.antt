-- ===== src/Repository/Scan.antt =====
-- `ScanBuiltInDir` and `AddPreInstalledApex`.
use Prim.Native.String.{◌++◌ as append}
use text.Mathlib.Text.{starts_with}
use system_apex.Base.{
  String, Bool, not, ◌&&◌, ◌||◌, Option, none, some, List, [], ◌∷◌, find, assign, emplace, erase,
  Result, ok, error, abort, ◌==◌, if◌then◌else◌, contains, length, ltb,
}
use system_apex.Text.{consume_suffix, filename}
use system_apex.ApexFile.{ApexFile}
use system_apex.Repository.{ApexFileRepository, Device}

-- `ConsumeApexPackageSuffix`: first ".apex", and of what is left ".capex".
unfoldable pub consume_apex_package_suffix : String → String
consume_apex_package_suffix path = (consume_suffix (consume_suffix path ".apex").0 ".capex").0

-- `GetApexSelectFilenameFromProp`: the first property that is set.
unfoldable pub get_apex_select_filename_from_prop : Device → List String → String → String
get_apex_select_filename_from_prop d [] apex_name = ""
get_apex_select_filename_from_prop d (prefix ∷ rest) apex_name =
    let later = get_apex_select_filename_from_prop d rest apex_name in
    let file = d.get_property (append prefix apex_name) "" in
    if file == "" then later else consume_apex_package_suffix file

-- `insert` into a set.
unfoldable pub insert_key : String → List String → List String
insert_key key keys = if contains keys key then keys else key ∷ keys

abbrev pub keys_of : Option (List String) → List String
keys_of none = []
keys_of (some keys) = keys

-- A multi-install APEX, of which the property selects a file name.
unfoldable pub scan_multi_install :
    Device → ApexFileRepository → ApexFile → String → ApexFileRepository
scan_multi_install d r apex select_filename = elim (d.realpath apex.apex_path) [
  | none ↦ r
  | some path ↦
      if r.enforce_multi_install_partition && not (starts_with path "/vendor/apex/")
      then r
      else let keys =
          insert_key apex.apex_pubkey (keys_of (find r.multi_install_public_keys apex.name)) in
        let r' = record r {
          multi_install_public_keys = assign r.multi_install_public_keys apex.name keys;
        } in
        if ltb 1 (length keys)
        then record r' { pre_installed_store = erase r.pre_installed_store apex.name }
        else if consume_apex_package_suffix (filename path) == select_filename
        then record r' { pre_installed_store = emplace r.pre_installed_store apex.name apex }
        else r'
]

-- Two packages of one name end the process, but where duplicates are allowed or for a VNDK APEX on a
-- development build.
unfoldable pub tolerates_duplicate : Device → ApexFileRepository → String → Bool
tolerates_duplicate d r name =
    r.ignore_duplicate_apex_definitions
    || (starts_with name "com.android.vndk."
        && not (d.get_property "ro.build.version.codename" "REL" == "REL"))

unfoldable pub scan_single_install :
    Device → ApexFileRepository → ApexFile → Result ApexFileRepository
scan_single_install d r apex = elim (find r.pre_installed_store apex.name) [
  | none ↦ ok (record r { pre_installed_store = emplace r.pre_installed_store apex.name apex })
  | some it ↦
      if not (it.apex_path == apex.apex_path)
      then (if tolerates_duplicate d r apex.name then ok r else abort)
      else if not (it.apex_pubkey == apex.apex_pubkey)
      then abort
      else ok r
]

-- The body of the loop over the files, after the file was opened.
unfoldable pub scan_apex : Device → ApexFileRepository → ApexFile → Result ApexFileRepository
scan_apex d r apex =
    let select_filename =
      get_apex_select_filename_from_prop d r.multi_install_select_prop_prefixes apex.name in
    if select_filename == ""
    then scan_single_install d r apex
    else ok (scan_multi_install d r apex select_filename)

-- The loop. A file that does not open ends it with an error, and keeps what was found before it.
unfoldable pub scan_files :
    Device → ApexFileRepository → List String → Result (Unit {0}) × ApexFileRepository
scan_files d r [] = (ok tt, record r { multi_install_public_keys = [] })
scan_files d r (file ∷ rest) = elim (d.open_apex file) [
  | error e ↦ (error (append "Failed to open " (append file (append " : " e))), r)
  | abort ↦ (abort, r)
  | ok apex ↦ elim (scan_apex d r apex) [
    | ok r' ↦ scan_files d r' rest
    | error e ↦ (error e, r)
    | abort ↦ (abort, r)
  ]
]

unfoldable pub scan_built_in_dir :
    Device → ApexFileRepository → String → Result (Unit {0}) × ApexFileRepository
scan_built_in_dir d r dir =
    if d.no_entry dir
    then (ok tt, r)
    else elim (d.find_files_by_suffix dir (".apex" ∷ ".capex" ∷ [])) [
      | error e ↦ (error e, r)
      | abort ↦ (abort, r)
      | ok files ↦ scan_files d r files
    ]

unfoldable pub add_pre_installed_apex :
    Device → ApexFileRepository → List String → Result (Unit {0}) × ApexFileRepository
add_pre_installed_apex d r [] = (ok tt, r)
add_pre_installed_apex d r (dir ∷ rest) =
    let (result, r') = scan_built_in_dir d r dir in
    elim result [
      | ok _ ↦ add_pre_installed_apex d r' rest
      | error e ↦ (error e, r')
      | abort ↦ (abort, r')
    ]
