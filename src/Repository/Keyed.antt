-- ===== src/Repository/Keyed.antt =====
-- The stores map each name to a package of that name, and hold a name once.
use system_apex.Base.{
  String, ◌≡◌, refl, none, some, List, [], ◌∷◌, find, assign, emplace, erase, find-assign,
  find-emplace, find-erase, eq_iff, ok, arith, inl, inr, Result-cases, Dict,
}
use system_apex.ApexFile.{ApexFile}
use system_apex.Repository.{ApexFileRepository, Device}
use system_apex.Repository.Scan.{
  scan_apex, scan_single_install, scan_multi_install, scan_files, scan_built_in_dir,
  add_pre_installed_apex,
}
use system_apex.Repository.Data.{store_data_apex, add_data_file, add_data_files, add_data_apex}
use system_apex.Repository.Trust.{add_data_apex-cases}

abbrev pub Keyed : Dict ApexFile → Type 0
Keyed [] = Unit
Keyed ((k, v) ∷ m) = (v.name ≡ k) × (find m k ≡ none) × Keyed m

Keyed-emplace : (m : Dict ApexFile) (a : ApexFile) → Keyed m → Keyed (emplace m a.name a)
unfolding emplace find
Keyed-emplace [] a h = (refl, refl, tt)
Keyed-emplace ((k, v) ∷ m) a h =
    ground (arith, Keyed-emplace m a, find-emplace m a.name k a, eq_iff k a.name, eq_iff a.name k)

Keyed-assign : (m : Dict ApexFile) (a : ApexFile) → Keyed m → Keyed (assign m a.name a)
unfolding assign find
Keyed-assign [] a h = (refl, refl, tt)
Keyed-assign ((k, v) ∷ m) a h =
    ground (arith, Keyed-assign m a, find-assign m a.name k a, eq_iff k a.name, eq_iff a.name k)

Keyed-erase : (m : Dict ApexFile) (name : String) → Keyed m → Keyed (erase m name)
unfolding erase find
Keyed-erase [] name h = tt
Keyed-erase ((k, v) ∷ m) name h =
    ground (arith, Keyed-erase m name, find-erase m name k, eq_iff k name, eq_iff name k)

-- The package that is found at a name has that name.
pub Keyed-name :
    (m : Dict ApexFile) (name : String) (v : ApexFile)
    → Keyed m
    → find m name ≡ some v
    → v.name ≡ name
unfolding find
Keyed-name [] name v h e = absurd (ground arith)
Keyed-name ((k, w) ∷ m) name v h e = grind (arith, eq_iff k name, h.0, e, Keyed-name m name v h.2)

pub record StoresKeyed (r : ApexFileRepository) : Type 0 where
  pub pre : Keyed r.pre_installed_store
  pub data_apexes : Keyed r.data_store

store_data_apex-StoresKeyed :
    (r : ApexFileRepository) (a : ApexFile) → StoresKeyed r → StoresKeyed (store_data_apex r a)
unfolding store_data_apex
store_data_apex-StoresKeyed r a h =
    ground (arith, Keyed-emplace r.data_store a, Keyed-assign r.data_store a)

add_data_files-StoresKeyed :
    (d : Device) (r : ApexFileRepository) (files : List String)
    → StoresKeyed r
    → StoresKeyed (add_data_files d r files)
unfolding add_data_files add_data_file
add_data_files-StoresKeyed d r [] h = h
add_data_files-StoresKeyed d r (file ∷ rest) h =
    add_data_files-StoresKeyed d (add_data_file d r file) rest
      (grind (arith, store_data_apex-StoresKeyed))

scan_apex-StoresKeyed :
    (d : Device) (r r' : ApexFileRepository) (a : ApexFile)
    → scan_apex d r a ≡ ok r'
    → StoresKeyed r
    → StoresKeyed r'
unfolding scan_apex scan_single_install scan_multi_install
scan_apex-StoresKeyed d r r' a e h =
    ground (arith, Keyed-emplace r.pre_installed_store a, Keyed-erase r.pre_installed_store a.name)

scan_files-StoresKeyed :
    (d : Device) (r : ApexFileRepository) (files : List String)
    → StoresKeyed r
    → StoresKeyed (scan_files d r files).1
unfolding scan_files
scan_files-StoresKeyed d r [] h = record { pre = h.pre; data_apexes = h.data_apexes }
scan_files-StoresKeyed d r (file ∷ rest) h = elim (Result-cases (d.open_apex file)) [
  | inr failed ↦ ground arith
  | inl (a, opened) ↦ elim (Result-cases (scan_apex d r a)) [
    | inr failed ↦ ground arith
    | inl (r', scanned) ↦
        rw (opened, scanned, scan_files)
          (scan_files-StoresKeyed d r' rest (scan_apex-StoresKeyed d r r' a scanned h))
  ]
]

scan_built_in_dir-StoresKeyed :
    (d : Device) (r : ApexFileRepository) (dir : String)
    → StoresKeyed r
    → StoresKeyed (scan_built_in_dir d r dir).1
unfolding scan_built_in_dir
scan_built_in_dir-StoresKeyed d r dir h =
    elim (Result-cases (d.find_files_by_suffix dir (".apex" ∷ ".capex" ∷ []))) [
      | inr failed ↦ ground arith
      | inl (files, listed) ↦ ground (arith, scan_files-StoresKeyed d r files)
    ]

-- Scanning the pre-installed directories keeps each store a map from names to packages of that
-- name that holds a name once, also where the scan ends with an error.
pub add_pre_installed_apex-StoresKeyed :
    (d : Device) (r : ApexFileRepository) (dirs : List String)
    → StoresKeyed r
    → StoresKeyed (add_pre_installed_apex d r dirs).1
unfolding add_pre_installed_apex
add_pre_installed_apex-StoresKeyed d r [] h = h
add_pre_installed_apex-StoresKeyed d r (dir ∷ rest) h =
    elim (Result-cases (scan_built_in_dir d r dir).0) [
      | inr failed ↦ ground (arith, scan_built_in_dir-StoresKeyed d r dir)
      | inl (u, scanned) ↦
          rw (scanned, add_pre_installed_apex)
            (add_pre_installed_apex-StoresKeyed d (scan_built_in_dir d r dir).1 rest
              (scan_built_in_dir-StoresKeyed d r dir h))
    ]

-- Collecting the data APEXes keeps each store a map from names to packages of that name.
pub add_data_apex-StoresKeyed :
    (d : Device) (r : ApexFileRepository) (dir : String)
    → StoresKeyed r
    → StoresKeyed (add_data_apex d r dir).1
add_data_apex-StoresKeyed d r dir h = elim (add_data_apex-cases d r dir) [
  | inl same ↦ rw same h
  | inr (files, _, added) ↦ rw added (add_data_files-StoresKeyed d r files h)
]
