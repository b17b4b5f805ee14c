-- ===== src/Repository/Highest.antt =====
-- Of the data APEXes of one name `AddDataApex` keeps one of the highest version.
use system_apex.Base.{
  String, ◌≡◌, refl, true, false, Option, none, some, List, [], ◌∷◌, find, find-assign,
  find-emplace, eq_iff, ok, arith, ◌≤ℤ◌, inl, inr, Option-cases, Result-cases, ℤ, Member, ◌⊎◌,
}
use system_apex.ApexFile.{ApexFile}
use system_apex.Repository.{ApexFileRepository, Device}
use system_apex.Repository.Queries.{has_pre_installed_version, get_public_key}
use system_apex.Repository.Data.{
  acceptable, store_data_apex, add_data_file, add_data_files, add_data_apex,
}

-- Something of at least that version is there.
abbrev pub AtLeast : Option ApexFile → ℤ → Type 0
AtLeast none v = ⊥
AtLeast (some b) v = v ≤ℤ b.version

store_data_apex-AtLeast :
    (r : ApexFileRepository) (a : ApexFile)
    → AtLeast (find (store_data_apex r a).data_store a.name) a.version
unfolding store_data_apex
store_data_apex-AtLeast r a = ground (
  arith,
  find-emplace r.data_store a.name a.name a,
  find-assign r.data_store a.name a.name a,
  eq_iff a.name a.name,
)

store_data_apex_mono :
    (r : ApexFileRepository) (a : ApexFile) (name : String) (v : ℤ)
    → AtLeast (find r.data_store name) v
    → AtLeast (find (store_data_apex r a).data_store name) v
unfolding store_data_apex
store_data_apex_mono r a name v h = ground (
  arith,
  find-emplace r.data_store a.name name a,
  find-assign r.data_store a.name name a,
  eq_iff a.name name,
)

add_data_file_mono :
    (d : Device) (r : ApexFileRepository) (file : String) (name : String) (v : ℤ)
    → AtLeast (find r.data_store name) v
    → AtLeast (find (add_data_file d r file).data_store name) v
unfolding add_data_file
add_data_file_mono d r file name v h = grind (arith, store_data_apex_mono)

pre_installed-add_data_file :
    (d : Device) (r : ApexFileRepository) (file : String)
    → (add_data_file d r file).pre_installed_store ≡ r.pre_installed_store
unfolding add_data_file store_data_apex
pre_installed-add_data_file d r file = ground arith

-- Acceptance looks only at the pre-installed store, which the loop leaves alone.
acceptable-add_data_file :
    (d : Device) (r : ApexFileRepository) (file : String) (a : ApexFile)
    → acceptable r a ≡ true
    → acceptable (add_data_file d r file) a ≡ true
unfolding acceptable has_pre_installed_version get_public_key
acceptable-add_data_file d r file a h = elim (Option-cases (find r.pre_installed_store a.name)) [
  | inl missing ↦ absurd (ground arith)
  | inr (it, found) ↦ ground (arith, pre_installed-add_data_file d r file)
]

add_data_files_mono :
    (d : Device) (r : ApexFileRepository) (files : List String) (name : String) (v : ℤ)
    → AtLeast (find r.data_store name) v
    → AtLeast (find (add_data_files d r files).data_store name) v
unfolding add_data_files
add_data_files_mono d r [] name v h = h
add_data_files_mono d r (file ∷ rest) name v h =
    add_data_files_mono d (add_data_file d r file) rest name v
      (add_data_file_mono d r file name v h)

add_data_file-AtLeast :
    (d : Device) (r : ApexFileRepository) (file : String) (a : ApexFile)
    → d.open_apex file ≡ ok a
    → acceptable r a ≡ true
    → AtLeast (find (add_data_file d r file).data_store a.name) a.version
unfolding add_data_file
add_data_file-AtLeast d r file a opened good =
    rw (opened, good, add_data_file) (store_data_apex-AtLeast r a)

-- Every acceptable file of the scan is matched by a stored APEX of its name and of at least its
-- version, whatever the order of the files.
pub add_data_files-highest :
    (d : Device) (r : ApexFileRepository) (files : List String) (file : String) (a : ApexFile)
    → Member file files
    → d.open_apex file ≡ ok a
    → acceptable r a ≡ true
    → AtLeast (find (add_data_files d r files).data_store a.name) a.version
unfolding add_data_files
add_data_files-highest d r [] file a m opened good = absurd m
add_data_files-highest d r (f ∷ rest) file a (inl here) opened good =
    add_data_files_mono d (add_data_file d r f) rest a.name a.version
      (add_data_file-AtLeast d r f a (rw (← here) opened) good)
add_data_files-highest d r (f ∷ rest) file a (inr later) opened good =
    add_data_files-highest d (add_data_file d r f) rest file a later opened
      (acceptable-add_data_file d r f a good)

-- `AddDataApex` on a directory that exists and can be listed: every acceptable file of the
-- directory that opens is matched by a stored APEX of its name and of at least its version.
pub add_data_apex-highest :
    (d : Device) (r : ApexFileRepository) (dir : String) (files : List String) (file : String)
    (a : ApexFile)
    → d.no_entry dir ≡ false
    → d.find_files_by_suffix dir (".apex" ∷ []) ≡ ok files
    → Member file files
    → d.open_apex file ≡ ok a
    → acceptable r a ≡ true
    → AtLeast (find (add_data_apex d r dir).1.data_store a.name) a.version
unfolding add_data_apex
add_data_apex-highest d r dir files file a there listed m opened good =
    rw (there, listed, add_data_apex) (add_data_files-highest d r files file a m opened good)

-- Where a stored data APEX comes from: it was stored before, or is an acceptable file of the scan.
abbrev pub Origin : Device → ApexFileRepository → List String → String → ApexFile → Type 0
Origin d r files name b =
    (find r.data_store name ≡ some b)
    ⊎ ((file : String) × Member file files
        × (d.open_apex file ≡ ok b)
        × (acceptable r b ≡ true)
        × (b.name ≡ name))

add_data_file-Origin :
    (d : Device) (r : ApexFileRepository) (file : String) (name : String) (b : ApexFile)
    → find (add_data_file d r file).data_store name ≡ some b
    → (find r.data_store name ≡ some b)
      ⊎ ((d.open_apex file ≡ ok b) × (acceptable r b ≡ true) × (b.name ≡ name))
unfolding add_data_file store_data_apex
add_data_file-Origin d r file name b h = elim (Result-cases (d.open_apex file)) [
  | inr failed ↦ inl (ground arith)
  | inl (a, opened) ↦ ground (
    arith,
    find-emplace r.data_store a.name name a,
    find-assign r.data_store a.name name a,
    eq_iff a.name name,
  )
]

-- Acceptance after a step says the same as before it.
acceptable-before :
    (d : Device) (r : ApexFileRepository) (file : String) (a : ApexFile)
    → acceptable (add_data_file d r file) a ≡ true
    → acceptable r a ≡ true
unfolding acceptable has_pre_installed_version get_public_key
acceptable-before d r file a h = elim (Option-cases (find r.pre_installed_store a.name)) [
  | inl missing ↦ absurd (ground (arith, pre_installed-add_data_file d r file))
  | inr (it, found) ↦ ground (arith, pre_installed-add_data_file d r file)
]

-- Nothing is stored but what was stored before and the acceptable files of the scan, each under
-- its own name.
pub add_data_files-Origin :
    (d : Device) (r : ApexFileRepository) (files : List String) (name : String) (b : ApexFile)
    → find (add_data_files d r files).data_store name ≡ some b
    → Origin d r files name b
unfolding add_data_files
add_data_files-Origin d r [] name b h = inl h
add_data_files-Origin d r (file ∷ rest) name b h =
    elim (add_data_files-Origin d (add_data_file d r file) rest name b h) [
      | inl before ↦ elim (add_data_file-Origin d r file name b before) [
        | inl old ↦ inl old
        | inr (opened, good, named) ↦ inr (file, inl refl, opened, good, named)
      ]
      | inr (f, m, opened, good, named) ↦
          inr (f, inr m, opened, acceptable-before d r file b good, named)
    ]
