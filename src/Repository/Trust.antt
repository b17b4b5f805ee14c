-- ===== src/Repository/Trust.antt =====
-- Which data APEXes `AddDataApex` lets into the repository.
use system_apex.Base.{
  String, ◌≡◌, refl, true, false, Option, none, some, List, [], ◌∷◌, find, find-assign,
  find-emplace, eq_iff, Result, ok, error, abort, arith, Bool-cases, inl, inr, Option-cases,
  Result-cases, ◌⊎◌,
}
use system_apex.Text.{ends_with}
use system_apex.ApexFile.{ApexFile}
use system_apex.Repository.{ApexFileRepository, Device}
use system_apex.Repository.Queries.{has_pre_installed_version, get_public_key}
use system_apex.Repository.Data.{
  acceptable, store_data_apex, add_data_file, add_data_files, add_data_apex,
}

abbrev pub key_of : Option ApexFile → Option String
key_of none = none
key_of (some a) = some a.apex_pubkey

-- A data APEX that is known by its own name, bundles the public key of the pre-installed APEX of
-- that name, and is not a decompressed file.
pub record Trusted (r : ApexFileRepository) (name : String) (a : ApexFile) : Type 0 where
  pub named : a.name ≡ name
  pub keyed : key_of (find r.pre_installed_store name) ≡ some a.apex_pubkey
  pub plain : ends_with a.apex_path ".decompressed.apex" ≡ false

pub record AllTrusted (r : ApexFileRepository) : Type 0 where
  pub at : (name : String) (a : ApexFile) → find r.data_store name ≡ some a → Trusted r name a

acceptable-Trusted :
    (r : ApexFileRepository) (a : ApexFile) → acceptable r a ≡ true → Trusted r a.name a
unfolding acceptable has_pre_installed_version get_public_key
acceptable-Trusted r a h = elim (Option-cases (find r.pre_installed_store a.name)) [
  | inl missing ↦ absurd (ground arith)
  | inr (it, found) ↦ ground (arith, eq_iff a.apex_pubkey it.apex_pubkey)
]

store_data_apex-AllTrusted :
    (r : ApexFileRepository) (a : ApexFile)
    → Trusted r a.name a
    → AllTrusted r
    → AllTrusted (store_data_apex r a)
unfolding store_data_apex
store_data_apex-AllTrusted r a t all = record {
  at = λ name b h. ground (
    arith,
    find-emplace r.data_store a.name name a,
    find-assign r.data_store a.name name a,
    all.at name b,
    eq_iff a.name name,
  );
}

add_data_file-AllTrusted :
    (d : Device) (r : ApexFileRepository) (file : String)
    → AllTrusted r
    → AllTrusted (add_data_file d r file)
unfolding add_data_file
add_data_file-AllTrusted d r file all = by_open (d.open_apex file) refl
  where
    by_open : (o : Result ApexFile) → d.open_apex file ≡ o → AllTrusted (add_data_file d r file)
    by_open (error e) opened = rw (opened, add_data_file) all
    by_open abort opened = rw (opened, add_data_file) all
    by_open (ok a) opened = elim (Bool-cases (acceptable r a)) [
      | inl good ↦
          rw (opened, good, add_data_file)
            (store_data_apex-AllTrusted r a (acceptable-Trusted r a good) all)
      | inr bad ↦ rw (opened, bad, add_data_file) all
    ]

add_data_files-AllTrusted :
    (d : Device) (r : ApexFileRepository) (files : List String)
    → AllTrusted r
    → AllTrusted (add_data_files d r files)
unfolding add_data_files
add_data_files-AllTrusted d r [] all = all
add_data_files-AllTrusted d r (file ∷ rest) all =
    add_data_files-AllTrusted d (add_data_file d r file) rest
      (add_data_file-AllTrusted d r file all)

-- The scan either finds nothing to do, or adds the files that it lists.
pub add_data_apex-cases :
    (d : Device) (r : ApexFileRepository) (dir : String)
    → ((add_data_apex d r dir).1 ≡ r)
      ⊎ ((files : List String) × (d.find_files_by_suffix dir (".apex" ∷ []) ≡ ok files)
          × ((add_data_apex d r dir).1 ≡ add_data_files d r files))
unfolding add_data_apex
add_data_apex-cases d r dir = elim (Bool-cases (d.no_entry dir)) [
  | inl gone ↦ inl (rw (gone, add_data_apex))
  | inr there ↦ elim (Result-cases (d.find_files_by_suffix dir (".apex" ∷ []))) [
    | inl (files, found) ↦ inr (files, found, rw (there, found, add_data_apex))
    | inr failed ↦ inl (ground arith)
  ]
]

-- Whatever lies in the directory, and whether or not the scan succeeds, `AddDataApex` keeps every
-- stored data APEX known by its own name, with the bundled public key of the pre-installed APEX of
-- that name, and not a decompressed file, if all were so before. No signature is verified here.
pub add_data_apex-AllTrusted :
    (d : Device) (r : ApexFileRepository) (dir : String)
    → AllTrusted r
    → AllTrusted (add_data_apex d r dir).1
add_data_apex-AllTrusted d r dir all = elim (add_data_apex-cases d r dir) [
  | inl same ↦ rw same all
  | inr (files, _, added) ↦ rw added (add_data_files-AllTrusted d r files all)
]
