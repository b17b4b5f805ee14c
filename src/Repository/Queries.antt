-- ===== src/Repository/Queries.antt =====
-- The queries of `ApexFileRepository`.
use Prim.Native.String.{◌++◌ as append}
use text.Mathlib.Text.{starts_with}
use system_apex.Base.{
  ℤ, String, Bool, false, ◌||◌, Option, none, some, List, [], ◌∷◌, ◌++◌, Dict, find, assign, Result,
  ok, error, abort, is_some, ◌==◌, if◌then◌else◌,
}
use system_apex.ApexFile.{ApexFile}
use system_apex.Repository.{ApexFileRepository}

module _ (r : ApexFileRepository) where
  unfoldable pub has_pre_installed_version : String → Bool
  has_pre_installed_version name = is_some (find r.pre_installed_store name)

  unfoldable pub has_data_version : String → Bool
  has_data_version name = is_some (find r.data_store name)

  -- An APEX is considered decompressed if it lies in the decompression directory.
  unfoldable pub is_decompressed_apex : ApexFile → Bool
  is_decompressed_apex apex = starts_with apex.apex_path r.decompression_dir

  unfoldable pub is_pre_installed_apex : ApexFile → Bool
  is_pre_installed_apex apex = elim (find r.pre_installed_store apex.name) [
    | none ↦ false
    | some it ↦ it.apex_path == apex.apex_path || is_decompressed_apex apex
  ]

  unfoldable pub is_block_apex : ApexFile → Bool
  is_block_apex apex = elim r.block_disk_path [
    | none ↦ false
    | some disk ↦ starts_with apex.apex_path disk
  ]

  -- In a VM the key may come from the data store.
  unfoldable pub get_public_key : String → Result String
  get_public_key name = elim (find r.pre_installed_store name) [
    | some it ↦ ok it.apex_pubkey
    | none ↦ elim (find r.data_store name) [
      | some it ↦
          if is_block_apex it
          then ok it.apex_pubkey
          else error (append "No preinstalled apex found for package " name)
      | none ↦ error (append "No preinstalled apex found for package " name)
    ]
  ]

  unfoldable pub get_preinstalled_path : String → Result String
  get_preinstalled_path name = elim (find r.pre_installed_store name) [
    | some it ↦ ok it.apex_path
    | none ↦ error (append "No preinstalled data found for package " name)
  ]

  unfoldable pub get_data_path : String → Result String
  get_data_path name = elim (find r.data_store name) [
    | some it ↦ ok it.apex_path
    | none ↦ error (append "No data apex found for package " name)
  ]

  unfoldable pub get_block_apex_root_digest : String → Option String
  get_block_apex_root_digest path = elim (find r.block_apex_overrides path) [
    | none ↦ none
    | some o ↦ o.block_apex_root_digest
  ]

  unfoldable pub get_block_apex_last_update_seconds : String → Option ℤ
  get_block_apex_last_update_seconds path = elim (find r.block_apex_overrides path) [
    | none ↦ none
    | some o ↦ o.last_update_seconds
  ]

  -- These two CHECK that the name is there.
  unfoldable pub get_data_apex : String → Result ApexFile
  get_data_apex name = elim (find r.data_store name) [ none ↦ abort | some it ↦ ok it ]

  unfoldable pub get_pre_installed_apex : String → Result ApexFile
  get_pre_installed_apex name = elim (find r.pre_installed_store name) [
    | none ↦ abort
    | some it ↦ ok it
  ]

-- The values of a map, in its order.
unfoldable pub values : Dict ApexFile → List ApexFile
values [] = []
values ((k, v) ∷ m) = v ∷ values m

unfoldable pub get_pre_installed_apex_files : ApexFileRepository → List ApexFile
get_pre_installed_apex_files r = values r.pre_installed_store

unfoldable pub get_data_apex_files : ApexFileRepository → List ApexFile
get_data_apex_files r = values r.data_store

-- The files of a name, with one more.
abbrev pub with_file : Option (List ApexFile) → ApexFile → List ApexFile
with_file none a = a ∷ []
with_file (some as') a = as' ++ a ∷ []

-- The loop that groups the files by name.
unfoldable pub group_by_name : Dict (List ApexFile) → List ApexFile → Dict (List ApexFile)
group_by_name result [] = result
group_by_name result (a ∷ rest) =
    group_by_name (assign result a.name (with_file (find result a.name) a)) rest

unfoldable pub all_apex_files_by_name : ApexFileRepository → Dict (List ApexFile)
all_apex_files_by_name r =
    group_by_name [] (get_pre_installed_apex_files r ++ get_data_apex_files r)
