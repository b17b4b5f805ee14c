-- ===== src/Boot/Inactive.antt =====
-- apexd/apexd.cpp: which files of packages the clean-up of the boot removes.
use system_apex.Base.{
  ℕ, String, ◌≡◌, refl, ◌∙◌, Bool, not, ◌&&◌, ◌||◌, none, List, [], ◌∷◌, ◌++◌, Dict, find,
  find-erase, is_some, if◌then◌else◌, contains, arith, eq_iff, ◌==◌,
}
use system_apex.Text.{filename, parent_path, ends_with}
use system_apex.FileSystem.{FileSystem, FileIo, find_files_by_suffix, with_suffix, unlink}
use system_apex.Mounting.{MountState}
use system_apex.Mounting.Packages.{is_mounted}
use system_apex.Boot.{BootHost}
use system_apex.Boot.Completed.{
  scan_for, data_apex_files, remove_unmounted, remove_inactive_data_apex,
}

contains-append :
    (xs ys : List String) (x : String) → contains (xs ++ ys) x ≡ (contains xs x || contains ys x)
contains-append [] ys x = refl
contains-append (y ∷ xs) ys x = ground (arith, contains-append xs ys x)

-- A file that is there goes if it can be unlinked and is not mounted.
remove_unmounted-find :
    (io : FileIo) (s : MountState) (paths : List String) (fs : FileSystem) (path : String)
    → find (remove_unmounted io s paths fs).files path ≡ (
        if contains paths path && not (is_mounted s path) && not (io.unlink_fails path)
        then none
        else find fs.files path)
unfolding remove_unmounted unlink
remove_unmounted-find io s [] fs path = refl
remove_unmounted-find io s (p ∷ rest) fs path =
    remove_unmounted-find io s rest _ path
    ∙ grind (arith, find-erase fs.files p path, eq_iff p path)

-- The file lies in the directory itself, and its name ends in the suffix.
abbrev pub is_named : String → String → String → Bool
is_named dir suffix path = parent_path path == dir && ends_with (filename path) suffix

with_suffix-contains :
    (io : FileIo) (dir suffix : String) (files : Dict ℕ) (path : String)
    → contains (with_suffix io dir (suffix ∷ []) files) path
      ≡ (is_some (find files path) && is_named dir suffix path)
unfolding with_suffix find
with_suffix-contains io dir suffix [] path = refl
with_suffix-contains io dir suffix ((p, c) ∷ files) path =
    grind (arith, eq_iff p path, with_suffix-contains io dir suffix files path)

-- The directory can be listed.
abbrev pub can_list : FileIo → FileSystem → String → Bool
can_list io fs dir = contains fs.dirs dir && not (io.list_fails dir)

scan_for-contains :
    (b : BootHost) (fs : FileSystem) (dir suffix path : String)
    → contains (scan_for b fs dir suffix) path
      ≡ (can_list b.host.file_io fs dir && is_some (find fs.files path) && is_named dir suffix path)
unfolding scan_for find_files_by_suffix
scan_for-contains b fs dir suffix path =
    grind (arith, with_suffix-contains b.host.file_io dir suffix fs.files path)

-- A package on /data that has been staged, or decompressed.
unfoldable pub is_data_apex : BootHost → FileSystem → String → Bool
is_data_apex b fs path =
    (can_list b.host.file_io fs b.host.active_apex_data_dir
      && is_named b.host.active_apex_data_dir ".apex" path)
    || (can_list b.host.file_io fs b.decompressor.decompression_dir
        && is_named b.decompressor.decompression_dir ".decompressed.apex" path)

pub remove_inactive_data_apex-exact :
    (b : BootHost) (s : MountState) (fs : FileSystem) (path : String)
    → find (remove_inactive_data_apex b s fs).files path ≡ (
        if is_data_apex b fs path
          && not (is_mounted s path)
          && not (b.host.file_io.unlink_fails path)
        then none
        else find fs.files path)
unfolding remove_inactive_data_apex data_apex_files is_data_apex
remove_inactive_data_apex-exact b s fs path =
    remove_unmounted-find b.host.file_io s (data_apex_files b fs) fs path
    ∙ grind (
      arith,
      contains-append (scan_for b fs b.host.active_apex_data_dir ".apex")
          (scan_for b fs b.decompressor.decompression_dir ".decompressed.apex") path,
      scan_for-contains b fs b.host.active_apex_data_dir ".apex" path,
      scan_for-contains b fs b.decompressor.decompression_dir ".decompressed.apex" path,
    )
