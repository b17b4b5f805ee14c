-- ===== src/Daemon/Backup.antt =====
-- apexd/apexd.cpp: the backup of the directory of the active packages, and its restoration.
use Prim.Native.String.{◌++◌ as append}
use system_apex.Base.{
  String, not, none, some, List, [], ◌∷◌, find, Result, ok, error, abort, if◌then◌else◌, and_then,
  in_context,
}
use system_apex.FileSystem.{
  FileSystem, path_exists, link, find_files_by_suffix, create_dir_if_needed, delete_dir_content,
  rename_dir,
}
use system_apex.ApexFile.{ApexFile, get_package_id, open_package}
use system_apex.Daemon.{Host}

-- `ApexFile::Open`.
unfoldable pub open_apex : Host → FileSystem → String → Result ApexFile
open_apex host fs path = elim (find fs.files path) [
  | none ↦ error (append "Failed to open package " path)
  | some contents ↦ open_package host.decoders path (host.packages contents)
]

unfoldable pub delete_backup : Host → FileSystem → Result (Unit {0}) × FileSystem
delete_backup host fs =
    if not (host.can_access host.apex_backup_dir)
    then (error (append "Can't clean " host.apex_backup_dir), fs)
    else if path_exists host.file_io fs host.apex_backup_dir
    then delete_dir_content host.file_io fs host.apex_backup_dir
    else (ok tt, fs)

unfoldable pub backup_path : Host → ApexFile → String
backup_path host apex =
    append host.apex_backup_dir (append "/" (append (get_package_id apex.manifest) ".apex"))

-- The loop of `BackupActivePackages`.
unfoldable pub backup_files : Host → List String → FileSystem → Result (Unit {0}) × FileSystem
backup_files host [] fs = (ok tt, fs)
backup_files host (path ∷ rest) fs = elim (open_apex host fs path) [
  | error e ↦ (error (append "Backup failed : " e), fs)
  | abort ↦ (abort, fs)
  | ok apex ↦
      let linked = link host.file_io fs apex.apex_path (backup_path host apex) in
      let later = backup_files host rest linked.1 in
      if linked.0 then later else (error (append "Failed to backup " apex.apex_path), fs)
]

-- The scope guard: a backup that is not complete is deleted.
unfoldable pub accept_backup :
    Host → Result (Unit {0}) × FileSystem → Result (Unit {0}) × FileSystem
accept_backup host (ok u, fs) = (ok u, fs)
accept_backup host (error e, fs) =
    (error e, (delete_dir_content host.file_io fs host.apex_backup_dir).1)
accept_backup host (abort, fs) = (abort, fs)

-- The error of a step of the backup.
abbrev backing_up {κ μ} : {A : Type κ} {S : Type μ} → Result A × S → Result A × S
backing_up r = (in_context "Backup failed : " r.0, r.1)

unfoldable pub backup_active_packages : Host → FileSystem → Result (Unit {0}) × FileSystem
backup_active_packages host fs =
    and_then (backing_up (create_dir_if_needed host.file_io fs host.apex_backup_dir)) (λ _ fs₁.
      if not (host.can_access host.active_apex_data_dir)
      then (error "Backup failed : ", fs₁)
      else if not (path_exists host.file_io fs₁ host.active_apex_data_dir)
      then (ok tt, fs₁)
      else and_then
          (backing_up
            (find_files_by_suffix host.file_io fs₁ host.active_apex_data_dir (".apex" ∷ []), fs₁))
          (λ active_packages _.
            and_then (backing_up (delete_backup host fs₁))
              (λ _ fs₂. accept_backup host (backup_files host active_packages fs₂))))

unfoldable pub restore_active_packages : Host → FileSystem → Result (Unit {0}) × FileSystem
restore_active_packages host fs =
    if not (host.can_access host.apex_backup_dir)
    then (error "Failed to access ", fs)
    else if not (path_exists host.file_io fs host.apex_backup_dir)
    then (error (append host.apex_backup_dir " does not exist"), fs)
    else if not (path_exists host.file_io fs host.active_apex_data_dir)
    then (error (append "Failed to access " host.active_apex_data_dir), fs)
    else and_then (delete_dir_content host.file_io fs host.active_apex_data_dir) (λ _ fs₁.
      let renamed = rename_dir host.file_io fs₁ host.apex_backup_dir host.active_apex_data_dir in
      if not renamed.0
      then (error (append "Failed to rename " host.apex_backup_dir), fs₁)
      else if host.chmod_fails host.active_apex_data_dir
      then (error "Failed to restore original permissions for ", renamed.1)
      else (ok tt, renamed.1))
