-- ===== src/Boot/Completed.antt =====
-- apexd/apexd.cpp: the clean-up once the boot has completed.
use text.Mathlib.Text.{starts_with}
use system_apex.Base.{
  String, Bool, true, false, ◌&&◌, none, some, List, [], ◌∷◌, ◌++◌, Result, ok, error, abort,
  if◌then◌else◌, any,
}
use system_apex.FileSystem.{FileSystem, FileIo, find_files_by_suffix, unlink}
use system_apex.ApexFile.{ApexFile}
use system_apex.Repository.{ApexFileRepository}
use system_apex.Repository.Queries.{get_pre_installed_apex_files}
use system_apex.Session.Manager.{delete_finalized_sessions}
use system_apex.Kernel.{Trace, DmDeviceState}
use system_apex.Mounting.{MountState}
use system_apex.Mounting.Packages.{is_mounted}
use system_apex.Mounting.Verity.{delete_verity_device}
use system_apex.Boot.{BootHost, BootState}

-- What a scan finds; a failure is only logged.
abbrev pub found_files : Result (List String) → List String
found_files (ok paths) = paths
found_files (error e) = []
found_files abort = []

unfoldable pub scan_for : BootHost → FileSystem → String → String → List String
scan_for b fs dir suffix = found_files (find_files_by_suffix b.host.file_io fs dir (suffix ∷ []))

unfoldable pub data_apex_files : BootHost → FileSystem → List String
data_apex_files b fs =
    scan_for b fs b.host.active_apex_data_dir ".apex"
    ++ scan_for b fs b.decompressor.decompression_dir ".decompressed.apex"

unfoldable pub remove_unmounted : FileIo → MountState → List String → FileSystem → FileSystem
remove_unmounted io s [] fs = fs
remove_unmounted io s (path ∷ rest) fs =
    remove_unmounted io s rest (if is_mounted s path then fs else (unlink io fs path).1)

unfoldable pub remove_inactive_data_apex : BootHost → MountState → FileSystem → FileSystem
remove_inactive_data_apex b s fs = remove_unmounted b.host.file_io s (data_apex_files b fs) fs

unfoldable pub is_apex_device : ApexFileRepository → String → Bool
is_apex_device r dev_name =
    any (λ (apex : ApexFile). starts_with dev_name apex.name) (get_pre_installed_apex_files r)

abbrev pub is_suspended : DmDeviceState → Bool
is_suspended DmDeviceState.suspended = true
is_suspended _ = false

-- A device that cannot be deleted is only logged.
unfoldable pub delete_unused : BootHost → List String → Trace → Trace
delete_unused b [] t = t
delete_unused b (dev ∷ rest) t = delete_unused b rest (
    if is_suspended (b.mounting.kernel.dm_state t dev) && is_apex_device b.mounting.repository dev
    then (delete_verity_device b.mounting.kernel dev false t).1
    else t)

unfoldable pub delete_unused_verity_devices : BootHost → Trace → Trace
delete_unused_verity_devices b t = elim (b.available_devices t) [
  | none ↦ t
  | some devices ↦ delete_unused b devices t
]

unfoldable pub boot_completed_cleanup : BootHost → BootState → BootState
boot_completed_cleanup b s = record {
  apexd = record s.apexd {
    fs = remove_inactive_data_apex b s.mounts s.apexd.fs;
    sessions = delete_finalized_sessions b.host.session_io s.apexd.sessions;
  };
  mounts = record s.mounts { trace = delete_unused_verity_devices b s.mounts.trace };
}
