-- ===== src/Daemon.antt =====
-- apexd/apexd.cpp: the daemon. Its state is what it keeps on the disk and in memory; what it asks of
-- the rest of the system is the record `Host`.
pub mod Snapshots
pub mod Backup
pub mod Sessions
pub mod Revert
pub mod Marks
pub mod Outcome
pub mod Settled
pub mod Untouched
pub mod Resume
pub mod DistinctDisk
pub mod History
pub mod Decompress
pub mod Reservation
pub mod Validated
pub mod Verify
pub mod Staging
pub mod StagingCleanup
pub mod Scan
pub mod Scanned
pub mod Restored
pub mod Interrupted
pub mod Submit
pub mod Submitted
use system_apex.Base.{String, Bool, List, Result, ℕ}
use system_apex.FileSystem.{FileSystem, FileIo}
use system_apex.ApexFile.{Package, Decoders}
use system_apex.Session.Manager.{SessionDisk, SessionIo, ApexSessionManager}

-- The calls that the daemon makes for the snapshots of the packages' data.
pub data SnapshotCall : Type 0 where
  -- `RestoreDataDirectory(base_dir, rollback_id, apex_name, pre_restore)`
  restore_data_directory : String → ℕ → String → Bool → SnapshotCall
  -- `DeleteDir(path)`
  delete_dir : String → SnapshotCall

pub record Apexd : Type 0 where
  pub fs : FileSystem
  -- what `gSessionManager` reads and writes
  pub sessions : SessionDisk
  -- `gChangedActiveApexes`
  pub changed_active_apexes : List String
  -- the calls for snapshots so far, the last first
  pub snapshot_calls : List SnapshotCall

pub record Host : Type 0 where
  pub file_io : FileIo
  pub session_io : SessionIo
  pub session_manager : ApexSessionManager
  -- `gSupportsFsCheckpoints` and `gInFsCheckpointMode`
  pub supports_fs_checkpoints : Bool
  pub in_fs_checkpoint_mode : Bool
  -- the paths of `gConfig`, and `kApexBackupDir`
  pub active_apex_data_dir : String
  pub apex_hash_tree_dir : String
  pub staged_session_dir : String
  pub apex_backup_dir : String
  pub build_fingerprint : String
  -- the package that the contents of a file are, and how its parts are read
  pub packages : ℕ → Package
  pub decoders : Decoders
  pub chmod_fails : String → Bool
  -- `PathExists(path).ok()`
  pub can_access : String → Bool
  -- `GetDeUserDirs`
  pub de_user_dirs : Result (List String)
