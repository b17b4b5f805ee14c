-- ===== src/Boot.antt =====
-- apexd/apexd.cpp: what the daemon does with all packages together, at boot and after it.
pub mod Lists
pub mod Batch
pub mod Missing
pub mod Completed
pub mod Shutdown
pub mod Start
pub mod Inactive
pub mod Fallback
pub mod FellBack
pub mod Single
pub mod Activated
pub mod Cleaned
pub mod Started
use system_apex.Base.{String, Bool, Option, List, Result}
use system_apex.Database.Sysfs.{Kernel as Sysfs, Dirs}
use system_apex.Daemon.{Apexd, Host}
use system_apex.Repository.{Device}
use system_apex.Daemon.Decompress.{Decompressor}
use system_apex.Daemon.Verify.{Verifier}
use system_apex.Kernel.{Trace}
use system_apex.Mounting.{MountHost, MountState}

pub record BootHost : Type 0 where
  pub mounting : MountHost
  pub host : Host
  pub decompressor : Decompressor
  -- `ContributeToSharedLibs` of a mount point; the links that it makes are not modelled
  pub contribute_to_shared_libs : Trace → String → Result (Unit {0})
  -- `GetAvailableDevices`: the names
  pub available_devices : Trace → Option (List String)
  -- what `PopulateFromMounts` reads
  pub sysfs : Trace → Sysfs
  pub dirs : Dirs
  -- what the scans of packages see of the files
  pub device : Apexd → Device
  pub verifier : Verifier
  -- `NeedsRollback` of vold
  pub needs_rollback : Result Bool

-- The files, sessions and mounts of the daemon.
pub record BootState : Type 0 where
  pub apexd : Apexd
  pub mounts : MountState
