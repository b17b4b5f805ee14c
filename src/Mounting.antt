-- ===== src/Mounting.antt =====
-- apexd/apexd.cpp, apexd/apexd_verity.cpp: how the image of a package is mounted and unmounted.
pub mod Verity
pub mod Image
pub mod Unmount
pub mod Devices
pub mod NoLeak
pub mod Undone
pub mod Packages
pub mod Activate
pub mod Active
pub mod Recorded
pub mod TempMount
pub mod Temporary
pub mod AllTemporary
pub mod AllUnmounted
pub mod Growing
pub mod Sorted
use system_apex.Base.{ℕ, String, Bool, List, Result}
use system_apex.ApexFile.{ApexManifest, ApexFile}
use system_apex.ApexFile.Verity.{Avb, ApexVerityData}
use system_apex.Repository.{ApexFileRepository}
use system_apex.Database.{MountedApexDatabase}
use system_apex.Kernel.{Kernel, Trace}
use system_apex.Loop.{LoopHost}

-- What mounting asks of the rest of the system.
pub record MountHost : Type 0 where
  pub loops : LoopHost
  pub open loops use {kernel}
  pub repository : ApexFileRepository
  -- libavb, with the files as they are
  pub avb : Trace → Avb
  -- `ApexFile::Open` of a path, `ReadManifest` of a file, and `MessageDifferencer::Equals`
  pub open_apex : Trace → String → Result ApexFile
  pub read_manifest : Trace → String → Result ApexManifest
  pub same_manifest : ApexManifest → ApexManifest → Bool
  -- `ValidateShimApex` of what is mounted
  pub validate_shim_apex : Trace → String → ApexFile → Result (Unit {0})
  -- `VerifyPackageBoot`
  pub verify_package_boot : Trace → ApexFile → Result (Unit {0})
  -- `CalculateRootDigest` of a hash tree file
  pub calculate_root_digest : Trace → String → ApexVerityData → Result String
  -- `ReadFully` of a device that is open, at an offset, of a length
  pub read_fully : Trace → String → ℕ → ℕ → Bool
  pub apex_hash_tree_dir : String

-- The arguments of `MountPackageImpl` besides the package.
pub record MountRequest : Type 0 where
  pub mount_point : String
  pub device_name : String
  pub hashtree_file : String
  pub verify_image : Bool
  pub reuse_device : Bool
  pub temp_mount : Bool

-- The calls so far, and `gMountedApexes`.
pub record MountState : Type 0 where
  pub trace : Trace
  pub mounted : MountedApexDatabase
