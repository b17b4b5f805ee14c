-- ===== src/Installation.antt =====
-- apexd/apexd.cpp: the installation of a package without a reboot.
pub mod Minor
pub mod Install
pub mod Fresh
pub mod Checked
use Prim.Native.String.{◌++◌ as append}
use system_apex.Base.{
  String, Bool, true, false, not, ◌||◌, List, [], ◌∷◌, Option, Result, ok, error, ◌>>=◌, ◌>>◌,
  guard, if◌then◌else◌, nat_eq, contains,
}
use system_apex.ApexFile.{ApexFile}
use system_apex.ApexFile.Verity.{verify_apex_verity}
use system_apex.Repository.Queries.{get_public_key}
use system_apex.Daemon.Verify.{is_vendor_apex}
use system_apex.Kernel.{Trace}
use system_apex.Mounting.{MountHost, MountState}
use system_apex.Mounting.Packages.{run_verify_fn_inside_temp_mount}
use system_apex.Base.{and_then}

-- What an installation asks of the rest of the system, besides what mounting asks.
pub record InstallHost : Type 0 where
  pub mounting : MountHost
  pub open mounting use {repository, kernel}
  pub active_apex_data_dir : String
  -- the names of the device-mapper devices, `GetAvailableDevices`
  pub dm_devices : Trace → Option (List String)
  -- `GetSubdirs` of what is mounted
  pub get_subdirs : Trace → String → Result (List String)
  -- `CheckVendorApexUpdate` of what is mounted, which asks libvintf
  pub check_vendor_apex_update : Trace → ApexFile → String → Result (Unit {0})
  -- what `CollectApexInfoList` writes
  pub apex_info_list : MountState → String

abbrev pub is_empty {ℓ} : {A : Type ℓ} → List A → Bool
is_empty [] = true
is_empty (x ∷ xs) = false

-- What a package must not be, unless the installation is forced.
unfoldable pub check_rebootless : ApexFile → Result (Unit {0})
check_rebootless apex = do
  guard apex.manifest.supports_rebootless_update "does not support non-staged update"
  guard (not apex.manifest.provide_shared_apex_libs) "is a shared libs APEX"
  guard (is_empty apex.manifest.provide_native_libs) "provides native libs"
  guard (is_empty apex.manifest.require_shared_apex_libs) "requires shared apex libs"
  guard (is_empty apex.manifest.jni_libs) "requires JNI libs"

unfoldable pub check_supports_non_staged_install :
    InstallHost → Trace → ApexFile → Bool → Result (Unit {0})
check_supports_non_staged_install h t apex force = do
  if force then ok tt else check_rebootless apex
  expected_public_key ← get_public_key h.repository apex.name
  verity ← verify_apex_verity (h.mounting.avb t) apex expected_public_key
  guard (not (nat_eq verity.tree_size 0)) "does not have an embedded hash tree"

-- What is looked at inside the temporary mount.
unfoldable pub check_mounted : InstallHost → ApexFile → Bool → Trace → String → Result (Unit {0})
check_mounted h apex force t mount_point = if force then ok tt else do
  dirs ← h.get_subdirs t mount_point
  guard (not (contains dirs (append mount_point "/app"))) "contains app inside"
  guard (not (contains dirs (append mount_point "/priv-app"))) "contains priv-app inside"
  vendor ← is_vendor_apex h.repository apex
  if vendor then h.check_vendor_apex_update t apex mount_point else ok tt

unfoldable pub verify_package_non_staged_install :
    InstallHost → ApexFile → Bool → MountState → Result (Unit {0}) × MountState
verify_package_non_staged_install h apex force s =
    and_then (h.mounting.verify_package_boot s.trace apex, s)
      (λ _ s₁. run_verify_fn_inside_temp_mount h.mounting apex (check_mounted h apex force) true s₁)
