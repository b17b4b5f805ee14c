-- ===== src/Daemon/Verify.antt =====
-- apexd/apexd.cpp, apexd/apexd_vendor_apex.cpp: the checks of a package on each boot.
use text.Mathlib.Text.{starts_with}
use system_apex.Base.{
  String, Bool, ◌||◌, Result, ok, error, guard, ◌>>=◌, ◌>>◌, if◌then◌else◌, ◌==◌,
}
use system_apex.FileSystem.{FileSystem}
use system_apex.ApexFile.{ApexFile}
use system_apex.ApexFile.Verity.{Avb, verify_apex_verity}
use system_apex.Repository.{ApexFileRepository}
use system_apex.Repository.Queries.{get_public_key, get_pre_installed_apex}

-- What the checks ask of the rest of the daemon and of the system.
pub record Verifier : Type 0 where
  pub repository : ApexFileRepository
  -- libavb, with the files as they are
  pub avb : FileSystem → Avb
  -- the properties `ro.vndk.version` and `ro.product.vndk.version`
  pub vendor_vndk_version : String
  pub product_vndk_version : String
  -- `ValidateStagingShimApex`, which mounts the pre-installed shim
  pub validate_staging_shim_apex : ApexFile → Result (Unit {0})
  -- `RunVerifyFnInsideTempMount`: the package is mounted, and then the check runs
  pub run_in_temp_mount : ApexFile → Result (Unit {0}) → Result (Unit {0})
  -- `CheckVendorApexUpdate`, which asks libvintf
  pub check_vendor_apex_update : ApexFile → Result (Unit {0})

unfoldable pub is_shim_apex : ApexFile → Bool
is_shim_apex apex = apex.name == "com.android.apex.cts.shim"

unfoldable pub is_vendor_path : String → Bool
is_vendor_path path = starts_with path "/vendor/apex/" || starts_with path "/system/vendor/apex/"

-- `IsVendorApex`.
unfoldable pub is_vendor_apex : ApexFileRepository → ApexFile → Result Bool
is_vendor_apex r apex =
    get_pre_installed_apex r apex.name >>= λ it. ok (is_vendor_path it.apex_path)

unfoldable pub verify_vndk_version : Verifier → ApexFile → Result (Unit {0})
verify_vndk_version v apex =
    let vndk_version = apex.manifest.vndk_version in
    if vndk_version == ""
    then ok tt
    else (get_pre_installed_apex v.repository apex.name >>= λ it.
        let path = it.apex_path in
        if is_vendor_path path
        then guard (vndk_version == v.vendor_vndk_version) "vndkVersion doesn't match"
        else if starts_with path "/product/apex/" || starts_with path "/system/product/apex/"
        then guard (vndk_version == v.product_vndk_version) "vndkVersion doesn't match"
        else error "vndkVersion is set")

unfoldable pub verify_package_boot : Verifier → FileSystem → ApexFile → Result (Unit {0})
verify_package_boot v fs apex = do
  public_key ← get_public_key v.repository apex.name
  verity ← verify_apex_verity (v.avb fs) apex public_key
  if is_shim_apex apex then v.validate_staging_shim_apex apex else ok tt
  verify_vndk_version v apex

unfoldable pub verify_package_staged_install : Verifier → FileSystem → ApexFile → Result (Unit {0})
verify_package_staged_install v fs apex = do
  verify_package_boot v fs apex
  v.run_in_temp_mount apex (
      is_vendor_apex v.repository apex >>= λ b.
      if b then v.check_vendor_apex_update apex else ok tt)
