-- ===== src/Mounting/Sorted.antt =====
-- apexd/apexd.cpp: whatever the daemon mounts and unmounts, in any order, the latest mount of a package
-- is one with the highest version.
use system_apex.Base.{
  ℕ, String, ◌≡◌, sym, subst, Bool, true, false, some, [], Result, arith, zero, suc, find, All,
  ◌≤ℤ◌,
}
use system_apex.ApexFile.{ApexFile}
use system_apex.Database.{MountedApexData}
use system_apex.Database.Mounts.{mounts_of, get_latest_mounted_apex}
use system_apex.Database.Order.{
  AllSorted, add_mounted_apex-AllSorted, remove_mounted_apex-AllSorted,
}
use system_apex.Database.Latest.{get_latest_mounted_apex-highest}
use system_apex.Kernel.{Trace}
use system_apex.Mounting.{MountHost, MountState}
use system_apex.Mounting.Packages.{
  record_mount, verify_and_temp_mount_package, after_verify, clean_temp_mount,
  run_verify_fn_inside_temp_mount, unmount_recorded, unmount_package, unmount_temp_mounts,
}
use system_apex.Mounting.Activate.{activate_package_impl}
use system_apex.Mounting.Growing.{record_mount-keeps, activate_package_impl-keeps}

-- The database of the state is in order.
abbrev pub InOrder : MountState → Type 0
InOrder s = AllSorted s.mounted

record_mount-InOrder :
    (name : String) (s : MountState) (x : Result MountedApexData × Trace)
    → InOrder s
    → InOrder (record_mount name s x).1
record_mount-InOrder name s x o = record_mount-keeps AllSorted add_mounted_apex-AllSorted name s x o

unmount_package-InOrder :
    (h : MountHost) (apex : ApexFile) (allow_latest deferred detach : Bool) (s : MountState)
    → InOrder s
    → InOrder (unmount_package h apex allow_latest deferred detach s).1
unfolding unmount_package unmount_recorded
unmount_package-InOrder h apex allow_latest deferred detach s o =
    grind (arith, o, remove_mounted_apex-AllSorted)

clean_temp_mount-InOrder :
    (h : MountHost) (apex : ApexFile) (m : MountedApexData) (s : MountState)
    → InOrder s
    → InOrder (clean_temp_mount h apex m s)
unfolding clean_temp_mount
clean_temp_mount-InOrder h apex m s o =
    remove_mounted_apex-AllSorted s.mounted apex.name apex.apex_path true o

run_verify-InOrder :
    (h : MountHost) (apex : ApexFile) (verify_fn : Trace → String → Result (Unit {0}))
    (cleanup : Bool) (s : MountState)
    → InOrder s
    → InOrder (run_verify_fn_inside_temp_mount h apex verify_fn cleanup s).1
unfolding run_verify_fn_inside_temp_mount verify_and_temp_mount_package after_verify
run_verify-InOrder h apex verify_fn cleanup s o =
    grind (arith, o, record_mount-InOrder, clean_temp_mount-InOrder)

unmount_temp_mounts-InOrder :
    (h : MountHost) (fuel : ℕ) (name : String) (s : MountState)
    → InOrder s
    → InOrder (unmount_temp_mounts h fuel name s)
unfolding unmount_temp_mounts
unmount_temp_mounts-InOrder h zero name s o = o
unmount_temp_mounts-InOrder h (suc fuel) name s o =
    grind (arith, o, remove_mounted_apex-AllSorted, unmount_temp_mounts-InOrder h fuel)

-- One operation of the daemon on what is mounted, with any arguments and whatever its outcome.
pub data Step (h : MountHost) (s s' : MountState) : Type 0 where
  activates :
      (apex : ApexFile) (device_name : String) (reuse_device : Bool)
      → s' ≡ (activate_package_impl h apex device_name reuse_device s).1
      → Step h s s'
  unmounts :
      (apex : ApexFile) (allow_latest deferred detach : Bool)
      → s' ≡ (unmount_package h apex allow_latest deferred detach s).1
      → Step h s s'
  verifies :
      (apex : ApexFile) (verify_fn : Trace → String → Result (Unit {0})) (cleanup : Bool)
      → s' ≡ (run_verify_fn_inside_temp_mount h apex verify_fn cleanup s).1
      → Step h s s'
  unmounts_temporary :
      (fuel : ℕ) (name : String) → s' ≡ unmount_temp_mounts h fuel name s → Step h s s'

pub data Reach (h : MountHost) (s : MountState) : MountState → Type 0 where
  here : Reach h s s
  step_on : {t u : MountState} → Reach h s t → Step h t u → Reach h s u

Step-InOrder : (h : MountHost) (s s' : MountState) → Step h s s' → InOrder s → InOrder s'
Step-InOrder h s s' (activates apex d r e) o =
    subst (λ x. InOrder x) (sym e)
      (activate_package_impl-keeps AllSorted add_mounted_apex-AllSorted h apex d r s o)
Step-InOrder h s s' (unmounts apex a d x e) o =
    subst (λ x. InOrder x) (sym e) (unmount_package-InOrder h apex a d x s o)
Step-InOrder h s s' (verifies apex f c e) o =
    subst (λ x. InOrder x) (sym e) (run_verify-InOrder h apex f c s o)
Step-InOrder h s s' (unmounts_temporary fuel name e) o =
    subst (λ x. InOrder x) (sym e) (unmount_temp_mounts-InOrder h fuel name s o)

pub Reach-InOrder : (h : MountHost) (s s' : MountState) → Reach h s s' → InOrder s → InOrder s'
Reach-InOrder h s s' here o = o
Reach-InOrder h s s' (step_on {t} before step) o =
    Step-InOrder h t s' step (Reach-InOrder h s t before o)

-- After any sequence of activations, unmounts, verifications in a temporary mount and unmounts of
-- temporary mounts, from an empty database and whatever the kernel answers: the latest mount of a
-- package has the highest version of all its mounts, as the database records versions, narrowed to
-- `int`, and is not temporary.
pub Reach-get_latest :
    (h : MountHost) (s s' : MountState) (name : String) (l : MountedApexData)
    → s.mounted.mounted_apexes ≡ []
    → Reach h s s'
    → get_latest_mounted_apex s'.mounted name ≡ some l
    → All
        (λ (m : MountedApexData). m.version ≤ℤ l.version)
        (mounts_of (find s'.mounted.mounted_apexes name))
      × (l.is_temp_mount ≡ false)
Reach-get_latest h s s' name l empty reach e =
    get_latest_mounted_apex-highest s'.mounted name l
      (Reach-InOrder h s s' reach
        (record { at = λ pkg ms found. unfold find in absurd (grind arith) }))
      e
