-- ===== src/Mounting/Packages.antt =====
-- apexd/apexd.cpp: mounts and unmounts of packages, with the database of what is mounted.
use Prim.Native.String.{◌++◌ as append}
use system_apex.Base.{
  ℕ, zero, suc, String, Bool, true, false, not, ◌&&◌, Option, none, some, List, [], ◌∷◌, Result, ok,
  error, abort, if◌then◌else◌, and_then, ◌==◌,
}
use system_apex.ApexFile.{ApexManifest, ApexFile, get_package_id}
use system_apex.Database.{MountedApexData}
use system_apex.Database.Mounts.{
  add_mounted_apex, remove_mounted_apex, mounted_apexes_of, all_mounted,
}
use system_apex.Kernel.{Trace, unlink, rmdir, umount, require, attempt}
use system_apex.Mounting.{MountHost, MountRequest, MountState}
use system_apex.Mounting.Image.{mount_package_impl}
use system_apex.Mounting.Unmount.{unmount}

abbrev pub apex_root : String
apex_root = "/apex"

unfoldable pub get_package_mount_point : ApexManifest → String
get_package_mount_point manifest = append apex_root (append "/" (get_package_id manifest))

unfoldable pub get_package_temp_mount_point : ApexManifest → String
get_package_temp_mount_point manifest = append (get_package_mount_point manifest) ".tmp"

unfoldable pub get_active_mount_point : ApexManifest → String
get_active_mount_point manifest = append apex_root (append "/" manifest.name)

unfoldable pub get_hash_tree_file_name : MountHost → ApexFile → Bool → String
get_hash_tree_file_name h apex is_new =
    let ret = append h.apex_hash_tree_dir (append "/" (get_package_id apex.manifest)) in
    if is_new then append ret ".new" else ret

abbrev pub with_trace : MountState → Trace → MountState
with_trace s t = record s { trace = t }

-- What has been mounted is added to the database, whose CHECK ends the process.
unfoldable pub record_mount :
    String → MountState → Result MountedApexData × Trace → Result MountedApexData × MountState
record_mount name s (ok m, t) = elim (add_mounted_apex s.mounted name m) [
  | ok db ↦ (ok m, record { trace = t; mounted = db })
  | error e ↦ (abort, with_trace s t)
  | abort ↦ (abort, with_trace s t)
]
record_mount name s (error e, t) = (error e, with_trace s t)
record_mount name s (abort, t) = (abort, with_trace s t)

module _ (h : MountHost) where
  unfoldable pub mount_package :
      ApexFile → String → String → Bool → Bool → MountState → Result MountedApexData × MountState
  mount_package apex mount_point device_name reuse_device temp_mount s =
      let r : MountRequest = record {
        mount_point = mount_point;
        device_name = device_name;
        hashtree_file = get_hash_tree_file_name h apex false;
        verify_image = false;
        reuse_device = reuse_device;
        temp_mount = temp_mount;
      } in
      record_mount apex.name s (mount_package_impl h r apex s.trace)

  -- The file of the hash tree goes again where the mount fails.
  unfoldable pub discard_hash_tree :
      String → Result MountedApexData × Trace → Result MountedApexData × Trace
  discard_hash_tree hashtree_file (error e, t) =
      (error e, attempt h.kernel (unlink hashtree_file) t)
  discard_hash_tree hashtree_file r = r

  unfoldable pub temp_request : ApexFile → String → MountRequest
  temp_request apex mount_point = record {
    mount_point = mount_point;
    device_name = append (get_package_id apex.manifest) ".tmp";
    hashtree_file = get_hash_tree_file_name h apex true;
    verify_image = true;
    reuse_device = false;
    temp_mount = true;
  }

  unfoldable pub remove_old_hash_tree : String → Trace → Result (Unit {0}) × Trace
  remove_old_hash_tree hashtree_file t =
      if h.kernel.can_access t hashtree_file
      then require h.kernel (unlink hashtree_file) (append "Failed to unlink " hashtree_file) t
      else (ok tt, t)

  unfoldable pub verify_and_temp_mount_package :
      ApexFile → String → MountState → Result MountedApexData × MountState
  verify_and_temp_mount_package apex mount_point s =
      let r = temp_request apex mount_point in
      record_mount apex.name s (
        and_then (remove_old_hash_tree r.hashtree_file s.trace)
          (λ _ t. discard_hash_tree r.hashtree_file (mount_package_impl h r apex t)))

  -- The scope guard of `RunVerifyFnInsideTempMount`; what goes wrong is only logged.
  unfoldable pub clean_temp_mount : ApexFile → MountedApexData → MountState → MountState
  clean_temp_mount apex m s = record {
    trace = (unmount h m false s.trace).1;
    mounted = remove_mounted_apex s.mounted apex.name apex.apex_path true;
  }

  unfoldable pub after_verify :
      ApexFile
      → MountedApexData
      → Bool
      → Result (Unit {0})
      → MountState
      → Result (Unit {0}) × MountState
  after_verify apex m unmount_during_cleanup (ok u) s =
      (ok u, if unmount_during_cleanup then clean_temp_mount apex m s else s)
  after_verify apex m unmount_during_cleanup (error e) s = (error e, clean_temp_mount apex m s)
  after_verify apex m unmount_during_cleanup abort s = (abort, s)

  -- `verify_fn` looks at what is mounted, and changes nothing.
  unfoldable pub run_verify_fn_inside_temp_mount :
      ApexFile
      → (Trace → String → Result (Unit {0}))
      → Bool
      → MountState
      → Result (Unit {0}) × MountState
  run_verify_fn_inside_temp_mount apex verify_fn unmount_during_cleanup s =
      let temp_mount_point = get_package_temp_mount_point apex.manifest in
      and_then (verify_and_temp_mount_package apex temp_mount_point s) (λ m s₁.
        after_verify apex m unmount_during_cleanup (verify_fn s₁.trace temp_mount_point) s₁)

-- The last of the mounts that has the path, with whether it is the latest.
unfoldable pub find_mounted :
    String
    → Option (MountedApexData × Bool)
    → List (MountedApexData × Bool)
    → Option (MountedApexData × Bool)
find_mounted path found [] = found
find_mounted path found ((m, latest) ∷ rest) =
    find_mounted path (if m.full_path == path then some (m, latest) else found) rest

-- The bind mount of the latest version goes first; the rmdir may fail.
unfoldable pub unmount_active :
    MountHost → ApexFile → Bool → Bool → Trace → Result (Unit {0}) × Trace
unmount_active h apex deferred detach t =
    let mount_point = get_active_mount_point apex.manifest in
    and_then
      (require h.kernel (umount mount_point detach) (append "Failed to unmount " mount_point) t)
      (λ _ t₁. (ok tt, if deferred then t₁ else attempt h.kernel (rmdir mount_point) t₁))

-- The entry of the database goes before the devices do.
unfoldable pub unmount_recorded :
    MountHost → ApexFile → MountedApexData → Bool → MountState → Result (Unit {0}) × MountState
unmount_recorded h apex m deferred s =
    let removed = remove_mounted_apex s.mounted apex.name apex.apex_path false in
    let r = unmount h m deferred s.trace in (r.0, record { trace = r.1; mounted = removed })

unfoldable pub unmount_package :
    MountHost → ApexFile → Bool → Bool → Bool → MountState → Result (Unit {0}) × MountState
unmount_package h apex allow_latest deferred detach s =
    elim (find_mounted apex.apex_path none (mounted_apexes_of s.mounted apex.name false)) [
      | none ↦ (error (append "Did not find " apex.apex_path), s)
      | some (m, latest) ↦
          if latest && not apex.manifest.provide_shared_apex_libs
          then (if not allow_latest
              then (error (append "Package " (append apex.apex_path " is active")), s)
              else (let active = unmount_active h apex deferred detach s.trace in
                  and_then (active.0, with_trace s active.1)
                    (λ _ s₁. unmount_recorded h apex m deferred s₁)))
          else unmount_recorded h apex m deferred s
    ]

abbrev pub first_mount : List (MountedApexData × Bool) → Option MountedApexData
first_mount [] = none
first_mount ((m, latest) ∷ rest) = some m

unfoldable pub get_temp_mounted_apex_data : MountState → String → Option MountedApexData
get_temp_mounted_apex_data s package_name =
    first_mount (mounted_apexes_of s.mounted package_name true)

-- The loop of `UnmountTempMount`.
unfoldable pub unmount_temp_mounts : MountHost → ℕ → String → MountState → MountState
unmount_temp_mounts h zero name s = s
unmount_temp_mounts h (suc fuel) name s = elim (get_temp_mounted_apex_data s name) [
  | none ↦ s
  | some m ↦ unmount_temp_mounts h fuel name (record {
    trace = (unmount h m false s.trace).1;
    mounted = remove_mounted_apex s.mounted name m.full_path true;
  })
]

unfoldable pub has_path : String → List (String × MountedApexData × Bool) → Bool
has_path full_path [] = false
has_path full_path ((name, m, latest) ∷ rest) =
    let later = has_path full_path rest in if m.full_path == full_path then true else later

unfoldable pub is_mounted : MountState → String → Bool
is_mounted s full_path = has_path full_path (all_mounted s.mounted.mounted_apexes false)
