-- ===== src/Mounting/Activate.antt =====
-- apexd/apexd.cpp, apexd/apexd_private.cpp: activation and deactivation of a package.
use Prim.Native.String.{◌++◌ as append}
use system_apex.Base.{
  String, Bool, true, false, not, ◌&&◌, List, [], ◌∷◌, Result, ok, error, abort, if◌then◌else◌,
  and_then, in_context, int_eq, ◌==◌, ℤ,
}
use system_apex.ApexFile.{ApexFile, get_package_id}
use system_apex.Repository.Queries.{is_pre_installed_apex}
use system_apex.Database.{MountedApexData}
use system_apex.Database.Mounts.{mounted_apexes_of, do_if_latest}
use system_apex.Daemon.Verify.{is_shim_apex}
use system_apex.Kernel.{Kernel, Trace, unlink, mkdir, umount, bind_mount, require, attempt}
use system_apex.Mounting.{MountHost, MountState}
use system_apex.Mounting.Packages.{
  get_package_mount_point, get_active_mount_point, mount_package, unmount_package, with_trace,
}

-- The target must be a directory: another file is removed, and what is mounted there unmounted. What
-- goes wrong with these two is only logged.
unfoldable pub clear_target : Kernel → String → Trace → Result (Unit {0}) × Trace
clear_target k target t =
    let make =
      λ (t' : Trace). require k (mkdir target) (append "Could not create mountpoint " target) t' in
    elim (k.path_exists t target) [
      | ok false ↦ make t
      | ok true ↦
          if k.is_dir t target
          then (ok tt, attempt k (umount target false) t)
          else make (attempt k (unlink target) t)
      | error e ↦ (ok tt, attempt k (umount target false) t)
      | abort ↦ (abort, t)
    ]

unfoldable pub bind_mount_to : Kernel → String → String → Trace → Result (Unit {0}) × Trace
bind_mount_to k target source t =
    and_then (clear_target k target t)
      (λ _ t₁. require k (bind_mount source target) (append "Could not bind-mount " source) t₁)

unfoldable pub is_valid_package_name : String → Bool
is_valid_package_name name = not (name == "sharedlibs")

-- Whether the version is mounted, and whether it is the latest, as the last mount of that version
-- tells.
unfoldable pub version_found :
    MountHost → Trace → ℤ → Bool × Bool → List (MountedApexData × Bool) → Bool × Bool
version_found h t version found [] = found
version_found h t version found ((m, latest) ∷ rest) =
    version_found h t version
      (elim (h.open_apex t m.full_path) [
        | ok other ↦ if int_eq other.version version then (true, latest) else found
        | error e ↦ found
        | abort ↦ found
      ])
      rest

-- An upgraded shim is verified again.
unfoldable pub verify_shim : MountHost → Trace → ApexFile → Result (Unit {0})
verify_shim h t apex =
    if is_shim_apex apex && not (is_pre_installed_apex h.repository apex)
    then h.verify_package_boot t apex
    else ok tt

-- The latest version is what the path of the package shows.
unfoldable pub bind_if_latest : MountHost → ApexFile → MountState → Result (Unit {0}) × MountState
bind_if_latest h apex s =
    if apex.manifest.provide_shared_apex_libs
    then (ok tt, s)
    else (let bound =
          do_if_latest s.mounted apex.name apex.apex_path
            (bind_mount_to h.kernel (get_active_mount_point apex.manifest)
              (get_package_mount_point apex.manifest))
            s.trace in
        (in_context "Failed to update package " bound.0, with_trace s bound.1))

-- What is left once it is known what is mounted.
unfoldable pub activate_unless_active :
    MountHost → ApexFile → String → Bool → Bool × Bool → MountState → Result (Unit {0}) × MountState
activate_unless_active h apex device_name reuse_device (found_mounted, found_active) s =
    if found_active && not apex.manifest.provide_shared_apex_libs
    then (ok tt, s)
    else if found_mounted
    then bind_if_latest h apex s
    else and_then
        (mount_package h apex (get_package_mount_point apex.manifest) device_name reuse_device false
          s)
        (λ m s₁. bind_if_latest h apex s₁)

unfoldable pub activate_package_impl :
    MountHost → ApexFile → String → Bool → MountState → Result (Unit {0}) × MountState
activate_package_impl h apex device_name reuse_device s =
    if not (is_valid_package_name apex.name)
    then (error "Package name is not allowed.", s)
    else and_then (verify_shim h s.trace apex, s)
        (λ _ s₁.
          activate_unless_active h apex device_name reuse_device
            (version_found h s₁.trace apex.version (false, false)
              (mounted_apexes_of s₁.mounted apex.name false))
            s₁)

unfoldable pub activate_package : MountHost → String → MountState → Result (Unit {0}) × MountState
activate_package h full_path s =
    and_then (h.open_apex s.trace full_path, s)
      (λ apex s₁. activate_package_impl h apex (get_package_id apex.manifest) false s₁)

unfoldable pub deactivate_package : MountHost → String → MountState → Result (Unit {0}) × MountState
deactivate_package h full_path s =
    and_then (h.open_apex s.trace full_path, s)
      (λ apex s₁. unmount_package h apex true false false s₁)
