-- ===== src/Boot/Shutdown.antt =====
-- apexd/apexd.cpp: all packages are unmounted, or mounted again.
use Prim.Native.String.{◌++◌ as append}
use system_apex.Base.{
  ℕ, String, Bool, true, false, not, ◌&&◌, List, [], ◌∷◌, Result, ok, error, abort, if◌then◌else◌,
  and_then, is_ok,
}
use system_apex.Text.{before_char, has_char, to_text}
use system_apex.Base.{length}
use system_apex.ApexFile.{ApexFile}
use system_apex.Database.{MountedApexData}
use system_apex.Database.Mounts.{all_mounted}
use system_apex.Database.Sysfs.{populate_from_mounts}
use system_apex.Kernel.{Trace, umount, perform}
use system_apex.Mounting.{MountHost, MountState}
use system_apex.Mounting.Unmount.{unmount}
use system_apex.Mounting.Activate.{activate_package, deactivate_package}
use system_apex.Boot.{BootHost}

-- The bind mount of the latest version goes first; its name is that of the mount point before the `@`.
unfoldable pub unmount_bind :
    MountHost → ApexFile → MountedApexData → Bool → Trace → Result Bool × Trace
unmount_bind h apex m latest t =
    if not (latest && not apex.manifest.provide_shared_apex_libs)
    then (ok true, t)
    else if not (has_char m.mount_point b'@')
    then (abort, t)
    else (let done = perform h.kernel (umount (before_char m.mount_point b'@') false) t in
        (ok done.0, done.1))

-- Whether all went well with one mount.
unfoldable pub unmount_one : MountHost → MountedApexData → Bool → Trace → Result Bool × Trace
unmount_one h m latest t = elim (h.open_apex t m.full_path) [
  | ok apex ↦
      and_then (unmount_bind h apex m latest t)
        (λ unbound t₁. let gone = unmount h m false t₁ in (ok (unbound && is_ok gone.0), gone.1))
  | error e ↦ (ok false, t)
  | abort ↦ (abort, t)
]

unfoldable pub unmount_each :
    MountHost → List (String × MountedApexData × Bool) → Trace → Result Bool × Trace
unmount_each h [] t = (ok true, t)
unmount_each h ((name, m, latest) ∷ rest) t =
    and_then (unmount_one h m latest t)
      (λ fine t₁. and_then (unmount_each h rest t₁) (λ later t₂. (ok (fine && later), t₂)))

-- The exit code.
unfoldable pub unmount_all : BootHost → MountState → Result ℕ × MountState
unmount_all b s =
    and_then (populate_from_mounts (b.sysfs s.trace) b.dirs s.mounted, s)
      (λ db s₁.
        let done = unmount_each b.mounting (all_mounted db.mounted_apexes false) s₁.trace in
        and_then (done.0, record { trace = done.1; mounted = db })
          (λ fine s₂. (ok (if fine then 0 else 1), s₂)))

unfoldable pub remount_apex_file : MountHost → String → MountState → Result (Unit {0}) × MountState
remount_apex_file h path s =
    and_then (deactivate_package h path s) (λ _ s₁. activate_package h path s₁)

unfoldable pub latest_paths : List (String × MountedApexData × Bool) → List String
latest_paths [] = []
latest_paths ((name, m, latest) ∷ rest) =
    let later = latest_paths rest in if latest then m.full_path ∷ later else later

-- The paths that could not be mounted again; the loop does not stop at one.
unfoldable pub remount_each :
    MountHost → List String → MountState → Result (List String) × MountState
remount_each h [] s = (ok [], s)
remount_each h (path ∷ rest) s =
    let res = remount_apex_file h path s in
    let later = remount_each h rest res.1 in
    elim res.0 [
      | ok u ↦ later
      | error e ↦ and_then later (λ failed s₂. (ok (path ∷ failed), s₂))
      | abort ↦ (abort, res.1)
    ]

abbrev pub remount_verdict : List String → Result (Unit {0})
remount_verdict [] = ok tt
remount_verdict (path ∷ rest) =
    error (append "Failed to remount following APEX packages: " (to_text (length (path ∷ rest))))

unfoldable pub remount_packages : MountHost → MountState → Result (Unit {0}) × MountState
remount_packages h s =
    and_then (remount_each h (latest_paths (all_mounted s.mounted.mounted_apexes false)) s)
      (λ failed s₁. (remount_verdict failed, s₁))
