-- ===== src/Mounting/Unmount.antt =====
-- apexd/apexd.cpp: `Unmount`.
use Prim.Native.String.{◌++◌ as append}
use system_apex.Base.{
  String, Bool, true, false, not, ◌&&◌, Result, ok, error, if◌then◌else◌, and_then, ◌==◌,
}
use system_apex.Database.{MountedApexData}
use system_apex.Kernel.{Trace, Errno, einval, enoent, umount, rmdir, perform, attempt}
use system_apex.Loop.{LoopHost, destroy_loop_device}
use system_apex.Mounting.{MountHost}
use system_apex.Mounting.Verity.{delete_verity_device}

-- EINVAL or ENOENT: nothing was mounted.
abbrev pub nothing_mounted : Errno → Bool
nothing_mounted einval = true
nothing_mounted enoent = true
nothing_mounted _ = false

unfoldable pub destroy_named : LoopHost → String → Trace → Trace
destroy_named h name t = if name == "" then t else destroy_loop_device h name t

unfoldable pub free_devices : MountHost → MountedApexData → Bool → Trace → Result (Unit {0}) × Trace
free_devices h m deferred t =
    and_then
      (if m.device_name == ""
        then (ok tt, t)
        else delete_verity_device h.kernel m.device_name deferred t)
      (λ _ t₁. (
        ok tt,
        if deferred
            then t₁
            else destroy_named h.loops m.hashtree_loop_name (destroy_named h.loops m.loop_name t₁),
      ))

unfoldable pub unmount : MountHost → MountedApexData → Bool → Trace → Result (Unit {0}) × Trace
unmount h m deferred t =
    let k = h.kernel in
    let done = perform k (umount m.mount_point false) t in
    if not done.0 && not (nothing_mounted (k.errno t (umount m.mount_point false)))
    then (error (append "Failed to unmount directory " m.mount_point), done.1)
    else free_devices h m deferred
        (if deferred then done.1 else attempt k (rmdir m.mount_point) done.1)
