-- ===== src/Boot/Cleaned.antt =====
-- apexd/apexd.cpp: what `BootCompletedCleanup` leaves.
use system_apex.Base.{
  String, ◌≡◌, refl, sym, subst, Bool, true, false, not, ◌&&◌, none, List, [], ◌∷◌, find,
  if◌then◌else◌, arith, Bool-cases, inl, inr, Option, some,
}
use system_apex.Session.Cleanup.{Distinct, finalized_at, delete_finalized_sessions-exact}
use system_apex.Kernel.{Call, Trace, delete_device, require}
use system_apex.Mounting.Packages.{is_mounted}
use system_apex.Mounting.Verity.{delete_verity_device}
use system_apex.Boot.{BootHost, BootState}
use system_apex.Boot.Completed.{
  is_apex_device, is_suspended, delete_unused, delete_unused_verity_devices, boot_completed_cleanup,
}
use system_apex.Boot.Inactive.{is_data_apex, remove_inactive_data_apex-exact}

-- A trace that goes on from another by deletions alone: each is of a device that is suspended at that
-- point and whose name begins with that of a pre-installed package.
pub data DeletesSuspended (b : BootHost) (t : Trace) : Trace → Type 0 where
  nothing : DeletesSuspended b t t
  then_delete :
      (t' : Trace) (name : String) (done : Bool)
      → DeletesSuspended b t t'
      → is_suspended (b.mounting.kernel.dm_state t' name) ≡ true
      → is_apex_device b.mounting.repository name ≡ true
      → DeletesSuspended b t ((delete_device name false, done) ∷ t')

DeletesSuspended-trans :
    (b : BootHost) (t u v : Trace)
    → DeletesSuspended b t u
    → DeletesSuspended b u v
    → DeletesSuspended b t v
DeletesSuspended-trans b t u _ first nothing = first
DeletesSuspended-trans b t u _ first (then_delete v name done later suspended known) =
    then_delete v name done (DeletesSuspended-trans b t u v first later) suspended known

delete_unused-kept :
    (b : BootHost) (dev : String) (rest : List String) (t : Trace)
    → is_suspended (b.mounting.kernel.dm_state t dev) && is_apex_device b.mounting.repository dev
      ≡ false
    → delete_unused b (dev ∷ rest) t ≡ delete_unused b rest t
unfolding delete_unused
delete_unused-kept b dev rest t kept = rw kept refl

-- The call that deletes a device.
abbrev deletion : BootHost → String → Trace → Call × Bool
deletion b dev t = (delete_device dev false, b.mounting.kernel.succeeds t (delete_device dev false))

delete_unused-deleted :
    (b : BootHost) (dev : String) (rest : List String) (t : Trace)
    → is_suspended (b.mounting.kernel.dm_state t dev) && is_apex_device b.mounting.repository dev
      ≡ true
    → delete_unused b (dev ∷ rest) t ≡ delete_unused b rest (deletion b dev t ∷ t)
unfolding delete_unused delete_verity_device require
delete_unused-deleted b dev rest t unused = rw unused refl

DeletesSuspended-delete_unused :
    (b : BootHost) (devices : List String) (t : Trace)
    → DeletesSuspended b t (delete_unused b devices t)
DeletesSuspended-delete_unused b [] t = unfold delete_unused in nothing
DeletesSuspended-delete_unused b (dev ∷ rest) t =
    let suspended = is_suspended (b.mounting.kernel.dm_state t dev) in
    let known = is_apex_device b.mounting.repository dev in
    let call = deletion b dev t in
    elim (Bool-cases (suspended && known)) [
      | inr kept ↦
          subst (λ x. DeletesSuspended b t x) (sym (delete_unused-kept b dev rest t kept))
            (DeletesSuspended-delete_unused b rest t)
      | inl unused ↦
          subst (λ x. DeletesSuspended b t x) (sym (delete_unused-deleted b dev rest t unused))
            (DeletesSuspended-trans b t (call ∷ t) _
              (then_delete t dev call.1 nothing (ground (arith, unused)) (ground (arith, unused)))
              (DeletesSuspended-delete_unused b rest (call ∷ t)))
    ]

DeletesSuspended-delete_unused_verity_devices :
    (b : BootHost) (t : Trace) → DeletesSuspended b t (delete_unused_verity_devices b t)
unfolding delete_unused_verity_devices
DeletesSuspended-delete_unused_verity_devices b t = go (b.available_devices t) refl
  where
    go :
        (o : Option (List String))
        → b.available_devices t ≡ o
        → DeletesSuspended b t (delete_unused_verity_devices b t)
    go none e = rw (e, delete_unused_verity_devices) nothing
    go (some devices) e =
        rw (e, delete_unused_verity_devices) (DeletesSuspended-delete_unused b devices t)

-- Once the boot has completed, where the directories of sessions are distinct, all can be listed
-- and no removal of one fails. A file of the directory of active packages that ends in `.apex`, or
-- of the directory of decompressed packages that ends in `.decompressed.apex`, is gone if it is
-- not mounted and can be unlinked, and each other file has the contents that it had, as have all
-- files of a directory that cannot be listed. Exactly the directories of the finalized sessions
-- are gone. All that is asked of the kernel is to delete devices, each of them suspended when it
-- is deleted, and with a name that begins with that of a pre-installed package.
pub boot_completed_cleanup-exact :
    (b : BootHost) (s : BootState) (path dir : String)
    → b.host.session_io.walk_error ≡ none
    → ((d : String) → b.host.session_io.remove_error d ≡ none)
    → Distinct s.apexd.sessions
    → (find (boot_completed_cleanup b s).apexd.fs.files path ≡ (
        if is_data_apex b s.apexd.fs path
          && not (is_mounted s.mounts path)
          && not (b.host.file_io.unlink_fails path)
        then none
        else find s.apexd.fs.files path))
      × (find (boot_completed_cleanup b s).apexd.sessions dir
          ≡ (if finalized_at (find s.apexd.sessions dir) then none else find s.apexd.sessions dir))
      × DeletesSuspended b s.mounts.trace (boot_completed_cleanup b s).mounts.trace
unfolding boot_completed_cleanup
boot_completed_cleanup-exact b s path dir walked removed distinct = (
  remove_inactive_data_apex-exact b s.mounts s.apexd.fs path,
  delete_finalized_sessions-exact b.host.session_io s.apexd.sessions dir walked removed distinct,
  DeletesSuspended-delete_unused_verity_devices b s.mounts.trace,
)
