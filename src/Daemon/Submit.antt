-- ===== src/Daemon/Submit.antt =====
-- apexd/apexd.cpp: `SubmitStagedSession`. The temporary mounts of the checks, all of which it takes down
-- again, are not part of the state.
use system_apex.Base.{
  ℕ, Bool, ◌&&◌, List, [], ◌∷◌, Result, ok, error, abort, guard, ◌>>=◌, ◌>>◌, if◌then◌else◌,
  and_then, is_empty, nat_eq, leb, length,
}
use system_apex.FileSystem.{FileSystem, find_files_by_suffix}
use system_apex.ApexFile.{ApexFile}
use system_apex.Session.State.{
  State, ApexSession, set_child_session_ids, set_build_fingerprint, set_has_rollback_enabled,
  set_is_rollback, set_rollback_id, add_apex_name,
}
use system_apex.Session.Manager.{create_session}
use system_apex.Daemon.{Apexd, Host}
use system_apex.Daemon.Backup.{backup_active_packages}
use system_apex.Daemon.Verify.{Verifier, verify_package_staged_install}
use system_apex.Daemon.Staging.{open_apex_files}
use system_apex.Daemon.Scan.{staged_dir}
use system_apex.Daemon.Sessions.{commit}

-- The loop of `VerifyPackages`.
unfoldable pub verify_each : Verifier → FileSystem → List ApexFile → Result (Unit {0})
verify_each v fs [] = ok tt
verify_each v fs (apex ∷ rest) = verify_package_staged_install v fs apex >> verify_each v fs rest

-- The first of the packages, which `OpenApexFiles` gives if there is one.
unfoldable pub first_apex : List ApexFile → Result ApexFile
first_apex [] = abort
first_apex (apex ∷ rest) = ok apex

unfoldable pub verify_session_dir : Host → Verifier → FileSystem → ℕ → Result ApexFile
verify_session_dir host v fs id = do
  scan ← find_files_by_suffix host.file_io fs (staged_dir host id) (".apex" ∷ [])
  guard (leb (length scan) 1) "More than one APEX package found in the same session directory."
  apexes ← open_apex_files host fs scan
  verify_each v fs apexes
  first_apex apexes

unfoldable pub verify_session_dirs : Host → Verifier → FileSystem → List ℕ → Result (List ApexFile)
verify_session_dirs host v fs [] = ok []
verify_session_dirs host v fs (id ∷ rest) = do
  apex ← verify_session_dir host v fs id
  later ← verify_session_dirs host v fs rest
  ok (apex ∷ later)

unfoldable pub add_apex_names : List ApexFile → ApexSession → ApexSession
add_apex_names [] s = s
add_apex_names (apex ∷ rest) s = add_apex_names rest (add_apex_name s apex.name)

-- What PackageManager submits of a session.
pub record Submission : Type 0 where
  pub session_id : ℕ
  pub child_session_ids : List ℕ
  pub has_rollback_enabled : Bool
  pub is_rollback : Bool
  pub rollback_id : ℕ

unfoldable pub fill_in : Host → Submission → List ApexFile → ApexSession → ApexSession
fill_in host sub apexes s =
    let s₁ = set_child_session_ids s sub.child_session_ids in
    let s₂ = set_build_fingerprint s₁ host.build_fingerprint in
    let s₃ = set_has_rollback_enabled s₂ sub.has_rollback_enabled in
    let s₄ = set_is_rollback s₃ sub.is_rollback in
    let s₅ = set_rollback_id s₄ sub.rollback_id in add_apex_names apexes s₅

-- The part after the verification of the packages.
unfoldable pub record_session :
    Host → Submission → List ApexFile → Apexd → Result (List ApexFile) × Apexd
record_session host sub apexes d =
    let created = create_session host.session_io host.session_manager d.sessions sub.session_id in
    and_then (created.0, record d { sessions = created.1 })
      (λ s d₁.
        and_then (commit host (fill_in host sub apexes s) State.verified d₁)
          (λ _ d₂. (ok apexes, d₂)))

unfoldable pub submit_staged_session :
    Host → Verifier → Submission → Apexd → Result (List ApexFile) × Apexd
submit_staged_session host v sub d =
    let backed_up =
      if host.supports_fs_checkpoints then (ok tt, d.fs) else backup_active_packages host d.fs in
    let ids_to_scan =
      if is_empty sub.child_session_ids then sub.session_id ∷ [] else sub.child_session_ids in
    if nat_eq sub.session_id 0
    then (error "Session id was not provided.", d)
    else and_then (backed_up.0, record d { fs = backed_up.1 })
        (λ _ d₁.
          and_then (verify_session_dirs host v d₁.fs ids_to_scan, d₁)
            (λ apexes _.
              if sub.has_rollback_enabled && sub.is_rollback
              then (error "Cannot set session as both a rollback and enabled for rollback.", d₁)
              else record_session host sub apexes d₁))
