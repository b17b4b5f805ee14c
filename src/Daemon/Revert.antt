-- ===== src/Daemon/Revert.antt =====
-- apexd/apexd.cpp: the revert of the active sessions.
use system_apex.Base.{
  String, Bool, not, ◌&&◌, ◌||◌, List, [], ◌∷◌, Result, ok, error, abort, if◌then◌else◌, and_then,
  is_empty, keep_if, ◌==◌, in_context,
}
use system_apex.Session.State.{
  State, ApexSession, is_finalized, same_state, set_crashing_native_process, set_error_message,
}
use system_apex.Session.Manager.{
  SessionDisk, SessionIo, get_sessions, get_sessions_in_state, update_state_and_commit,
}
use system_apex.Daemon.{Apexd, Host}
use system_apex.Daemon.Backup.{restore_active_packages}
use system_apex.Daemon.Snapshots.{restore_de_pre_restore_snapshots_if_present}

-- Neither in a final state nor in none.
abbrev pub is_active : ApexSession → Bool
is_active s = not (is_finalized s || same_state s.state State.unknown)

-- The session with the reasons of the revert, where they are known.
unfoldable pub with_reasons : String → String → ApexSession → ApexSession
with_reasons crashing message s =
    let s' = if crashing == "" then s else set_crashing_native_process s crashing in
    if message == "" then s' else set_error_message s' message

-- The loop that marks the sessions before anything is restored: the first that fails ends it.
unfoldable pub begin_reverts :
    SessionIo
    → String
    → String
    → List ApexSession
    → SessionDisk
    → Result (List ApexSession) × SessionDisk
begin_reverts io crashing message [] disk = (ok [], disk)
begin_reverts io crashing message (s ∷ rest) disk =
    let c =
      update_state_and_commit io (with_reasons crashing message s) State.revert_in_progress disk in
    let later = begin_reverts io crashing message rest c.2 in
    and_then (in_context "Revert of session failed : " c.0, c.2)
      (λ _ _. and_then later (λ ss disk'. (ok (c.1 ∷ ss), disk')))

-- A loop of commits whose failures are logged.
unfoldable pub mark_all : SessionIo → State → List ApexSession → SessionDisk → SessionDisk
mark_all io st [] disk = disk
mark_all io st (s ∷ rest) disk = mark_all io st rest (update_state_and_commit io s st disk).2

-- The snapshots of a rollback are restored before it counts as reverted.
unfoldable pub undo_rollback : Host → ApexSession → Apexd → Result (Unit {0}) × Apexd
undo_rollback host s d =
    if not host.supports_fs_checkpoints && s.is_rollback
    then restore_de_pre_restore_snapshots_if_present host s d
    else (ok tt, d)

-- The last loop.
unfoldable pub finish_reverts : Host → List ApexSession → Apexd → Result (Unit {0}) × Apexd
finish_reverts host [] d = (ok tt, d)
finish_reverts host (s ∷ rest) d =
    let undone = undo_rollback host s d in
    let d₁ = undone.1 in
    let later = finish_reverts host rest (record d₁ {
      sessions = (update_state_and_commit host.session_io s State.reverted d₁.sessions).2;
    }) in
    and_then undone (λ _ _. later)

-- What is done about the packages between the two loops.
unfoldable pub restore_packages : Host → Apexd → Result (Unit {0}) × Apexd
restore_packages host d =
    if host.supports_fs_checkpoints
    then (ok tt, d)
    else (let r = restore_active_packages host d.fs in (r.0, record d { fs = r.1 }))

abbrev active_sessions : Host → Apexd → List ApexSession
active_sessions host d = keep_if is_active (get_sessions host.session_io d.sessions)

-- The part after the restoration of the packages.
unfoldable pub after_restore :
    Host → List ApexSession → Result (Unit {0}) × Apexd → Result (Unit {0}) × Apexd
after_restore host ss (ok _, d) = finish_reverts host ss d
after_restore host ss (error e, d) =
    (error e, record d { sessions = mark_all host.session_io State.revert_failed ss d.sessions })
after_restore host ss (abort, d) = (abort, d)

unfoldable pub restore_and_finish : Host → List ApexSession → Apexd → Result (Unit {0}) × Apexd
restore_and_finish host ss d = after_restore host ss (restore_packages host d)

unfoldable pub revert_active_sessions : Host → String → String → Apexd → Result (Unit {0}) × Apexd
revert_active_sessions host crashing message d =
    let active = active_sessions host d in
    if is_empty active
    then (error "Revert requested, when there are no active sessions.", d)
    else (let begun = begin_reverts host.session_io crashing message active d.sessions in
        and_then (begun.0, record d { sessions = begun.1 })
          (λ ss d₁. restore_and_finish host ss d₁))

unfoldable pub resume_revert_if_needed : Host → Apexd → Result (Unit {0}) × Apexd
resume_revert_if_needed host d =
    if is_empty (get_sessions_in_state host.session_io d.sessions State.revert_in_progress)
    then (ok tt, d)
    else revert_active_sessions host "" "" d
