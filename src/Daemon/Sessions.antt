-- ===== src/Daemon/Sessions.antt =====
-- apexd/apexd.cpp: what PackageManager asks of one staged session.
use system_apex.Base.{
  ℕ, not, ◌&&◌, ◌||◌, Result, ok, error, if◌then◌else◌, and_then, in_context, or_message,
}
use system_apex.Session.State.{State, ApexSession, same_state}
use system_apex.Session.Manager.{get_session, delete_session, update_state_and_commit}
use system_apex.Daemon.{Apexd, Host}
use system_apex.Daemon.Backup.{delete_backup}
use system_apex.Daemon.Snapshots.{delete_de_pre_restore_snapshots}

-- `UpdateStateAndCommit` of a session that the caller does not use again.
unfoldable pub commit : Host → ApexSession → State → Apexd → Result (Unit {0}) × Apexd
commit host s st d =
    let c = update_state_and_commit host.session_io s st d.sessions in
    (c.0, record d { sessions = c.2 })

unfoldable pub abort_staged_session : Host → ℕ → Apexd → Result (Unit {0}) × Apexd
abort_staged_session host id d =
    and_then
      (or_message "No session found with id " (get_session host.session_manager d.sessions id), d)
      (λ s _.
        let deleted = delete_session host.session_io s d.sessions in
        if same_state s.state State.verified || same_state s.state State.staged
        then (deleted.0, record d { sessions = deleted.1 })
        else (error "Session can't be aborted", d))

unfoldable pub mark_staged_session_ready : Host → ℕ → Apexd → Result (Unit {0}) × Apexd
mark_staged_session_ready host id d =
    and_then (get_session host.session_manager d.sessions id, d)
      (λ s _.
        if same_state s.state State.staged
        then (ok tt, d)
        else if same_state s.state State.verified
        then commit host s State.staged d
        else (error "Invalid state for session. Cannot mark it as ready.", d))

-- The deletion of the snapshots of a rollback.
unfoldable pub drop_snapshots : Host → ApexSession → Apexd → Result (Unit {0}) × Apexd
drop_snapshots host s d =
    if s.is_rollback && not host.supports_fs_checkpoints
    then delete_de_pre_restore_snapshots host s d
    else (ok tt, d)

unfoldable pub mark_staged_session_successful : Host → ℕ → Apexd → Result (Unit {0}) × Apexd
mark_staged_session_successful host id d =
    and_then (get_session host.session_manager d.sessions id, d)
      (λ s _.
        if same_state s.state State.success
        then (ok tt, d)
        else if same_state s.state State.activated
        then (let cleaned = delete_backup host d.fs in
            and_then
              (
                in_context "Failed to mark session as successful : " cleaned.0,
                record d { fs = cleaned.1 },
              )
              (λ _ d₁.
                and_then (drop_snapshots host s d₁) (λ _ d₂. commit host s State.success d₂)))
        else (error "Session can not be marked successful", d))
