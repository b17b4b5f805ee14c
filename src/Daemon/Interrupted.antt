-- ===== src/Daemon/Interrupted.antt =====
-- The revert of a rollback where the user directories cannot be read.
use system_apex.Base.{
  String, true, false, none, some, List, ◌∷◌, ok, abort, ◌≡◌, subst, ◌∙◌, arith, find, is_some,
  is_ok, keep_if, map, eq_refl,
}
use system_apex.Session.State.{State, ApexSession, set_state}
use system_apex.Session.Manager.{parse_all, get_sessions, visited}
use system_apex.Session.Cleanup.{Distinct}
use system_apex.Daemon.{Apexd, Host}
use system_apex.Daemon.Backup.{restore_active_packages}
use system_apex.Daemon.Marks.{
  session_at, NoFault, find-mark_all, PresentIn, DistinctDirs-active, DistinctDirs,
  session_at-active,
}
use system_apex.Daemon.Snapshots.{restore_de_pre_restore_snapshots_if_present}
use system_apex.Daemon.Revert.{
  is_active, with_reasons, mark_all, undo_rollback, finish_reverts, restore_packages, after_restore,
  restore_and_finish, revert_active_sessions,
}
use system_apex.Daemon.Outcome.{
  begin_reverts-mark_all, DistinctDirs-map, dir-with_reasons, undo_rollback-sessions,
}
use system_apex.Daemon.Resume.{reverting}

undo_rollback_aborts :
    (host : Host) (s : ApexSession) (d : Apexd)
    → host.supports_fs_checkpoints ≡ false
    → s.is_rollback ≡ true
    → is_ok host.de_user_dirs ≡ false
    → (undo_rollback host s d).0 ≡ abort
unfolding undo_rollback restore_de_pre_restore_snapshots_if_present
undo_rollback_aborts host s d p r u = ground arith

finish_reverts_aborts :
    (host : Host) (s : ApexSession) (ss : List ApexSession) (d : Apexd)
    → (undo_rollback host s d).0 ≡ abort
    → ((finish_reverts host (s ∷ ss) d).0 ≡ abort)
      × ((finish_reverts host (s ∷ ss) d).1.sessions ≡ d.sessions)
unfolding finish_reverts
finish_reverts_aborts host s ss d h = grind (arith, h, undo_rollback-sessions host s d)

with_reasons-is_rollback :
    (c m : String) (s : ApexSession) → (with_reasons c m s).is_rollback ≡ s.is_rollback
unfolding with_reasons
with_reasons-is_rollback c m s = ground arith

-- The first loop on the sessions that were found, and what the first of them has then on the disk.
module _ (host : Host) (c m : String) (d : Apexd) (s : ApexSession) (ss : List ApexSession)
    (no_fault : NoFault host.session_io) (distinct : Distinct d.sessions)
    (found : keep_if is_active (parse_all d.sessions) ≡ s ∷ ss) where
  found-PresentIn : PresentIn d.sessions (s ∷ ss)
  found-PresentIn dir h = grind (arith, session_at-active d.sessions dir distinct, found, h)

  first_marked :
      reverting (
        find
          (mark_all host.session_io State.revert_in_progress
            (map (with_reasons c m) (s ∷ ss))
            d.sessions)
          s.session_dir)
      ≡ true
  unfolding session_at
  first_marked =
      let f = with_reasons c m in
      let dirs = subst (λ x. DistinctDirs x) found (DistinctDirs-active d.sessions distinct) in
      let there : is_some (find d.sessions s.session_dir) ≡ true =
        found-PresentIn s.session_dir (ground (arith, eq_refl s.session_dir)) in
      let at_first : session_at (map f (s ∷ ss)) s.session_dir ≡ some (f s) =
        grind (arith, eq_refl s.session_dir, dir-with_reasons c m s) in
      grind (
        arith,
        there,
        at_first,
        find-mark_all host.session_io State.revert_in_progress (map f (s ∷ ss)) d.sessions
            s.session_dir no_fault (DistinctDirs-map f (s ∷ ss) (dir-with_reasons c m) dirs),
      )

-- Where the active packages have been restored, without checkpoints of the file system, the revert
-- whose first active session is a rollback ends the process if the user directories cannot be
-- read, and leaves that session with its revert in progress.
pub revert_active_sessions_aborts :
    (host : Host) (crashing message : String) (d : Apexd) (s : ApexSession) (ss : List ApexSession)
    → host.session_io.walk_error ≡ none
    → NoFault host.session_io
    → Distinct d.sessions
    → keep_if is_active (parse_all d.sessions) ≡ s ∷ ss
    → s.is_rollback ≡ true
    → host.supports_fs_checkpoints ≡ false
    → (restore_active_packages host d.fs).0 ≡ ok tt
    → is_ok host.de_user_dirs ≡ false
    → ((revert_active_sessions host crashing message d).0 ≡ abort)
      × (reverting (find (revert_active_sessions host crashing message d).1.sessions s.session_dir)
          ≡ true)
unfolding revert_active_sessions restore_and_finish after_restore restore_packages get_sessions
    visited
revert_active_sessions_aborts host c m d s ss w h dd f r p good u =
    let b = λ (x : ApexSession). set_state (with_reasons c m x) State.revert_in_progress in
    let disk₁ =
      mark_all host.session_io State.revert_in_progress (map (with_reasons c m) (s ∷ ss))
        d.sessions in
    let begun =
      begin_reverts-mark_all host.session_io c m (s ∷ ss) d.sessions h
        (found-PresentIn host c m d s ss h dd f) in
    let d₂ : Apexd = record d { fs = (restore_active_packages host d.fs).1; sessions = disk₁ } in
    let stopped =
      finish_reverts_aborts host (b s) (map b ss) d₂
        (undo_rollback_aborts host (b s) d₂ p (with_reasons-is_rollback c m s ∙ r) u) in
    grind (arith, w, f, p, good, begun, stopped, first_marked host c m d s ss h dd f)
