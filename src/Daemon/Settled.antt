-- ===== src/Daemon/Settled.antt =====
-- The outcome of a revert: what it leaves of every session, and what it never touches.
use system_apex.Base.{
  String, Bool, true, false, ◌||◌, Option, none, some, List, [], ◌∷◌, Result, ok, error, abort,
  if◌then◌else◌, ◌≡◌, refl, ap, ◌∙◌, arith, find, keep_if, map, is_ok, is_empty,
}
use system_apex.FileSystem.{FileSystem, FileIo, remove_below, delete_dir_content}
use system_apex.Session.State.{State, SessionState, ApexSession, set_state}
use system_apex.Session.Manager.{parse_all, get_sessions, visited}
use system_apex.Session.Cleanup.{Distinct}
use system_apex.Daemon.{Apexd, Host}
use system_apex.Daemon.Backup.{restore_active_packages}
use system_apex.Daemon.Marks.{
  committed, NoFault, active_at, find-mark_all, session_at-active, DistinctDirs-active, PresentIn,
}
use system_apex.Daemon.Revert.{
  is_active, with_reasons, mark_all, restore_and_finish, after_restore, restore_packages,
  revert_active_sessions,
}
use system_apex.Daemon.Outcome.{
  begin_reverts-mark_all, finish_reverts-mark_all, DistinctDirs-map, session_at-map,
  dir-with_reasons, map_session,
}

-- The state in which a revert leaves the sessions.
unfoldable pub settled : Host → FileSystem → State
settled host fs =
    if host.supports_fs_checkpoints || is_ok (restore_active_packages host fs).0
    then State.reverted
    else State.revert_failed

-- A step that does not end the process.
abbrev settles : Result (Unit {0}) → Bool
settles (ok u) = true
settles (error e) = true
settles abort = false

remove_below-settles :
    (io : FileIo) (dir : String) (files : _) → settles (remove_below io dir files).0 ≡ true
unfolding remove_below
remove_below-settles io dir [] = refl
remove_below-settles io dir ((path, n) ∷ rest) = ground (arith, remove_below-settles io dir rest)

restore_active_packages-settles :
    (host : Host) (fs : FileSystem) → settles (restore_active_packages host fs).0 ≡ true
unfolding restore_active_packages delete_dir_content
restore_active_packages-settles host fs =
    grind (arith, remove_below-settles host.file_io host.active_apex_data_dir fs.files)

restore_and_finish-mark_all :
    (host : Host) (ss : List ApexSession) (d : Apexd)
    → is_ok host.de_user_dirs ≡ true
    → (restore_and_finish host ss d).1.sessions
      ≡ mark_all host.session_io (settled host d.fs) ss d.sessions
unfolding restore_and_finish restore_packages after_restore settled
restore_and_finish-mark_all host ss d u = grind (
  arith,
  restore_active_packages-settles host d.fs,
  finish_reverts-mark_all host ss d u,
  finish_reverts-mark_all host ss (record d { fs = (restore_active_packages host d.fs).1 }) u,
)

-- Both loops and what is between them, on the sessions that a scan found.
revert-mark_all :
    (host : Host) (crashing message : String) (ss : List ApexSession) (d : Apexd)
    → NoFault host.session_io
    → is_ok host.de_user_dirs ≡ true
    → PresentIn d.sessions ss
    → ss ≡ keep_if is_active (get_sessions host.session_io d.sessions)
    → is_empty ss ≡ false
    → (revert_active_sessions host crashing message d).1.sessions
      ≡ mark_all host.session_io
          (settled host d.fs)
          (map (λ s. set_state (with_reasons crashing message s) State.revert_in_progress) ss)
          (mark_all host.session_io State.revert_in_progress
            (map (with_reasons crashing message) ss)
            d.sessions)
unfolding revert_active_sessions
revert-mark_all host c m ss d h u p f e =
    let begun = begin_reverts-mark_all host.session_io c m ss d.sessions h p in
    let d₁ : Apexd = record d {
      sessions =
          mark_all host.session_io State.revert_in_progress (map (with_reasons c m) ss) d.sessions;
    } in
    let begun_ss = map (λ s. set_state (with_reasons c m s) State.revert_in_progress) ss in
    grind (arith, begun, f, e, restore_and_finish-mark_all host begun_ss d₁ u)

-- A session that both loops mark has the state of the second.
committed_twice :
    (st : State) (c m : String) (o : Option (Option SessionState)) (dir : String)
    → committed st
        (map_session
          (λ s. set_state (with_reasons c m s) State.revert_in_progress)
          (active_at o dir))
        (committed State.revert_in_progress (map_session (with_reasons c m) (active_at o dir)) o)
      ≡ committed st (map_session (with_reasons c m) (active_at o dir)) o
committed_twice st c m none dir = refl
committed_twice st c m (some none) dir = refl
committed_twice st c m (some (some s)) dir = ground arith

module _ (host : Host) (crashing message : String) (d : Apexd)
    (no_walk_error : host.session_io.walk_error ≡ none) (no_fault : NoFault host.session_io)
    (distinct : Distinct d.sessions) (user_dirs : is_ok host.de_user_dirs ≡ true) where
  active-PresentIn : PresentIn d.sessions (keep_if is_active (parse_all d.sessions))
  active-PresentIn dir h = grind (arith, session_at-active d.sessions dir distinct)

  -- Where the session directories are distinct and can all be listed, no write of a state file
  -- fails and the user directories can be read, a revert with an active session marks every active
  -- session, with the reasons of the revert, as reverted, or all of them as failed to revert where
  -- the packages could not be restored; no other state file changes.
  pub revert_active_sessions-settled :
      (dir : String)
      → is_empty (keep_if is_active (parse_all d.sessions)) ≡ false
      → find (revert_active_sessions host crashing message d).1.sessions dir
        ≡ committed
            (settled host d.fs)
            (map_session (with_reasons crashing message) (active_at (find d.sessions dir) dir))
            (find d.sessions dir)
  unfolding get_sessions visited
  revert_active_sessions-settled dir h =
      let f = with_reasons crashing message in
      let ss = keep_if is_active (parse_all d.sessions) in
      let dd = DistinctDirs-active d.sessions distinct in
      let found : ss ≡ keep_if is_active (get_sessions host.session_io d.sessions) =
        rw (no_walk_error, get_sessions, visited) in
      let all_marks =
        revert-mark_all host crashing message ss d no_fault user_dirs active-PresentIn found h in
      let b = λ (s : ApexSession). set_state (f s) State.revert_in_progress in
      let f-dir = dir-with_reasons crashing message in
      ap (λ x. find x dir) all_marks
      ∙ find-mark_all host.session_io (settled host d.fs) (map b ss)
          (mark_all host.session_io State.revert_in_progress (map f ss) d.sessions) dir no_fault
          (DistinctDirs-map b ss f-dir dd)
      ∙ rw
          (
            find-mark_all host.session_io State.revert_in_progress (map f ss) d.sessions dir
                no_fault (DistinctDirs-map f ss f-dir dd),
            session_at-map b ss dir f-dir,
            session_at-map f ss dir f-dir,
            session_at-active d.sessions dir distinct,
          )
          (committed_twice (settled host d.fs) crashing message (find d.sessions dir) dir)
