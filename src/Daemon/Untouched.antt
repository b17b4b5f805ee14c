-- ===== src/Daemon/Untouched.antt =====
-- What a revert never touches, whatever fails.
use system_apex.Base.{
  String, false, Option, none, some, List, [], ◌∷◌, ok, ◌≡◌, refl, inl, inr, Result-cases, ◌∙◌,
  arith, find, eq_iff, ◌==◌, keep_if, ℕ, zero, suc, take,
}
use system_apex.Session.State.{State, ApexSession}
use system_apex.Session.Manager.{
  SessionDisk, SessionIo, parse_all, get_sessions, visited, update_state_and_commit,
}
use system_apex.Session.Cleanup.{Distinct}
use system_apex.Session.Persistence.{find-commit_other}
use system_apex.Daemon.{Apexd, Host}
use system_apex.Daemon.Marks.{session_at, active_at, session_at-active}
use system_apex.Daemon.Revert.{
  is_active, with_reasons, begin_reverts, mark_all, finish_reverts, restore_and_finish,
  after_restore, restore_packages, revert_active_sessions, undo_rollback,
}
use system_apex.Daemon.Outcome.{dir-with_reasons, undo_rollback-sessions, session-commit}

pub commit-other :
    (io : SessionIo) (s : ApexSession) (st : State) (disk : SessionDisk) (dir : String)
    → (s.session_dir == dir) ≡ false
    → find (update_state_and_commit io s st disk).2 dir ≡ find disk dir
commit-other io s st disk dir h =
    find-commit_other io s st disk dir (λ e. absurd (ground (arith, eq_iff s.session_dir dir, e)))

mark_all-other :
    (io : SessionIo) (st : State) (ss : List ApexSession) (disk : SessionDisk) (dir : String)
    → session_at ss dir ≡ none
    → find (mark_all io st ss disk) dir ≡ find disk dir
unfolding mark_all session_at
mark_all-other io st [] disk dir h = refl
mark_all-other io st (s ∷ ss) disk dir h =
    mark_all-other io st ss _ dir (ground arith) ∙ commit-other io s st disk dir (ground arith)

begin_reverts-other :
    (io : SessionIo) (c m : String) (ss : List ApexSession) (disk : SessionDisk) (dir : String)
    → session_at ss dir ≡ none
    → find (begin_reverts io c m ss disk).1 dir ≡ find disk dir
unfolding begin_reverts session_at
begin_reverts-other io c m [] disk dir h = refl
begin_reverts-other io c m (s ∷ ss) disk dir h =
    let r = with_reasons c m s in
    let disk₁ = (update_state_and_commit io r State.revert_in_progress disk).2 in
    grind (
      arith,
      dir-with_reasons c m s,
      begin_reverts-other io c m ss disk₁ dir (ground arith),
      commit-other io r State.revert_in_progress disk dir (ground (arith, dir-with_reasons c m s)),
    )

begin_reverts-dirs :
    (io : SessionIo) (c m : String) (ss : List ApexSession) (disk : SessionDisk) (dir : String)
    {ts : List ApexSession}
    → session_at ss dir ≡ none
    → (begin_reverts io c m ss disk).0 ≡ ok ts
    → session_at ts dir ≡ none
unfolding begin_reverts session_at
begin_reverts-dirs io c m [] disk dir h e = ground arith
begin_reverts-dirs io c m (s ∷ ss) disk dir {ts} h e =
    let r = with_reasons c m s in
    let disk₁ = (update_state_and_commit io r State.revert_in_progress disk).2 in
    elim (Result-cases (begin_reverts io c m ss disk₁).0) [
      | inl (us, q) ↦ grind (
        arith,
        q,
        dir-with_reasons c m s,
        session-commit io r State.revert_in_progress disk,
        begin_reverts-dirs io c m ss disk₁ dir (ground arith) q,
      )
      | inr q ↦ absurd (grind (arith, q))
    ]

finish_reverts-other :
    (host : Host) (ss : List ApexSession) (d : Apexd) (dir : String)
    → session_at ss dir ≡ none
    → find (finish_reverts host ss d).1.sessions dir ≡ find d.sessions dir
unfolding finish_reverts session_at
finish_reverts-other host [] d dir h = refl
finish_reverts-other host (s ∷ ss) d dir h =
    let d₁ : Apexd = record (undo_rollback host s d).1 {
      sessions =
          (update_state_and_commit host.session_io s State.reverted
            (undo_rollback host s d).1.sessions).2;
    } in
    grind (
      arith,
      undo_rollback-sessions host s d,
      finish_reverts-other host ss d₁ dir (ground arith),
      commit-other host.session_io s State.reverted d.sessions dir (ground arith),
    )

session_at-take :
    (n : ℕ) (disk : SessionDisk) (dir : String)
    → session_at (keep_if is_active (parse_all disk)) dir ≡ none
    → session_at (keep_if is_active (parse_all (take n disk))) dir ≡ none
unfolding parse_all session_at
session_at-take zero disk dir h = refl
session_at-take (suc n) [] dir h = refl
session_at-take (suc n) ((d, none) ∷ rest) dir h = session_at-take n rest dir h
session_at-take (suc n) ((d, some m) ∷ rest) dir h = ground (arith, session_at-take n rest dir)

session_at-visited :
    (limit : Option ℕ) (disk : SessionDisk) (dir : String)
    → session_at (keep_if is_active (parse_all disk)) dir ≡ none
    → session_at (keep_if is_active (parse_all (visited limit disk))) dir ≡ none
unfolding visited
session_at-visited none disk dir h = h
session_at-visited (some n) disk dir h = session_at-take n disk dir h

restore_and_finish-other :
    (host : Host) (ss : List ApexSession) (d : Apexd) (dir : String)
    → session_at ss dir ≡ none
    → find (restore_and_finish host ss d).1.sessions dir ≡ find d.sessions dir
unfolding restore_and_finish restore_packages after_restore
restore_and_finish-other host ss d dir h = grind (
  arith,
  mark_all-other host.session_io State.revert_failed ss d.sessions dir h,
  finish_reverts-other host ss (restore_packages host d).1 dir h,
)

-- Where the session directories are distinct, a revert leaves alone the state file of a session
-- that is in a final state or in none, and a state file that does not parse, whatever write or
-- restoration fails, also where the process ends.
pub revert_active_sessions-untouched :
    (host : Host) (crashing message : String) (d : Apexd) (dir : String)
    → Distinct d.sessions
    → active_at (find d.sessions dir) dir ≡ none
    → find (revert_active_sessions host crashing message d).1.sessions dir ≡ find d.sessions dir
unfolding revert_active_sessions get_sessions
revert_active_sessions-untouched host c m d dir dd h =
    let ss = keep_if is_active (parse_all (visited host.session_io.walk_error d.sessions)) in
    let alone : session_at ss dir ≡ none =
      session_at-visited host.session_io.walk_error d.sessions dir
        (session_at-active d.sessions dir dd ∙ h) in
    let d₁ : Apexd = record d { sessions = (begin_reverts host.session_io c m ss d.sessions).1 } in
    elim (Result-cases (begin_reverts host.session_io c m ss d.sessions).0) [
      | inl (ts, q) ↦ grind (
        arith,
        q,
        begin_reverts-other host.session_io c m ss d.sessions dir alone,
        restore_and_finish-other host ts d₁ dir
            (begin_reverts-dirs host.session_io c m ss d.sessions dir alone q),
      )
      | inr q ↦ grind (arith, q, begin_reverts-other host.session_io c m ss d.sessions dir alone)
    ]
