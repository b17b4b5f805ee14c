-- ===== src/Session/Persistence.antt =====
-- What a commit of a session leaves on the disk.
use system_apex.Base.{
  String, ◌≡◌, ◌≢◌, true, none, some, ok, arith, find, find-assign, eq_iff, ◌==◌, if◌then◌else◌,
  is_some,
}
use system_apex.Session.State.{State, ApexSession, set_state}
use system_apex.Session.Manager.{
  SessionDisk, SessionIo, parse_session_state, get_session_from_dir, update_state_and_commit,
}

module _ (io : SessionIo) (s : ApexSession) (st : State) (disk : SessionDisk) (dir : String) where
  -- After a successful commit a session's directory reads back as the session in its new state,
  -- and every other directory reads as it did.
  pub get_session_from_dir-commit :
      (update_state_and_commit io s st disk).0 ≡ ok tt
      → get_session_from_dir (update_state_and_commit io s st disk).2 dir
        ≡ (if s.session_dir == dir then ok (set_state s st) else get_session_from_dir disk dir)
  unfolding update_state_and_commit get_session_from_dir parse_session_state
  get_session_from_dir-commit h = ground (
    arith,
    eq_iff s.session_dir dir,
    find-assign disk s.session_dir dir (some (set_state s st).message),
  )

  -- A commit, also one that fails, changes the entry of no other directory.
  pub find-commit_other :
      s.session_dir ≢ dir → find (update_state_and_commit io s st disk).2 dir ≡ find disk dir
  unfolding update_state_and_commit
  find-commit_other h = grind (arith, eq_iff s.session_dir dir, find-assign)

  -- Where no write fails and the directory is there, the commit succeeds.
  pub commit-ok :
      io.write_error s.session_dir (set_state s st).message ≡ none
      → is_some (find disk s.session_dir) ≡ true
      → (update_state_and_commit io s st disk).0 ≡ ok tt
  unfolding update_state_and_commit
  commit-ok h k = ground arith
