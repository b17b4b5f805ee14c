-- ===== src/Examples/Sessions.antt =====
-- Two sessions on the disk: one that is activated, and one that has succeeded.
use system_apex.Base.{true, none, some, [], ◌∷◌, ◌≡◌, refl, find, ok}
use system_apex.Session.State.{State, SessionState, ApexSession, new_state, set_state}
use system_apex.Session.Manager.{
  SessionDisk, SessionIo, get_session_from_dir, update_state_and_commit,
}
use system_apex.Session.Persistence.{get_session_from_dir-commit}
use system_apex.Session.Cleanup.{Distinct}

abbrev pub activated_state : SessionState
activated_state = record (new_state 1) { state = State.activated }

abbrev pub success_state : SessionState
success_state = record (new_state 2) { state = State.success }

abbrev pub disk : SessionDisk
disk = ("/s/1", some activated_state) ∷ ("/s/2", some success_state) ∷ []

abbrev pub io : SessionIo
io = record {
  walk_error = none;
  create_dir = λ dir. true;
  write_error = λ dir m. none;
  remove_error = λ dir. none;
}

abbrev pub session : ApexSession
session = record { message = activated_state; session_dir = "/s/1" }

pub disk-Distinct : Distinct disk
unfolding find
disk-Distinct = (refl, (refl, tt))

get_session_from_dir-commit_example :
    get_session_from_dir (update_state_and_commit io session State.success disk).2 "/s/1"
    ≡ ok (set_state session State.success)
unfolding update_state_and_commit find
get_session_from_dir-commit_example =
    get_session_from_dir-commit io session State.success disk "/s/1" refl
