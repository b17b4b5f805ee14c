-- ===== src/Session/Manager.antt =====
-- `ApexSessionManager`, and the operations of `ApexSession` that touch the disk.
use Prim.Native.String.{◌++◌ as append}
use system_apex.Base.{
  ℕ, String, Bool, Option, none, some, List, [], ◌∷◌, Dict, find, assign, emplace, erase,
  if◌then◌else◌, take, keep_if, Result, ok, error, abort,
}
use system_apex.Text.{to_text}
use system_apex.Session.State.{
  State, SessionState, ApexSession, new_state, is_finalized, same_state, set_state,
}

-- The directories below the base directory, each with its file `state`; `none` where that file is
-- absent or does not parse.
abbrev pub SessionDisk : Type 0
SessionDisk = Dict (Option SessionState)

-- The answers of the operating system.
pub record SessionIo : Type 0 where
  -- The iteration over the base directory fails after so many entries.
  pub walk_error : Option ℕ
  pub create_dir : String → Bool
  -- A write of a state file that fails, and how the file then reads.
  pub write_error : String → SessionState → Option (Option SessionState)
  -- A removal of a directory that fails, and how its state file then reads.
  pub remove_error : String → Option (Option SessionState)

pub record ApexSessionManager : Type 0 where
  pub sessions_base_dir : String

unfoldable pub session_dir_path : String → ℕ → String
session_dir_path base id = append base (append "/" (to_text id))

-- `ParseSessionState`.
unfoldable pub parse_session_state : SessionDisk → String → Result SessionState
parse_session_state disk dir = elim (find disk dir) [
  | none ↦ error (append "Failed to open " (append dir "/state"))
  | some none ↦ error (append "Failed to parse " (append dir "/state"))
  | some (some state) ↦ ok state
]

unfoldable pub get_session_from_dir : SessionDisk → String → Result ApexSession
get_session_from_dir disk dir = elim (parse_session_state disk dir) [
  | ok state ↦ ok (record { message = state; session_dir = dir })
  | error e ↦ error e
  | abort ↦ abort
]

unfoldable pub create_session :
    SessionIo → ApexSessionManager → SessionDisk → ℕ → Result ApexSession × SessionDisk
create_session io m disk id =
    let dir = session_dir_path m.sessions_base_dir id in
    if io.create_dir dir
    then (ok (record { message = new_state id; session_dir = dir }), emplace disk dir none)
    else (error (append "Could not mkdir " dir), disk)

unfoldable pub get_session : ApexSessionManager → SessionDisk → ℕ → Result ApexSession
get_session m disk id = get_session_from_dir disk (session_dir_path m.sessions_base_dir id)

-- What `WalkDir` visits before it ends or fails.
unfoldable pub visited : Option ℕ → SessionDisk → SessionDisk
visited none disk = disk
visited (some n) disk = take n disk

-- The loop over the directories: those that do not parse are skipped.
unfoldable pub parse_all : SessionDisk → List ApexSession
parse_all [] = []
parse_all ((dir, none) ∷ rest) = parse_all rest
parse_all ((dir, some state) ∷ rest) =
    record { message = state; session_dir = dir } ∷ parse_all rest

unfoldable pub get_sessions : SessionIo → SessionDisk → List ApexSession
get_sessions io disk = parse_all (visited io.walk_error disk)

unfoldable pub get_sessions_in_state : SessionIo → SessionDisk → State → List ApexSession
get_sessions_in_state io disk st = keep_if (λ s. same_state s.state st) (get_sessions io disk)

abbrev commit_failed : String → String
commit_failed dir = append "Failed to write state file " dir

-- `UpdateStateAndCommit`: the session object has the new state also where the write fails. Where the
-- directory is gone the file cannot be opened.
unfoldable pub update_state_and_commit :
    SessionIo → ApexSession → State → SessionDisk → Result (Unit {0}) × ApexSession × SessionDisk
update_state_and_commit io s st disk =
    let s' = set_state s st in
    elim (find disk s.session_dir) [
      | none ↦ (error (commit_failed s.session_dir), s', disk)
      | some _ ↦ elim (io.write_error s.session_dir s'.message) [
        | none ↦ (ok tt, s', assign disk s.session_dir (some s'.message))
        | some left ↦ (error (commit_failed s.session_dir), s', assign disk s.session_dir left)
      ]
    ]

unfoldable pub delete_session :
    SessionIo → ApexSession → SessionDisk → Result (Unit {0}) × SessionDisk
delete_session io s disk = elim (io.remove_error s.session_dir) [
  | none ↦ (ok tt, erase disk s.session_dir)
  | some left ↦ (error (append "Failed to delete " s.session_dir), assign disk s.session_dir left)
]

-- The loop of `DeleteFinalizedSessions`; a failure is logged.
unfoldable pub delete_finalized : SessionIo → List ApexSession → SessionDisk → SessionDisk
delete_finalized io [] disk = disk
delete_finalized io (s ∷ rest) disk =
    delete_finalized io rest (if is_finalized s then (delete_session io s disk).1 else disk)

unfoldable pub delete_finalized_sessions : SessionIo → SessionDisk → SessionDisk
delete_finalized_sessions io disk = delete_finalized io (get_sessions io disk) disk
