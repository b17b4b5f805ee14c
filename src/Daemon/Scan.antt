-- ===== src/Daemon/Scan.antt =====
-- apexd/apexd.cpp: `ScanStagedSessionsDirAndStage`, which stages the packages of the staged sessions on
-- boot.
use Prim.Native.String.{◌++◌ as append}
use system_apex.Base.{
  ℕ, String, not, ◌&&◌, List, [], ◌∷◌, ◌++◌, Result, ok, error, abort, guard, ◌>>=◌, ◌>>◌,
  if◌then◌else◌, is_empty, ◌==◌, map, and_then,
}
use system_apex.Text.{to_text}
use system_apex.FileSystem.{FileSystem, find_files_by_suffix}
use system_apex.Session.State.{State, ApexSession, set_error_message}
use system_apex.Session.Manager.{get_sessions_in_state, update_state_and_commit}
use system_apex.Daemon.{Apexd, Host}
use system_apex.Daemon.Backup.{open_apex}
use system_apex.Daemon.Verify.{Verifier}
use system_apex.Daemon.Staging.{stage_packages}

-- With checkpoints of the file system an activated session is activated again, as /data may have been
-- put back.
unfoldable pub sessions_to_activate : Host → Apexd → List ApexSession
sessions_to_activate host d =
    get_sessions_in_state host.session_io d.sessions State.staged
    ++ (if host.supports_fs_checkpoints
        then get_sessions_in_state host.session_io d.sessions State.activated
        else [])

abbrev pub staged_dir : Host → ℕ → String
staged_dir host id = append host.staged_session_dir (append "/session_" (to_text id))

abbrev pub dirs_to_scan : Host → ApexSession → List String
dirs_to_scan host s =
    if is_empty s.child_session_ids
    then staged_dir host s.id ∷ []
    else map (staged_dir host) s.child_session_ids

-- The one package of a directory.
unfoldable pub only_apex : List String → Result String
only_apex [] = error "No APEX packages found"
only_apex (path ∷ []) = ok path
only_apex (path ∷ more ∷ rest) =
    error "More than one APEX package found in the same session directory"

unfoldable pub scan_dirs : Host → FileSystem → List String → Result (List String)
scan_dirs host fs [] = ok []
scan_dirs host fs (dir ∷ rest) = do
  scan ← find_files_by_suffix host.file_io fs dir (".apex" ∷ [])
  path ← only_apex scan
  later ← scan_dirs host fs rest
  ok (path ∷ later)

-- The packages of a session, or the message for why it is not activated.
unfoldable pub apexes_of_session : Host → FileSystem → ApexSession → Result (List String)
apexes_of_session host fs s = do
  guard (s.expected_build_fingerprint == host.build_fingerprint)
      "APEX build fingerprint has changed"
  guard (not (host.supports_fs_checkpoints && not host.in_fs_checkpoint_mode))
      "Cannot install apex session if not in fs-checkpoint mode"
  scan_dirs host fs (dirs_to_scan host s)

-- The names of the packages that open; the others are logged.
unfoldable pub staged_apex_names : Host → FileSystem → List String → List String
staged_apex_names host fs [] = []
staged_apex_names host fs (path ∷ rest) =
    let later = staged_apex_names host fs rest in
    elim (open_apex host fs path) [ ok apex ↦ apex.name ∷ later | error e ↦ later | abort ↦ later ]

-- The commits of a session that fails and of one that is activated: their failures are logged.
unfoldable pub session_failed : Host → ApexSession → String → Apexd → Apexd
session_failed host s message d = record d {
  sessions =
      (update_state_and_commit host.session_io (set_error_message s message) State.activation_failed
        d.sessions).2;
}

unfoldable pub session_activated : Host → ApexSession → List String → Apexd → Apexd
session_activated host s names d = record d {
  sessions = (update_state_and_commit host.session_io s State.activated d.sessions).2;
  changed_active_apexes = names ++ d.changed_active_apexes;
}

-- What follows the attempt to stage the packages.
unfoldable pub after_staging :
    Host
    → ApexSession
    → List String
    → Result (Unit {0}) × FileSystem
    → Apexd
    → Result (Unit {0}) × Apexd
after_staging host s names (ok _, fs) d =
    (ok tt, session_activated host s names (record d { fs = fs }))
after_staging host s names (error e, fs) d = (
  ok tt,
  session_failed host s (append "Activation failed for packages : " e) (record d { fs = fs }),
)
after_staging host s names (abort, fs) d = (abort, record d { fs = fs })

-- The body of the loop: it fails only where the process ends.
unfoldable pub stage_session : Host → Verifier → ApexSession → Apexd → Result (Unit {0}) × Apexd
stage_session host v s d = elim (apexes_of_session host d.fs s) [
  | error message ↦ (ok tt, session_failed host s message d)
  | abort ↦ (abort, d)
  | ok apexes ↦
      after_staging host s (staged_apex_names host d.fs apexes) (stage_packages host v apexes d.fs)
        d
]

unfoldable pub stage_sessions :
    Host → Verifier → List ApexSession → Apexd → Result (Unit {0}) × Apexd
stage_sessions host v [] d = (ok tt, d)
stage_sessions host v (s ∷ rest) d =
    let done = stage_session host v s d in
    let later = stage_sessions host v rest done.1 in and_then done (λ _ _. later)

unfoldable pub scan_staged_sessions_dir_and_stage :
    Host → Verifier → Apexd → Result (Unit {0}) × Apexd
scan_staged_sessions_dir_and_stage host v d = stage_sessions host v (sessions_to_activate host d) d
