-- ===== src/Daemon/Scanned.antt =====
-- What the staging on boot makes of the sessions.
use system_apex.Base.{
  String, Bool, true, false, ◌&&◌, ◌||◌, Option, none, some, List, [], ◌∷◌, ◌++◌, ok, if◌then◌else◌,
  is_some, keep_if, find, eq_iff, ◌==◌, ◌≡◌, refl, ◌∙◌, arith, inl, inr, Bool-cases, Result-cases,
}
use system_apex.Session.State.{State, SessionState, ApexSession, same_state}
use system_apex.Session.Manager.{
  SessionDisk, SessionIo, parse_all, get_sessions, get_sessions_in_state, visited,
}
use system_apex.Session.Cleanup.{Distinct}
use system_apex.Daemon.{Apexd, Host}
use system_apex.Daemon.Marks.{session_at, NoFault, find-commit_any}
use system_apex.Daemon.Untouched.{commit-other}
use system_apex.Daemon.Verify.{Verifier}
use system_apex.Daemon.Scan.{
  sessions_to_activate, session_failed, session_activated, after_staging, stage_session,
  stage_sessions, scan_staged_sessions_dir_and_stage,
}

abbrev pub state_passes : (State → Bool) → Option (Option SessionState) → Bool
state_passes p none = false
state_passes p (some none) = false
state_passes p (some (some m)) = p m.state

abbrev is_staged : State → Bool
is_staged st = same_state st State.staged

abbrev is_activated : State → Bool
is_activated st = same_state st State.activated

-- A session that is to be activated, with checkpoints of the file system or without, and one for which
-- it is decided whether it is.
abbrev pub waiting : Bool → Option (Option SessionState) → Bool
waiting checkpoints o = state_passes is_staged o || checkpoints && state_passes is_activated o

abbrev pub decided : Option (Option SessionState) → Bool
decided none = false
decided (some none) = false
decided (some (some m)) =
    same_state m.state State.activated || same_state m.state State.activation_failed

waiting-is_some :
    (b : Bool) (o : Option (Option SessionState)) → waiting b o ≡ true → is_some o ≡ true
waiting-is_some true none h = cc
waiting-is_some false none h = cc
waiting-is_some b (some m) h = refl

session_at-kept :
    (p : State → Bool) (disk : SessionDisk) (dir : String)
    → Distinct disk
    → is_some (session_at (keep_if (λ (s : ApexSession). p s.state) (parse_all disk)) dir)
      ≡ state_passes p (find disk dir)
unfolding session_at parse_all find
session_at-kept p [] dir d = refl
session_at-kept p ((e, none) ∷ rest) dir d =
    grind (arith, eq_iff e dir, session_at-kept p rest dir d.1)
session_at-kept p ((e, some m) ∷ rest) dir d =
    grind (arith, eq_iff e dir, session_at-kept p rest dir d.1)

session_at-append :
    (xs ys : List ApexSession) (dir : String)
    → is_some (session_at (xs ++ ys) dir)
      ≡ (is_some (session_at xs dir) || is_some (session_at ys dir))
unfolding session_at
session_at-append [] ys dir = refl
session_at-append (x ∷ xs) ys dir = ground (arith, session_at-append xs ys dir)

session_at-if :
    (b : Bool) (ss : List ApexSession) (dir : String)
    → is_some (session_at (if b then ss else []) dir) ≡ (b && is_some (session_at ss dir))
unfolding session_at
session_at-if true ss dir = refl
session_at-if false ss dir = refl

session_at-in_state :
    (io : SessionIo) (disk : SessionDisk) (st : State) (dir : String)
    → io.walk_error ≡ none
    → Distinct disk
    → is_some (session_at (get_sessions_in_state io disk st) dir)
      ≡ state_passes (λ x. same_state x st) (find disk dir)
unfolding get_sessions_in_state get_sessions visited
session_at-in_state io disk st dir w d =
    let all : visited io.walk_error disk ≡ disk = rw (w, visited) in
    rw (all) (session_at-kept (λ x. same_state x st) disk dir d)

session_at-to_activate :
    (host : Host) (d : Apexd) (dir : String)
    → host.session_io.walk_error ≡ none
    → Distinct d.sessions
    → is_some (session_at (sessions_to_activate host d) dir)
      ≡ waiting host.supports_fs_checkpoints (find d.sessions dir)
unfolding sessions_to_activate
session_at-to_activate host d dir w dd =
    let io = host.session_io in
    session_at-append (get_sessions_in_state io d.sessions State.staged)
      (if host.supports_fs_checkpoints
        then get_sessions_in_state io d.sessions State.activated
        else [])
      dir
    ∙ rw (
      session_at-if host.supports_fs_checkpoints
          (get_sessions_in_state io d.sessions State.activated) dir,
      session_at-in_state io d.sessions State.staged dir w dd,
      session_at-in_state io d.sessions State.activated dir w dd,
    )

module _ (host : Host) (v : Verifier) where
  stage_session-other :
      (s : ApexSession) (d : Apexd) (dir : String)
      → (s.session_dir == dir) ≡ false
      → find (stage_session host v s d).1.sessions dir ≡ find d.sessions dir
  unfolding stage_session after_staging session_failed session_activated
  stage_session-other s d dir n = grind (
    arith,
    n,
    commit-other host.session_io s State.activated d.sessions dir n,
    commit-other host.session_io,
  )

  stage_session-decided :
      (s : ApexSession) (d : Apexd) (dir : String)
      → NoFault host.session_io
      → (s.session_dir == dir) ≡ true
      → is_some (find d.sessions dir) ≡ true
      → (stage_session host v s d).0 ≡ ok tt
      → decided (find (stage_session host v s d).1.sessions dir) ≡ true
  unfolding stage_session after_staging session_failed session_activated
  stage_session-decided s d dir h e p k = grind (
    arith,
    e,
    p,
    find-commit_any host.session_io s State.activated d.sessions dir h,
    find-commit_any host.session_io,
    h,
  )

  stage_sessions-decided :
      (ss : List ApexSession) (d : Apexd) (dir : String)
      → NoFault host.session_io
      → is_some (find d.sessions dir) ≡ true
      → (is_some (session_at ss dir) || decided (find d.sessions dir)) ≡ true
      → (stage_sessions host v ss d).0 ≡ ok tt
      → decided (find (stage_sessions host v ss d).1.sessions dir) ≡ true
  unfolding stage_sessions session_at
  stage_sessions-decided [] d dir h p o k = o
  stage_sessions-decided (s ∷ ss) d dir h p o k =
      let d₁ = (stage_session host v s d).1 in
      elim (Result-cases (stage_session host v s d).0) [
        | inr bad ↦ absurd (grind (arith, bad, k))
        | inl (_, good) ↦ (elim (Bool-cases (s.session_dir == dir)) [
          | inl e ↦
              let made = stage_session-decided s d dir h e p good in
              let there : is_some (find d₁.sessions dir) ≡ true = grind (arith, made) in
              let ih = stage_sessions-decided ss d₁ dir h there (grind (arith, made)) in
              grind (arith, good, ih, k)
          | inr n ↦
              let same = stage_session-other s d dir n in
              let there : is_some (find d₁.sessions dir) ≡ true = grind (arith, same, p) in
              let ih = stage_sessions-decided ss d₁ dir h there (grind (arith, same, o, n)) in
              grind (arith, good, ih, k)
        ])
      ]

  stage_sessions-other :
      (ss : List ApexSession) (d : Apexd) (dir : String)
      → session_at ss dir ≡ none
      → find (stage_sessions host v ss d).1.sessions dir ≡ find d.sessions dir
  unfolding stage_sessions session_at
  stage_sessions-other [] d dir n = refl
  stage_sessions-other (s ∷ ss) d dir n =
      let d₁ = (stage_session host v s d).1 in
      let rest = stage_sessions-other ss d₁ dir (ground arith) in
      grind (arith, rest, stage_session-other s d dir (ground arith))

-- Where the session directories are distinct and can all be listed, and no write of a state file
-- fails, every session that waits to be activated is activated or marked as failed once the
-- staging on boot has ended.
pub scan_staged_sessions-decided :
    (host : Host) (v : Verifier) (d : Apexd) (dir : String)
    → host.session_io.walk_error ≡ none
    → NoFault host.session_io
    → Distinct d.sessions
    → waiting host.supports_fs_checkpoints (find d.sessions dir) ≡ true
    → (scan_staged_sessions_dir_and_stage host v d).0 ≡ ok tt
    → decided (find (scan_staged_sessions_dir_and_stage host v d).1.sessions dir) ≡ true
unfolding scan_staged_sessions_dir_and_stage
scan_staged_sessions-decided host v d dir w h dd o k =
    stage_sessions-decided host v (sessions_to_activate host d) d dir h
      (waiting-is_some host.supports_fs_checkpoints (find d.sessions dir) o)
      (ground (arith, session_at-to_activate host d dir w dd, o)) k

-- Where the session directories are distinct and can all be listed, the staging on boot leaves
-- alone every state file but those of the sessions that wait to be activated, whatever else fails.
pub scan_staged_sessions-untouched :
    (host : Host) (v : Verifier) (d : Apexd) (dir : String)
    → host.session_io.walk_error ≡ none
    → Distinct d.sessions
    → waiting host.supports_fs_checkpoints (find d.sessions dir) ≡ false
    → find (scan_staged_sessions_dir_and_stage host v d).1.sessions dir ≡ find d.sessions dir
unfolding scan_staged_sessions_dir_and_stage
scan_staged_sessions-untouched host v d dir w dd o =
    stage_sessions-other host v (sessions_to_activate host d) d dir
      (grind (arith, session_at-to_activate host d dir w dd, o))
