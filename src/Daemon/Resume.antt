-- ===== src/Daemon/Resume.antt =====
-- A revert that a reboot interrupted is completed on the next boot.
use system_apex.Base.{
  String, Bool, true, false, Option, none, some, List, [], ◌∷◌, ◌≡◌, refl, inl, inr, Bool-cases,
  arith, find, keep_if, is_ok, is_empty,
}
use system_apex.Session.State.{State, SessionState, ApexSession, same_state, final_state}
use system_apex.Session.Manager.{
  SessionDisk, parse_all, get_sessions, get_sessions_in_state, visited,
}
use system_apex.Session.Cleanup.{Distinct}
use system_apex.Daemon.{Apexd, Host}
use system_apex.Daemon.Marks.{NoFault, active_at, committed}
use system_apex.Daemon.Outcome.{map_session}
use system_apex.Daemon.Revert.{is_active, with_reasons, resume_revert_if_needed}
use system_apex.Daemon.Settled.{settled, revert_active_sessions-settled}

-- Whether a state file reads as a session whose revert is under way.
abbrev pub reverting : Option (Option SessionState) → Bool
reverting none = false
reverting (some none) = false
reverting (some (some m)) = same_state m.state State.revert_in_progress

abbrev in_progress : ApexSession → Bool
in_progress s = same_state s.state State.revert_in_progress

reverting_is_active :
    (st : State)
    → same_state st State.revert_in_progress ≡ true
    → (final_state st ≡ false) × (same_state st State.unknown ≡ false)
reverting_is_active State.revert_in_progress h = (refl, refl)
reverting_is_active State.unknown h = absurd (cc)
reverting_is_active State.verified h = absurd (cc)
reverting_is_active State.staged h = absurd (cc)
reverting_is_active State.activated h = absurd (cc)
reverting_is_active State.activation_failed h = absurd (cc)
reverting_is_active State.success h = absurd (cc)
reverting_is_active State.reverted h = absurd (cc)
reverting_is_active State.revert_failed h = absurd (cc)

reverting-none :
    (disk : SessionDisk) (dir : String)
    → is_empty (keep_if in_progress (parse_all disk)) ≡ true
    → reverting (find disk dir) ≡ false
unfolding parse_all find
reverting-none [] dir h = refl
reverting-none ((d, none) ∷ rest) dir h = ground (arith, reverting-none rest dir)
reverting-none ((d, some m) ∷ rest) dir h = ground (arith, reverting-none rest dir)

some_active :
    (ss : List ApexSession)
    → is_empty (keep_if in_progress ss) ≡ false
    → is_empty (keep_if is_active ss) ≡ false
some_active [] h = h
some_active (s ∷ ss) h = ground (arith, reverting_is_active s.state, some_active ss)

reverting-settled :
    (host : Host) (c m : String) (fs : _) (o : Option (Option SessionState)) (dir : String)
    → reverting (committed (settled host fs) (map_session (with_reasons c m) (active_at o dir)) o)
      ≡ false
unfolding settled
reverting-settled host c m fs none dir = refl
reverting-settled host c m fs (some none) dir = refl
reverting-settled host c m fs (some (some s)) dir = ground (arith, reverting_is_active s.state)

-- Where the session directories are distinct and can all be listed, no write of a state file fails
-- and the user directories can be read, no session is left with a revert in progress once the boot
-- has resumed the reverts.
pub resume_revert_if_needed-completes :
    (host : Host) (d : Apexd) (dir : String)
    → host.session_io.walk_error ≡ none
    → NoFault host.session_io
    → Distinct d.sessions
    → is_ok host.de_user_dirs ≡ true
    → reverting (find (resume_revert_if_needed host d).1.sessions dir) ≡ false
unfolding resume_revert_if_needed get_sessions_in_state get_sessions visited
resume_revert_if_needed-completes host d dir w f dd u =
    elim (Bool-cases (is_empty (keep_if in_progress (parse_all d.sessions)))) [
      | inl e ↦ grind (arith, w, e, reverting-none d.sessions dir e)
      | inr e ↦ grind (
        arith,
        w,
        e,
        revert_active_sessions-settled host "" "" d w f dd u dir
            (some_active (parse_all d.sessions) e),
        reverting-settled host "" "" d.fs (find d.sessions dir) dir,
      )
    ]
