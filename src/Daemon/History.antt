-- ===== src/Daemon/History.antt =====
-- Sequences of requests to the daemon: the final states of sessions are final.
use system_apex.Base.{
  ℕ, String, Bool, true, false, ◌&&◌, ◌||◌, Option, none, some, List, [], ◌∷◌, Result, ok, error,
  abort, ◌≡◌, refl, sym, ap, subst, ◌∙◌, arith, find, eq_iff, ◌==◌, and_then, and_then-keeps,
  if-keeps, find-erase, find-assign, or_message, in_context,
}
use system_apex.FileSystem.{FileSystem}
use system_apex.Session.State.{State, SessionState, ApexSession, same_state, final_state}
use system_apex.Session.Manager.{
  get_session, get_session_from_dir, parse_session_state, session_dir_path, delete_session,
}
use system_apex.Session.Cleanup.{Distinct, finalized_at}
use system_apex.Daemon.{Apexd, Host}
use system_apex.Daemon.Marks.{active_at}
use system_apex.Daemon.Backup.{delete_backup}
use system_apex.Daemon.Snapshots.{delete_de_pre_restore_snapshots, delete_in_dirs}
use system_apex.Daemon.Sessions.{
  commit, drop_snapshots, abort_staged_session, mark_staged_session_ready,
  mark_staged_session_successful,
}
use system_apex.Daemon.Revert.{revert_active_sessions, resume_revert_if_needed}
use system_apex.Daemon.DistinctDisk.{Distinct-commit, Distinct-delete_session, Distinct-revert}
use system_apex.Daemon.Untouched.{revert_active_sessions-untouched, commit-other}

-- The calls of the service that change sessions that exist.
pub data Request : Type 0 where
  abort_session mark_ready mark_successful : ℕ → Request
  revert : String → String → Request
  resume : Request

unfoldable pub serve : Host → Request → Apexd → Apexd
serve host (Request.abort_session id) d = (abort_staged_session host id d).1
serve host (Request.mark_ready id) d = (mark_staged_session_ready host id d).1
serve host (Request.mark_successful id) d = (mark_staged_session_successful host id d).1
serve host (Request.revert crashing message) d = (revert_active_sessions host crashing message d).1
serve host Request.resume d = (resume_revert_if_needed host d).1

unfoldable pub serve_all : Host → List Request → Apexd → Apexd
serve_all host [] d = d
serve_all host (r ∷ rs) d = serve_all host rs (serve host r d)

-- What each request keeps: the directories stay distinct, and a final state is not touched.
Keeps : Apexd → String → Apexd → Type 0
Keeps before dir after =
    Distinct after.sessions × (find after.sessions dir ≡ find before.sessions dir)

delete_in_dirs-sessions :
    (dirs : List String) (s : ApexSession) (d : Apexd)
    → (delete_in_dirs dirs s d).sessions ≡ d.sessions
unfolding delete_in_dirs
delete_in_dirs-sessions [] s d = refl
delete_in_dirs-sessions (e ∷ es) s d = delete_in_dirs-sessions es s _

drop_snapshots-sessions :
    (host : Host) (s : ApexSession) (d : Apexd) → (drop_snapshots host s d).1.sessions ≡ d.sessions
unfolding drop_snapshots delete_de_pre_restore_snapshots
drop_snapshots-sessions host s d = grind (arith, delete_in_dirs-sessions)

-- The session that the manager finds lies where it was looked for, as it is there.
get_session-found :
    (host : Host) (id : ℕ) (d : Apexd) (dir : String) {s : ApexSession}
    → get_session host.session_manager d.sessions id ≡ ok s
    → finalized_at (find d.sessions dir) ≡ true
    → final_state s.state ≡ false
    → (s.session_dir == dir) ≡ false
unfolding get_session get_session_from_dir parse_session_state
get_session-found host id d dir {s} g f n =
    grind (arith, eq_iff (session_dir_path host.session_manager.sessions_base_dir id) dir)

commit-Keeps :
    (host : Host) (s : ApexSession) (st : State) (d : Apexd) (dir : String)
    → Distinct d.sessions
    → (s.session_dir == dir) ≡ false
    → Keeps d dir (commit host s st d).1
unfolding Keeps commit
commit-Keeps host s st d dir dd n = (
  Distinct-commit host.session_io s st d.sessions dd,
  commit-other host.session_io s st d.sessions dir n,
)

delete-Keeps :
    (host : Host) (s : ApexSession) (d : Apexd) (dir : String)
    → Distinct d.sessions
    → (s.session_dir == dir) ≡ false
    → Keeps d dir (record d { sessions = (delete_session host.session_io s d.sessions).1 })
unfolding Keeps delete_session
delete-Keeps host s d dir dd n = (
  Distinct-delete_session host.session_io s d.sessions dd,
  grind (arith, find-erase, find-assign, n),
)

-- The states from which a request moves a session are not final.
abbrev is_open : State → Bool
is_open st =
    same_state st State.verified || same_state st State.staged || same_state st State.activated

open_or_final : (st : State) → (is_open st && final_state st) ≡ false
open_or_final State.unknown = refl
open_or_final State.verified = refl
open_or_final State.staged = refl
open_or_final State.activated = refl
open_or_final State.activation_failed = refl
open_or_final State.success = refl
open_or_final State.revert_in_progress = refl
open_or_final State.reverted = refl
open_or_final State.revert_failed = refl

final-not_active :
    (o : Option (Option SessionState)) (dir : String)
    → finalized_at o ≡ true
    → active_at o dir ≡ none
final-not_active none dir h = refl
final-not_active (some none) dir h = refl
final-not_active (some (some m)) dir h = ground arith

or_message-eq-ok :
    {A : Type 0} (e : String) (r : Result A) {a : A} → or_message e r ≡ ok a → r ≡ ok a
or_message-eq-ok e (ok b) h = h
or_message-eq-ok e (error f) h = cc
or_message-eq-ok e abort h = cc

-- The steps of a success, after the session is found to be activated.
succeed-Keeps :
    (host : Host) (s : ApexSession) (d : Apexd) (dir : String)
    (cleaned : Result (Unit {0}) × FileSystem)
    → Distinct d.sessions
    → (s.session_dir == dir) ≡ false
    → Keeps d dir
        (and_then
          (
            in_context "Failed to mark session as successful : " cleaned.0,
            record d { fs = cleaned.1 },
          )
          (λ _ d₁. and_then (drop_snapshots host s d₁) (λ _ d₂. commit host s State.success d₂))).1
unfolding Keeps
succeed-Keeps host s d dir cleaned dd n =
    let d₁ : Apexd = record d { fs = cleaned.1 } in
    let d₂ : Apexd = (drop_snapshots host s d₁).1 in
    let same : d₂.sessions ≡ d.sessions = drop_snapshots-sessions host s d₁ in
    let dd₂ : Distinct d₂.sessions = subst Distinct (sym same) dd in
    and_then-keeps (Keeps d dir)
      (in_context "Failed to mark session as successful : " cleaned.0, d₁)
      (λ _ x. and_then (drop_snapshots host s x) (λ _ y. commit host s State.success y)) (dd, refl)
      (λ _ _.
        and_then-keeps (Keeps d dir) (drop_snapshots host s d₁)
          (λ _ y. commit host s State.success y) (dd₂, ap (λ x. find x dir) same)
          (λ _ _.
            let k = commit-Keeps host s State.success d₂ dir dd₂ n in
            (k.0, k.1 ∙ ap (λ x. find x dir) same)))

module _ (host : Host) (id : ℕ) (d : Apexd) (dir : String) (distinct : Distinct d.sessions)
    (final : finalized_at (find d.sessions dir) ≡ true) where
  as_it_was : Keeps d dir d
  unfolding Keeps
  as_it_was = (distinct, refl)

  elsewhere :
      (s : ApexSession)
      → get_session host.session_manager d.sessions id ≡ ok s
      → is_open s.state ≡ true
      → (s.session_dir == dir) ≡ false
  elsewhere s g o = get_session-found host id d dir g final (ground (arith, open_or_final s.state))

  abort_staged_session-Keeps : Keeps d dir (abort_staged_session host id d).1
  unfolding abort_staged_session
  abort_staged_session-Keeps =
      and_then-keeps (Keeps d dir)
        (or_message "No session found with id " (get_session host.session_manager d.sessions id), d)
        _ as_it_was
        (λ s g.
          if-keeps (λ (x : Result (Unit {0}) × Apexd). Keeps d dir x.1)
            (same_state s.state State.verified || same_state s.state State.staged)
            (λ c.
              delete-Keeps host s d dir distinct
                (elsewhere s (or_message-eq-ok _ _ g) (ground arith)))
            (λ _. as_it_was))

  mark_staged_session_ready-Keeps : Keeps d dir (mark_staged_session_ready host id d).1
  unfolding mark_staged_session_ready
  mark_staged_session_ready-Keeps =
      and_then-keeps (Keeps d dir) (get_session host.session_manager d.sessions id, d) _ as_it_was
        (λ s g.
          if-keeps (λ (x : Result (Unit {0}) × Apexd). Keeps d dir x.1)
            (same_state s.state State.staged) (λ _. as_it_was)
            (λ _.
              if-keeps (λ (x : Result (Unit {0}) × Apexd). Keeps d dir x.1)
                (same_state s.state State.verified)
                (λ c.
                  commit-Keeps host s State.staged d dir distinct (elsewhere s g (ground arith)))
                (λ _. as_it_was)))

  mark_staged_session_successful-Keeps : Keeps d dir (mark_staged_session_successful host id d).1
  unfolding mark_staged_session_successful
  mark_staged_session_successful-Keeps =
      and_then-keeps (Keeps d dir) (get_session host.session_manager d.sessions id, d) _ as_it_was
        (λ s g.
          if-keeps (λ (x : Result (Unit {0}) × Apexd). Keeps d dir x.1)
            (same_state s.state State.success) (λ _. as_it_was)
            (λ _.
              if-keeps (λ (x : Result (Unit {0}) × Apexd). Keeps d dir x.1)
                (same_state s.state State.activated)
                (λ c.
                  succeed-Keeps host s d dir (delete_backup host d.fs) distinct
                    (elsewhere s g (ground arith)))
                (λ _. as_it_was)))

module _ (host : Host) (d : Apexd) (dir : String) (distinct : Distinct d.sessions)
    (final : finalized_at (find d.sessions dir) ≡ true) where
  revert_active_sessions-Keeps :
      (crashing message : String) → Keeps d dir (revert_active_sessions host crashing message d).1
  unfolding Keeps
  revert_active_sessions-Keeps c m = (
    Distinct-revert host c m d distinct,
    revert_active_sessions-untouched host c m d dir distinct
        (final-not_active (find d.sessions dir) dir final),
  )

  resume_revert_if_needed-Keeps : Keeps d dir (resume_revert_if_needed host d).1
  unfolding resume_revert_if_needed Keeps
  resume_revert_if_needed-Keeps =
      if-keeps (λ (x : Result (Unit {0}) × Apexd). Keeps d dir x.1) _ (λ _. (distinct, refl))
        (λ _. revert_active_sessions-Keeps "" "")

serve-Keeps :
    (host : Host) (r : Request) (d : Apexd) (dir : String)
    → Distinct d.sessions
    → finalized_at (find d.sessions dir) ≡ true
    → Keeps d dir (serve host r d)
unfolding serve
serve-Keeps host (Request.abort_session id) d dir dd f =
    abort_staged_session-Keeps host id d dir dd f
serve-Keeps host (Request.mark_ready id) d dir dd f =
    mark_staged_session_ready-Keeps host id d dir dd f
serve-Keeps host (Request.mark_successful id) d dir dd f =
    mark_staged_session_successful-Keeps host id d dir dd f
serve-Keeps host (Request.revert c m) d dir dd f = revert_active_sessions-Keeps host d dir dd f c m
serve-Keeps host Request.resume d dir dd f = resume_revert_if_needed-Keeps host d dir dd f

-- Where the session directories are distinct, a session in a final state stays as it is, through
-- any sequence of requests to abort sessions, to mark them as ready or successful, to revert and
-- to resume reverts, whatever write, removal or restoration fails.
pub serve_all-final :
    (host : Host) (rs : List Request) (d : Apexd) (dir : String)
    → Distinct d.sessions
    → finalized_at (find d.sessions dir) ≡ true
    → find (serve_all host rs d).sessions dir ≡ find d.sessions dir
unfolding serve_all Keeps
serve_all-final host [] d dir dd f = refl
serve_all-final host (r ∷ rs) d dir dd f =
    let k = serve-Keeps host r d dir dd f in
    serve_all-final host rs (serve host r d) dir k.0 (ap finalized_at k.1 ∙ f) ∙ k.1
