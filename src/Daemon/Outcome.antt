-- ===== src/Daemon/Outcome.antt =====
-- What a revert leaves of every session.
use system_apex.Base.{
  String, true, Option, none, some, List, [], ◌∷◌, ok, ◌≡◌, refl, sym, subst, ◌∙◌, arith, find,
  is_some, map, is_ok, eq_refl,
}
use system_apex.Session.State.{State, ApexSession, set_state}
use system_apex.Session.Manager.{SessionDisk, SessionIo, update_state_and_commit}
use system_apex.Session.Persistence.{commit-ok}
use system_apex.Daemon.{Apexd, Host}
use system_apex.Daemon.Marks.{session_at, DistinctDirs, NoFault, find-commit_any, PresentIn}
use system_apex.Daemon.Snapshots.{
  restore_names, restore_in_dirs, restore_pre_restore_snapshots_if_present,
  restore_de_pre_restore_snapshots_if_present,
}
use system_apex.Daemon.Revert.{with_reasons, begin_reverts, mark_all, finish_reverts, undo_rollback}

pub dir-with_reasons :
    (c m : String) (s : ApexSession) → (with_reasons c m s).session_dir ≡ s.session_dir
unfolding with_reasons
dir-with_reasons c m s = ground arith

abbrev pub map_session : (ApexSession → ApexSession) → Option ApexSession → Option ApexSession
map_session f none = none
map_session f (some s) = some (f s)

pub session_at-map :
    (f : ApexSession → ApexSession) (ss : List ApexSession) (dir : String)
    → ((s : ApexSession) → (f s).session_dir ≡ s.session_dir)
    → session_at (map f ss) dir ≡ map_session f (session_at ss dir)
unfolding session_at
session_at-map f [] dir h = refl
session_at-map f (s ∷ ss) dir h = grind (arith, h s, session_at-map f ss dir h)

pub DistinctDirs-map :
    (f : ApexSession → ApexSession) (ss : List ApexSession)
    → ((s : ApexSession) → (f s).session_dir ≡ s.session_dir)
    → DistinctDirs ss
    → DistinctDirs (map f ss)
unfolding DistinctDirs
DistinctDirs-map f [] h d = tt
DistinctDirs-map f (s ∷ ss) h d =
    (session_at-map f ss (f s).session_dir h ∙ grind (arith, h s, d.0), DistinctDirs-map f ss h d.1)

pub session-commit :
    (io : SessionIo) (s : ApexSession) (st : State) (disk : SessionDisk)
    → (update_state_and_commit io s st disk).1 ≡ set_state s st
unfolding update_state_and_commit
session-commit io s st disk = ground arith

pub begin_reverts-mark_all :
    (io : SessionIo) (c m : String) (ss : List ApexSession) (disk : SessionDisk)
    → NoFault io
    → PresentIn disk ss
    → begin_reverts io c m ss disk ≡ (
      ok (map (λ s. set_state (with_reasons c m s) State.revert_in_progress) ss),
      mark_all io State.revert_in_progress (map (with_reasons c m) ss) disk,
    )
unfolding begin_reverts mark_all session_at
begin_reverts-mark_all io c m [] disk h p = refl
begin_reverts-mark_all io c m (s ∷ ss) disk h p =
    let r = with_reasons c m s in
    let disk₁ = (update_state_and_commit io r State.revert_in_progress disk).2 in
    let there : is_some (find disk s.session_dir) ≡ true =
      p s.session_dir (ground (arith, eq_refl s.session_dir)) in
    let done : (update_state_and_commit io r State.revert_in_progress disk).0 ≡ ok tt =
      commit-ok io r State.revert_in_progress disk s.session_dir (h _ _)
        (subst (λ d. is_some (find disk d) ≡ true) (sym (dir-with_reasons c m s)) there) in
    let present : PresentIn disk₁ ss =
      λ dir q. grind (arith, find-commit_any io r State.revert_in_progress disk dir h, p dir, q) in
    grind (
      arith,
      done,
      session-commit io r State.revert_in_progress disk,
      begin_reverts-mark_all io c m ss disk₁ h present,
    )

restore_names-sessions :
    (base : String) (id : _) (names : List String) (d : Apexd)
    → (restore_names base id names d).sessions ≡ d.sessions
unfolding restore_names
restore_names-sessions base id [] d = refl
restore_names-sessions base id (n ∷ ns) d = restore_names-sessions base id ns _

restore_here-sessions :
    (host : Host) (e : String) (s : ApexSession) (d : Apexd)
    → (restore_pre_restore_snapshots_if_present host e s d).sessions ≡ d.sessions
unfolding restore_pre_restore_snapshots_if_present
restore_here-sessions host e s d =
    ground (arith, restore_names-sessions e s.rollback_id s.apex_names d)

restore_in_dirs-sessions :
    (host : Host) (dirs : List String) (s : ApexSession) (d : Apexd)
    → (restore_in_dirs host dirs s d).sessions ≡ d.sessions
unfolding restore_in_dirs
restore_in_dirs-sessions host [] s d = refl
restore_in_dirs-sessions host (e ∷ dirs) s d =
    restore_in_dirs-sessions host dirs s _ ∙ restore_here-sessions host e s d

pub undo_rollback-sessions :
    (host : Host) (s : ApexSession) (d : Apexd) → (undo_rollback host s d).1.sessions ≡ d.sessions
unfolding undo_rollback restore_de_pre_restore_snapshots_if_present
undo_rollback-sessions host s d =
    grind (arith, restore_here-sessions host "/data/misc" s d, restore_in_dirs-sessions host)

undo_rollback-ok :
    (host : Host) (s : ApexSession) (d : Apexd)
    → is_ok host.de_user_dirs ≡ true
    → (undo_rollback host s d).0 ≡ ok tt
unfolding undo_rollback restore_de_pre_restore_snapshots_if_present
undo_rollback-ok host s d u = ground arith

pub finish_reverts-mark_all :
    (host : Host) (ss : List ApexSession) (d : Apexd)
    → is_ok host.de_user_dirs ≡ true
    → ((finish_reverts host ss d).0 ≡ ok tt)
      × ((finish_reverts host ss d).1.sessions
          ≡ mark_all host.session_io State.reverted ss d.sessions)
unfolding finish_reverts mark_all
finish_reverts-mark_all host [] d u = (refl, refl)
finish_reverts-mark_all host (s ∷ ss) d u =
    let d₁ : Apexd = record (undo_rollback host s d).1 {
      sessions =
          (update_state_and_commit host.session_io s State.reverted
            (undo_rollback host s d).1.sessions).2;
    } in
    let ih = finish_reverts-mark_all host ss d₁ u in
    grind (arith, undo_rollback-ok host s d u, undo_rollback-sessions host s d, ih)
