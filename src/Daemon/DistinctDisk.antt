-- ===== src/Daemon/DistinctDisk.antt =====
-- No operation on sessions makes two entries of one directory.
use system_apex.Base.{
  String, Option, none, some, List, [], ◌∷◌, Result, ok, error, abort, ◌≡◌, refl, sym, subst, inl,
  inr, Bool-cases, arith, find, assign, erase, find-assign, find-erase, eq_iff, ◌==◌, Option-cases,
  if-keeps, keep_if, is_empty, and_then-keeps, in_context,
}
use system_apex.Session.State.{State, SessionState, ApexSession, set_state}
use system_apex.Session.Manager.{
  SessionDisk, SessionIo, get_sessions, update_state_and_commit, delete_session,
}
use system_apex.Session.Cleanup.{Distinct}
use system_apex.Daemon.{Apexd, Host}
use system_apex.Daemon.Outcome.{undo_rollback-sessions}
use system_apex.Daemon.Revert.{
  begin_reverts, mark_all, finish_reverts, restore_and_finish, after_restore, is_active,
  restore_packages, revert_active_sessions, with_reasons, undo_rollback,
}

Distinct-assign :
    (disk : SessionDisk) (k : String) (v : Option SessionState)
    → Distinct disk
    → Distinct (assign disk k v)
unfolding assign find
Distinct-assign [] k v d = (refl, tt)
Distinct-assign ((j, w) ∷ rest) k v d = elim (Bool-cases (j == k)) [
  | inl e ↦ rw (e) (subst (λ x. find rest x ≡ none) ((eq_iff j k).0 e) d.0, d.1)
  | inr e ↦ rw (e) (
    ground (arith, eq_iff k j, eq_iff j k, find-assign rest k j v, d.0),
    Distinct-assign rest k v d.1,
  )
]

Distinct-erase : (disk : SessionDisk) (k : String) → Distinct disk → Distinct (erase disk k)
unfolding erase
Distinct-erase [] k d = tt
Distinct-erase ((j, w) ∷ rest) k d = elim (Bool-cases (j == k)) [
  | inl e ↦ rw (e) (Distinct-erase rest k d.1)
  | inr e ↦ rw (e) (ground (arith, find-erase rest k j, d.0), Distinct-erase rest k d.1)
]

pub Distinct-commit :
    (io : SessionIo) (s : ApexSession) (st : State) (disk : SessionDisk)
    → Distinct disk
    → Distinct (update_state_and_commit io s st disk).2
unfolding update_state_and_commit
Distinct-commit io s st disk d =
    let m' = (set_state s st).message in
    elim (Option-cases (find disk s.session_dir)) [
      | inl e ↦
          let kept : (update_state_and_commit io s st disk).2 ≡ disk = ground arith in
          subst Distinct (sym kept) d
      | inr (_, e) ↦ (elim (Option-cases (io.write_error s.session_dir m')) [
        | inl f ↦
            let written : (update_state_and_commit io s st disk).2
                ≡ assign disk s.session_dir (some m') =
              ground arith in
            subst Distinct (sym written) (Distinct-assign disk s.session_dir (some m') d)
        | inr (left, f) ↦
            let written : (update_state_and_commit io s st disk).2
                ≡ assign disk s.session_dir left =
              ground arith in
            subst Distinct (sym written) (Distinct-assign disk s.session_dir left d)
      ])
    ]

pub Distinct-delete_session :
    (io : SessionIo) (s : ApexSession) (disk : SessionDisk)
    → Distinct disk
    → Distinct (delete_session io s disk).1
unfolding delete_session
Distinct-delete_session io s disk d = elim (Option-cases (io.remove_error s.session_dir)) [
  | inl e ↦
      let gone : (delete_session io s disk).1 ≡ erase disk s.session_dir = ground arith in
      subst Distinct (sym gone) (Distinct-erase disk s.session_dir d)
  | inr (left, e) ↦
      let kept : (delete_session io s disk).1 ≡ assign disk s.session_dir left = ground arith in
      subst Distinct (sym kept) (Distinct-assign disk s.session_dir left d)
]

Distinct-mark_all :
    (io : SessionIo) (st : State) (ss : List ApexSession) (disk : SessionDisk)
    → Distinct disk
    → Distinct (mark_all io st ss disk)
unfolding mark_all
Distinct-mark_all io st [] disk d = d
Distinct-mark_all io st (s ∷ ss) disk d =
    Distinct-mark_all io st ss _ (Distinct-commit io s st disk d)

Distinct-begin_reverts :
    (io : SessionIo) (c m : String) (ss : List ApexSession) (disk : SessionDisk)
    → Distinct disk
    → Distinct (begin_reverts io c m ss disk).1
unfolding begin_reverts
Distinct-begin_reverts io c m [] disk d = d
Distinct-begin_reverts io c m (s ∷ ss) disk d =
    let r = with_reasons c m s in
    let done = update_state_and_commit io r State.revert_in_progress disk in
    let d₁ = Distinct-commit io r State.revert_in_progress disk d in
    let d₂ = Distinct-begin_reverts io c m ss done.2 d₁ in
    and_then-keeps Distinct (in_context "Revert of session failed : " done.0, done.2) _ d₁
      (λ _ _. and_then-keeps Distinct (begin_reverts io c m ss done.2) _ d₂ (λ _ _. d₂))

Distinct-finish_reverts :
    (host : Host) (ss : List ApexSession) (d : Apexd)
    → Distinct d.sessions
    → Distinct (finish_reverts host ss d).1.sessions
unfolding finish_reverts
Distinct-finish_reverts host [] d h = h
Distinct-finish_reverts host (s ∷ ss) d h =
    let undone = (undo_rollback host s d).1 in
    let d₀ : Distinct undone.sessions = subst Distinct (sym (undo_rollback-sessions host s d)) h in
    let d₁ : Apexd = record undone {
      sessions = (update_state_and_commit host.session_io s State.reverted undone.sessions).2;
    } in
    and_then-keeps (λ x. Distinct x.sessions) (undo_rollback host s d)
      (λ _ _. finish_reverts host ss d₁) d₀
      (λ _ _.
        Distinct-finish_reverts host ss d₁
          (Distinct-commit host.session_io s State.reverted undone.sessions d₀))

Distinct-after_restore :
    (host : Host) (ss : List ApexSession) (r : Result (Unit {0})) (d : Apexd)
    → Distinct d.sessions
    → Distinct (after_restore host ss (r, d)).1.sessions
unfolding after_restore
Distinct-after_restore host ss (ok u) d h = Distinct-finish_reverts host ss d h
Distinct-after_restore host ss (error e) d h =
    Distinct-mark_all host.session_io State.revert_failed ss d.sessions h
Distinct-after_restore host ss abort d h = h

restore_packages-sessions :
    (host : Host) (d : Apexd) → (restore_packages host d).1.sessions ≡ d.sessions
unfolding restore_packages
restore_packages-sessions host d = ground arith

Distinct-restore_and_finish :
    (host : Host) (ss : List ApexSession) (d : Apexd)
    → Distinct d.sessions
    → Distinct (restore_and_finish host ss d).1.sessions
unfolding restore_and_finish
Distinct-restore_and_finish host ss d h =
    Distinct-after_restore host ss (restore_packages host d).0 (restore_packages host d).1
      (subst Distinct (sym (restore_packages-sessions host d)) h)

pub Distinct-revert :
    (host : Host) (c m : String) (d : Apexd)
    → Distinct d.sessions
    → Distinct (revert_active_sessions host c m d).1.sessions
unfolding revert_active_sessions
Distinct-revert host c m d h =
    let ss = keep_if is_active (get_sessions host.session_io d.sessions) in
    let begun = begin_reverts host.session_io c m ss d.sessions in
    let d₁ : Apexd = record d { sessions = begun.1 } in
    let h₁ = Distinct-begin_reverts host.session_io c m ss d.sessions h in
    if-keeps (λ (x : Result (Unit {0}) × Apexd). Distinct x.1.sessions) (is_empty ss) (λ _. h)
      (λ _.
        and_then-keeps (λ (x : Apexd). Distinct x.sessions) (begun.0, d₁)
          (λ ts d₂. restore_and_finish host ts d₂) h₁
          (λ ts _. Distinct-restore_and_finish host ts d₁ h₁))
