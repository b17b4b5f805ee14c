-- ===== src/Daemon/Marks.antt =====
-- What loops of commits leave on the disk, by directory.
use system_apex.Base.{
  String, Bool, true, false, Option, none, some, List, [], ◌∷◌, if◌then◌else◌, ◌≡◌, refl, ap, subst,
  inl, inr, Bool-cases, ◌∙◌, arith, find, find-assign, eq_iff, ◌==◌, is_some, keep_if,
}
use system_apex.Session.State.{State, SessionState, ApexSession, set_state}
use system_apex.Session.Manager.{SessionDisk, SessionIo, update_state_and_commit, parse_all}
use system_apex.Session.Cleanup.{Distinct}
use system_apex.Daemon.Revert.{is_active, mark_all}

-- The first session of a list that lies in a directory.
unfoldable pub session_at : List ApexSession → String → Option ApexSession
session_at [] dir = none
session_at (s ∷ rest) dir = if s.session_dir == dir then some s else session_at rest dir

-- No two sessions lie in one directory.
unfoldable pub DistinctDirs : List ApexSession → Type 0
DistinctDirs [] = Unit
DistinctDirs (s ∷ rest) = (session_at rest s.session_dir ≡ none) × DistinctDirs rest

-- What a state file holds after a commit of the session that lies there, if one does.
abbrev pub committed :
    State → Option ApexSession → Option (Option SessionState) → Option (Option SessionState)
committed st none o = o
committed st (some s) none = none
committed st (some s) (some m) = some (some (set_state s st).message)

abbrev pub NoFault : SessionIo → Type 0
NoFault io = (dir : String) (m : SessionState) → io.write_error dir m ≡ none

pub find-commit_any :
    (io : SessionIo) (s : ApexSession) (st : State) (disk : SessionDisk) (dir : String)
    → NoFault io
    → find (update_state_and_commit io s st disk).2 dir
      ≡ (if s.session_dir == dir then committed st (some s) (find disk dir) else find disk dir)
unfolding update_state_and_commit
find-commit_any io s st disk dir h = ground (
  arith,
  h s.session_dir (set_state s st).message,
  eq_iff s.session_dir dir,
  find-assign disk s.session_dir dir (some (set_state s st).message),
)

pub find-mark_all :
    (io : SessionIo) (st : State) (ss : List ApexSession) (disk : SessionDisk) (dir : String)
    → NoFault io
    → DistinctDirs ss
    → find (mark_all io st ss disk) dir ≡ committed st (session_at ss dir) (find disk dir)
unfolding mark_all session_at DistinctDirs
find-mark_all io st [] disk dir h d = refl
find-mark_all io st (s ∷ rest) disk dir h d =
    find-mark_all io st rest (update_state_and_commit io s st disk).2 dir h d.1
    ∙ (elim (Bool-cases (s.session_dir == dir)) [
      | inl e ↦
          let alone : session_at rest dir ≡ none =
            subst (λ x. session_at rest x ≡ none) ((eq_iff s.session_dir dir).0 e) d.0 in
          grind (arith, find-commit_any io s st disk dir h, alone, e)
      | inr e ↦ grind (arith, find-commit_any io s st disk dir h, e)
    ])

-- The sessions that a scan finds lie where the disk has them.
abbrev pub active_at : Option (Option SessionState) → String → Option ApexSession
active_at none dir = none
active_at (some none) dir = none
active_at (some (some m)) dir =
    if is_active (record { message = m; session_dir = dir })
    then some (record { message = m; session_dir = dir })
    else none

pub session_at-active :
    (disk : SessionDisk) (dir : String)
    → Distinct disk
    → session_at (keep_if is_active (parse_all disk)) dir ≡ active_at (find disk dir) dir
unfolding session_at parse_all find
session_at-active [] dir d = refl
session_at-active ((e, none) ∷ rest) dir d =
    grind (arith, eq_iff e dir, session_at-active rest dir d.1)
session_at-active ((e, some m) ∷ rest) dir d =
    grind (arith, eq_iff e dir, session_at-active rest dir d.1)

DistinctDirs-cons :
    (b : Bool) (s : ApexSession) (ss : List ApexSession)
    → session_at ss s.session_dir ≡ none
    → DistinctDirs ss
    → DistinctDirs (if b then s ∷ ss else ss)
unfolding DistinctDirs
DistinctDirs-cons true s ss h d = (h, d)
DistinctDirs-cons false s ss h d = d

pub DistinctDirs-active :
    (disk : SessionDisk) → Distinct disk → DistinctDirs (keep_if is_active (parse_all disk))
unfolding DistinctDirs parse_all
DistinctDirs-active [] d = tt
DistinctDirs-active ((e, none) ∷ rest) d = DistinctDirs-active rest d.1
DistinctDirs-active ((e, some m) ∷ rest) d =
    DistinctDirs-cons _ _ _ (session_at-active rest e d.1 ∙ ap (λ o. active_at o e) d.0)
      (DistinctDirs-active rest d.1)

-- Every session of a list has its directory on the disk.
abbrev pub PresentIn : SessionDisk → List ApexSession → Type 0
PresentIn disk ss =
    (dir : String) → is_some (session_at ss dir) ≡ true → is_some (find disk dir) ≡ true
