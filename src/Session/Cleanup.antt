-- ===== src/Session/Cleanup.antt =====
-- `DeleteFinalizedSessions`: which sessions go, and that no other session is touched.
use system_apex.Base.{
  ℕ, zero, suc, String, ◌≡◌, refl, ◌∙◌, Bool, false, ◌&&◌, Option, none, some, List, [], ◌∷◌, arith,
  find, find-assign, find-erase, eq_iff, ◌==◌, if◌then◌else◌, any, take,
}
use system_apex.Session.State.{SessionState, ApexSession, is_finalized, final_state}
use system_apex.Session.Manager.{
  SessionDisk, SessionIo, parse_all, visited, get_sessions, delete_session, delete_finalized,
  delete_finalized_sessions,
}

-- No two entries have one path.
abbrev pub Distinct : SessionDisk → Type 0
Distinct [] = Unit
Distinct ((dir, o) ∷ rest) = (find rest dir ≡ none) × Distinct rest

abbrev pub finalized_at : Option (Option SessionState) → Bool
finalized_at none = false
finalized_at (some none) = false
finalized_at (some (some m)) = final_state m.state

abbrev to_delete : List ApexSession → String → Bool
to_delete ss dir = any (λ s. is_finalized s && s.session_dir == dir) ss

-- Whatever fails, the loop leaves alone a directory that is none of the finalized sessions'.
delete_finalized-other :
    (io : SessionIo) (ss : List ApexSession) (disk : SessionDisk) (dir : String)
    → to_delete ss dir ≡ false
    → find (delete_finalized io ss disk) dir ≡ find disk dir
unfolding delete_finalized delete_session
delete_finalized-other io [] disk dir h = refl
delete_finalized-other io (s ∷ rest) disk dir h =
    delete_finalized-other io rest _ dir (ground arith)
    ∙ grind (arith, find-erase, find-assign, eq_iff s.session_dir dir)

delete_finalized-exact :
    (io : SessionIo) (ss : List ApexSession) (disk : SessionDisk) (dir : String)
    → ((d : String) → io.remove_error d ≡ none)
    → find (delete_finalized io ss disk) dir ≡ (if to_delete ss dir then none else find disk dir)
unfolding delete_finalized delete_session
delete_finalized-exact io [] disk dir h = refl
delete_finalized-exact io (s ∷ rest) disk dir h =
    delete_finalized-exact io rest _ dir h
    ∙ ground (arith, find-erase disk s.session_dir dir, eq_iff s.session_dir dir, h s.session_dir)

to_delete-parse_all :
    (disk : SessionDisk) (dir : String)
    → Distinct disk
    → to_delete (parse_all disk) dir ≡ finalized_at (find disk dir)
unfolding parse_all find
to_delete-parse_all [] dir h = refl
to_delete-parse_all ((d, none) ∷ rest) dir h =
    grind (arith, eq_iff d dir, to_delete-parse_all rest dir h.1)
to_delete-parse_all ((d, some m) ∷ rest) dir h =
    grind (arith, eq_iff d dir, to_delete-parse_all rest dir h.1)

to_delete-take :
    (n : ℕ) (disk : SessionDisk) (dir : String)
    → to_delete (parse_all disk) dir ≡ false
    → to_delete (parse_all (take n disk)) dir ≡ false
unfolding parse_all
to_delete-take zero disk dir h = refl
to_delete-take (suc n) [] dir h = refl
to_delete-take (suc n) ((d, none) ∷ rest) dir h = to_delete-take n rest dir h
to_delete-take (suc n) ((d, some m) ∷ rest) dir h = ground (arith, to_delete-take n rest dir)

to_delete-visited :
    (limit : Option ℕ) (disk : SessionDisk) (dir : String)
    → to_delete (parse_all disk) dir ≡ false
    → to_delete (parse_all (visited limit disk)) dir ≡ false
unfolding visited
to_delete-visited none disk dir h = h
to_delete-visited (some n) disk dir h = to_delete-take n disk dir h

-- Where the directories are distinct, the clean-up never touches one whose session is not in a
-- final state, whatever removal or iteration fails.
pub delete_finalized_sessions-safe :
    (io : SessionIo) (disk : SessionDisk) (dir : String)
    → Distinct disk
    → finalized_at (find disk dir) ≡ false
    → find (delete_finalized_sessions io disk) dir ≡ find disk dir
unfolding delete_finalized_sessions get_sessions
delete_finalized_sessions-safe io disk dir d h =
    delete_finalized-other io (get_sessions io disk) disk dir
      (to_delete-visited io.walk_error disk dir (to_delete-parse_all disk dir d ∙ h))

-- Where the directories are distinct, all can be listed and no removal fails, exactly the
-- directories of the finalized sessions are gone.
pub delete_finalized_sessions-exact :
    (io : SessionIo) (disk : SessionDisk) (dir : String)
    → io.walk_error ≡ none
    → ((d : String) → io.remove_error d ≡ none)
    → Distinct disk
    → find (delete_finalized_sessions io disk) dir
      ≡ (if finalized_at (find disk dir) then none else find disk dir)
unfolding delete_finalized_sessions get_sessions visited
delete_finalized_sessions-exact io disk dir w h d =
    delete_finalized-exact io (get_sessions io disk) disk dir h
    ∙ rw (w, visited, to_delete-parse_all disk dir d)
