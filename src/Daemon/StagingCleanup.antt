-- ===== src/Daemon/StagingCleanup.antt =====
-- What a staging that fails leaves behind.
use system_apex.Base.{
  ℕ, String, true, none, some, List, [], ◌∷◌, ok, error, abort, is_ok, and_then, false, Result,
  Result-cases, inl, inr, ◌⊎◌, ap, if◌then◌else◌, and_then-keeps, contains, find, erase,
  find-assign, find-erase, eq_iff, ◌≡◌, refl, ◌∙◌, arith,
}
use system_apex.FileSystem.{FileSystem, FileIo, create_dir_if_needed, unlink, link, rename}
use system_apex.ApexFile.{ApexFile}
use system_apex.Daemon.{Host}
use system_apex.Daemon.Verify.{Verifier}
use system_apex.Daemon.Staging.{
  Staged, promote_hashtree, remove_dest, link_dest, stage_files, unlink_all, accept_staged,
  nothing_staged, stage_dest_path, get_hash_tree_file_name, open_apex_files, verify_staged,
  stage_packages, remove_previously_active_apex_files,
}

-- Every file that is there was there before with these contents, or is on a list of what is to be
-- deleted.
Unlisted : FileSystem → Staged → Type 0
Unlisted before st =
    (path : String) (contents : ℕ)
    → contains st.staged_files path ≡ false
    → contains st.changed_hashtree_files path ≡ false
    → find st.fs.files path ≡ some contents
    → find before.files path ≡ some contents

promote_hashtree-Unlisted :
    (host : Host) (apex : ApexFile) (before : FileSystem) (st : Staged)
    → Unlisted before st
    → Unlisted before (promote_hashtree host apex st).1
unfolding promote_hashtree rename Unlisted
promote_hashtree-Unlisted host apex before st h path contents s c f =
    let new_file = get_hash_tree_file_name host apex true in
    let old_file = get_hash_tree_file_name host apex false in
    grind (
      arith,
      h path contents,
      find-erase st.fs.files new_file path,
      find-assign (erase st.fs.files new_file) old_file path,
      eq_iff old_file path,
    )

remove_dest-Unlisted :
    (host : Host) (dest : String) (before : FileSystem) (st : Staged)
    → Unlisted before st
    → Unlisted before (remove_dest host dest st).1
unfolding remove_dest unlink Unlisted
remove_dest-Unlisted host dest before st h path contents s c f =
    grind (arith, h path contents, find-erase st.fs.files dest path)

link_dest-Unlisted :
    (host : Host) (apex : ApexFile) (dest : String) (before : FileSystem) (st : Staged)
    → Unlisted before st
    → Unlisted before (link_dest host apex dest st).1
unfolding link_dest link Unlisted
link_dest-Unlisted host apex dest before st h path contents s c f =
    grind (arith, h path contents, find-assign st.fs.files dest path, eq_iff dest path)

stage_files-Unlisted :
    (host : Host) (apexes : List ApexFile) (before : FileSystem) (st : Staged)
    → Unlisted before st
    → Unlisted before (stage_files host apexes st).1
unfolding stage_files
stage_files-Unlisted host [] before st h = h
stage_files-Unlisted host (apex ∷ rest) before st h =
    let dest = stage_dest_path host apex in
    let promoted = promote_hashtree host apex st in
    let removed = remove_dest host dest promoted.1 in
    let linked = link_dest host apex dest removed.1 in
    let h₁ = promote_hashtree-Unlisted host apex before st h in
    let h₂ = remove_dest-Unlisted host dest before promoted.1 h₁ in
    let h₃ = link_dest-Unlisted host apex dest before removed.1 h₂ in
    let h₄ = stage_files-Unlisted host rest before linked.1 h₃ in
    and_then-keeps (Unlisted before) promoted _ h₁ (λ _ _.
      and_then-keeps (Unlisted before) removed _ h₂ (λ _ _.
        and_then-keeps (Unlisted before) linked (λ _ _. stage_files host rest linked.1) h₃
          (λ _ _. h₄)))

find-unlink_all :
    (host : Host) (paths : List String) (fs : FileSystem) (path : String)
    → ((p : String) → host.file_io.unlink_fails p ≡ false)
    → find (unlink_all host paths fs).files path
      ≡ (if contains paths path then none else find fs.files path)
unfolding unlink_all unlink
find-unlink_all host [] fs path u = refl
find-unlink_all host (p ∷ ps) fs path u =
    find-unlink_all host ps (unlink host.file_io fs p).1 path u
    ∙ ground (arith, u p, eq_iff p path, find-erase fs.files p path)

-- The files that the loop over the packages leaves, where it fails, were there before.
accept_staged-stage_files :
    (host : Host) (apexes : List ApexFile) (fs : FileSystem) (e : String) (path : String)
    (contents : ℕ)
    → ((p : String) → host.file_io.unlink_fails p ≡ false)
    → (stage_files host apexes (nothing_staged fs)).0 ≡ error e
    → find (accept_staged host (stage_files host apexes (nothing_staged fs))).1.fs.files path
      ≡ some contents
    → find fs.files path ≡ some contents
unfolding Unlisted accept_staged
accept_staged-stage_files host apexes fs e path contents u h f =
    let st = (stage_files host apexes (nothing_staged fs)).1 in
    let kept =
      stage_files-Unlisted host apexes fs (nothing_staged fs) (λ p c s t g. g) path contents in
    let left =
      find-unlink_all host st.changed_hashtree_files (unlink_all host st.staged_files st.fs) path
        u in
    grind (arith, h, kept, left, find-unlink_all host st.staged_files st.fs path u)

create_dir_if_needed-files :
    (io : FileIo) (fs : FileSystem) (dir : String)
    → (create_dir_if_needed io fs dir).1.files ≡ fs.files
unfolding create_dir_if_needed
create_dir_if_needed-files io fs dir = ground arith

accept_staged-failed :
    (host : Host) (run : Result (Unit {0}) × Staged)
    (g : Unit {0} → FileSystem → Result (Unit {0}) × FileSystem)
    → is_ok run.0 ≡ false
    → and_then ((accept_staged host run).0, (accept_staged host run).1.fs) g
      ≡ (run.0, (accept_staged host run).1.fs)
unfolding accept_staged
accept_staged-failed host (ok a, st) g h = cc
accept_staged-failed host (error e, st) g h = refl
accept_staged-failed host (abort, st) g h = refl

-- All packages were staged, and the removal of the ones that were active before has failed.
pub record RemovalFailed (host : Host) (paths : List String) (fs : FileSystem) (e : String)
    : Type 0 where
  pub apexes : List ApexFile
  pub opened : open_apex_files host fs paths ≡ ok apexes
  pub ready : FileSystem
  pub made : create_dir_if_needed host.file_io fs host.active_apex_data_dir ≡ (ok tt, ready)
  pub staged : Staged
  pub all_staged : stage_files host apexes (nothing_staged ready) ≡ (ok tt, staged)
  pub removal :
      (remove_previously_active_apex_files host staged.staged_packages staged.staged_files
        staged.fs).0
      ≡ error e

-- Where no unlink(2) fails of itself and `StagePackages` ends with an error, a file that is there
-- afterwards was there before, with the same contents; or else all packages were staged, and the
-- error is that of the removal of the packages that were active before.
pub stage_packages-cleans :
    (host : Host) (v : Verifier) (paths : List String) (fs : FileSystem) (e path : String)
    (contents : ℕ)
    → ((p : String) → host.file_io.unlink_fails p ≡ false)
    → (stage_packages host v paths fs).0 ≡ error e
    → find (stage_packages host v paths fs).1.files path ≡ some contents
    → (find fs.files path ≡ some contents) ⊎ RemovalFailed host paths fs e
unfolding stage_packages
stage_packages-cleans host v paths fs e path contents u h f =
    elim (Result-cases (open_apex_files host fs paths)) [
      | inr unopened ↦ inl (ground (arith, h, f))
      | inl (apexes, opened) ↦ elim (Result-cases (verify_staged v fs apexes)) [
        | inr unverified ↦ inl (ground (arith, h, f))
        | inl (_, verified) ↦
            let made = create_dir_if_needed host.file_io fs host.active_apex_data_dir in
            let same = create_dir_if_needed-files host.file_io fs host.active_apex_data_dir in
            elim (Result-cases made.0) [
              | inr unmade ↦ inl (ground (arith, h, f, same))
              | inl (_, ready) ↦
                  let run = stage_files host apexes (nothing_staged made.1) in
                  elim (Result-cases run.0) [
                    | inl (_, all_of) ↦ inr (record {
                      apexes = apexes;
                      opened = opened;
                      ready = made.1;
                      made = ap (λ (r : Result (Unit {0})). (r, made.1)) ready;
                      staged = run.1;
                      all_staged = ap (λ (r : Result (Unit {0})). (r, run.1)) all_of;
                      removal = unfold accept_staged in ground (arith, h);
                    })
                    | inr failed ↦
                        let ends =
                          accept_staged-failed host run
                            (λ _ fs₂.
                              remove_previously_active_apex_files host
                                (accept_staged host run).1.staged_packages
                                (accept_staged host run).1.staged_files fs₂)
                            failed in
                        let before =
                          accept_staged-stage_files host apexes made.1 e path contents u
                            (ground (arith, h, ends)) (ground (arith, f, ends)) in
                        inl (ground (arith, before, same))
                  ]
            ]
      ]
    ]
