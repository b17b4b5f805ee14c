-- ===== src/Daemon/Staging.antt =====
-- apexd/apexd.cpp: staging of packages into the directory of active packages.
use Prim.Native.String.{◌++◌ as append}
use system_apex.Base.{
  String, Bool, true, false, not, ◌||◌, List, [], ◌∷◌, Result, ok, error, abort, guard, ◌>>=◌, ◌>>◌,
  if◌then◌else◌, and_then, is_empty, contains,
}
use system_apex.FileSystem.{
  FileSystem, file_exists, unlink, link, rename, find_files_by_suffix, create_dir_if_needed,
}
use system_apex.ApexFile.{ApexFile, get_package_id}
use system_apex.Repository.Queries.{is_pre_installed_apex}
use system_apex.Daemon.{Host}
use system_apex.Daemon.Backup.{open_apex}
use system_apex.Daemon.Verify.{Verifier, is_shim_apex, verify_package_boot}

unfoldable pub open_all : Host → FileSystem → List String → Result (List ApexFile)
open_all host fs [] = ok []
open_all host fs (path ∷ rest) = do
  apex ← open_apex host fs path
  later ← open_all host fs rest
  ok (apex ∷ later)

-- `OpenApexFiles`.
unfoldable pub open_apex_files : Host → FileSystem → List String → Result (List ApexFile)
open_apex_files host fs paths =
    if is_empty paths then error "Empty set of inputs" else open_all host fs paths

unfoldable pub get_hash_tree_file_name : Host → ApexFile → Bool → String
get_hash_tree_file_name host apex is_new =
    let ret = append host.apex_hash_tree_dir (append "/" (get_package_id apex.manifest)) in
    if is_new then append ret ".new" else ret

unfoldable pub stage_dest_path : Host → ApexFile → String
stage_dest_path host apex =
    append host.active_apex_data_dir (append "/" (append (get_package_id apex.manifest) ".apex"))

-- The first loop of `StagePackages`; a shim package is validated on every boot.
unfoldable pub verify_staged : Verifier → FileSystem → List ApexFile → Result (Unit {0})
verify_staged v fs [] = ok tt
verify_staged v fs (apex ∷ rest) =
    if is_shim_apex apex
    then verify_staged v fs rest
    else verify_package_boot v fs apex >> verify_staged v fs rest

-- The files while packages are staged, with what the scope guard is to delete.
pub record Staged : Type 0 where
  pub fs : FileSystem
  pub staged_files : List String
  pub changed_hashtree_files : List String
  pub staged_packages : List String

-- The new hash tree, where there is one, takes the place of the old.
unfoldable pub promote_hashtree : Host → ApexFile → Staged → Result (Unit {0}) × Staged
promote_hashtree host apex st =
    let new_file = get_hash_tree_file_name host apex true in
    let old_file = get_hash_tree_file_name host apex false in
    let renamed = rename host.file_io st.fs new_file old_file in
    if not (file_exists st.fs new_file)
    then (ok tt, st)
    else if not renamed.0
    then (error (append "Failed to move " new_file), st)
    else (
      ok tt,
      record st { fs = renamed.1; changed_hashtree_files = old_file ∷ st.changed_hashtree_files },
    )

unfoldable pub remove_dest : Host → String → Staged → Result (Unit {0}) × Staged
remove_dest host dest st =
    let unlinked = unlink host.file_io st.fs dest in
    if not (file_exists st.fs dest)
    then (ok tt, st)
    else if not unlinked.0
    then (error (append "Failed to unlink " dest), st)
    else (ok tt, record st { fs = unlinked.1 })

unfoldable pub link_dest : Host → ApexFile → String → Staged → Result (Unit {0}) × Staged
link_dest host apex dest st =
    let linked = link host.file_io st.fs apex.apex_path dest in
    if not linked.0 then (error (append "Unable to link " apex.apex_path), st) else (
      ok tt,
      record st {
        fs = linked.1;
        staged_files = dest ∷ st.staged_files;
        staged_packages = apex.name ∷ st.staged_packages;
      },
    )

-- The second loop.
unfoldable pub stage_files : Host → List ApexFile → Staged → Result (Unit {0}) × Staged
stage_files host [] st = (ok tt, st)
stage_files host (apex ∷ rest) st =
    let dest = stage_dest_path host apex in
    let promoted = promote_hashtree host apex st in
    let removed = remove_dest host dest promoted.1 in
    let linked = link_dest host apex dest removed.1 in
    let later = stage_files host rest linked.1 in
    and_then promoted (λ _ _. and_then removed (λ _ _. and_then linked (λ _ _. later)))

unfoldable pub unlink_all : Host → List String → FileSystem → FileSystem
unlink_all host [] fs = fs
unlink_all host (path ∷ rest) fs = unlink_all host rest (unlink host.file_io fs path).1

-- The scope guard: what was staged is deleted unless all packages are.
unfoldable pub accept_staged : Host → Result (Unit {0}) × Staged → Result (Unit {0}) × Staged
accept_staged host (ok u, st) = (ok u, st)
accept_staged host (error e, st) = (
  error e,
  record st {
    fs = unlink_all host st.changed_hashtree_files (unlink_all host st.staged_files st.fs);
  },
)
accept_staged host (abort, st) = (abort, st)

-- The loop of `RemovePreviouslyActiveApexFiles`.
unfoldable pub remove_previous :
    Host → List String → List String → List String → FileSystem → Result (Unit {0}) × FileSystem
remove_previous host affected keep [] fs = (ok tt, fs)
remove_previous host affected keep (path ∷ rest) fs =
    and_then (open_apex host fs path, fs)
      (λ apex _.
        let kept = remove_previous host affected keep rest fs in
        let unlinked = unlink host.file_io fs apex.apex_path in
        let later = remove_previous host affected keep rest unlinked.1 in
        if not (contains affected apex.name) || contains keep apex.apex_path
        then kept
        else if unlinked.0
        then later
        else (error (append "Failed to unlink " apex.apex_path), fs))

unfoldable pub remove_previously_active_apex_files :
    Host → List String → List String → FileSystem → Result (Unit {0}) × FileSystem
remove_previously_active_apex_files host affected keep fs =
    and_then (find_files_by_suffix host.file_io fs host.active_apex_data_dir (".apex" ∷ []), fs)
      (λ files _. remove_previous host affected keep files fs)

abbrev pub nothing_staged : FileSystem → Staged
nothing_staged fs = record {
  fs = fs;
  staged_files = [];
  changed_hashtree_files = [];
  staged_packages = [];
}

unfoldable pub stage_packages :
    Host → Verifier → List String → FileSystem → Result (Unit {0}) × FileSystem
stage_packages host v tmp_paths fs =
    and_then (open_apex_files host fs tmp_paths, fs)
      (λ apex_files _.
        and_then (verify_staged v fs apex_files, fs)
          (λ _ _.
            and_then (create_dir_if_needed host.file_io fs host.active_apex_data_dir) (λ _ fs₁.
              let done = accept_staged host (stage_files host apex_files (nothing_staged fs₁)) in
              let st = done.1 in
              and_then (done.0, st.fs)
                (λ _ fs₂.
                  remove_previously_active_apex_files host st.staged_packages st.staged_files
                    fs₂))))

unfoldable pub check_unstaged : Host → Verifier → FileSystem → List String → Result (Unit {0})
check_unstaged host v fs [] = ok tt
check_unstaged host v fs (path ∷ rest) = do
  apex ← open_apex host fs path
  guard (not (is_pre_installed_apex v.repository apex)) "Can't uninstall pre-installed apex "
  check_unstaged host v fs rest

unfoldable pub unlink_each : Host → List String → FileSystem → Result (Unit {0}) × FileSystem
unlink_each host [] fs = (ok tt, fs)
unlink_each host (path ∷ rest) fs =
    let unlinked = unlink host.file_io fs path in
    let later = unlink_each host rest unlinked.1 in
    if unlinked.0 then later else (error (append "Can't unlink " path), fs)

unfoldable pub unstage_packages :
    Host → Verifier → List String → FileSystem → Result (Unit {0}) × FileSystem
unstage_packages host v paths fs =
    if is_empty paths
    then (error "Empty set of inputs", fs)
    else and_then (check_unstaged host v fs paths, fs) (λ _ _. unlink_each host paths fs)
