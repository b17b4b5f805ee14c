-- ===== src/Examples/Staging.antt =====
-- The staging of packages and of sessions.
use system_apex.Base.{true, some, [], ◌∷◌, ◌≡◌, refl, find, assign, erase, ok}
use system_apex.Text.{int_to_text, to_text}
use system_apex.FileSystem.{file_exists, unlink, link, rename}
use system_apex.ApexFile.{get_package_id}
use system_apex.Session.State.{State, SessionState, new_state}
use system_apex.Session.Manager.{get_sessions, get_sessions_in_state, visited, parse_all}
use system_apex.Session.Cleanup.{Distinct}
use system_apex.Daemon.{Apexd}
use system_apex.FileSystem.{path_exists, delete_dir_content, remove_below, is_below, rename_dir}
use system_apex.Daemon.Backup.{restore_active_packages}
use system_apex.Daemon.Restored.{restore_active_packages-restores}
use system_apex.Daemon.Verify.{Verifier}
use system_apex.Daemon.Staging.{
  stage_files, accept_staged, promote_hashtree, remove_dest, link_dest, get_hash_tree_file_name,
  stage_dest_path, unlink_all,
}
use system_apex.Daemon.StagingCleanup.{RemovalFailed, stage_packages-cleans}
use system_apex.Daemon.Scan.{
  scan_staged_sessions_dir_and_stage, sessions_to_activate, apexes_of_session, session_failed,
  stage_session, stage_sessions,
}
use system_apex.Daemon.Scanned.{
  decided, scan_staged_sessions-decided, scan_staged_sessions-untouched,
}
use system_apex.Examples.{repo}
use system_apex.Examples.Packages.{avb_of_tz}
use system_apex.Examples.Sessions.{success_state}
use system_apex.Examples.Daemons.{host, fs, daemon}
use system_apex.Base.{to_int}
use system_apex.ApexFile.{
  open_package, locate_image, read_pubkey, parse_manifest, retrieve_fs_type, bytes_eq,
}
use system_apex.ApexFile.Verity.{
  verify_apex_verity, get_avb_footer, verify_vb_meta, verify_vb_meta_signature, signature_result,
  compare_keys, find_descriptor, verify_descriptor,
}
use system_apex.Daemon.Backup.{open_apex}
use system_apex.Daemon.{Host}
use system_apex.Daemon.Staging.{stage_packages, open_apex_files, open_all, verify_staged}
use system_apex.FileSystem.{create_dir_if_needed}
use system_apex.Daemon.Verify.{verify_package_boot, verify_vndk_version, is_shim_apex}
use system_apex.Repository.Queries.{get_public_key}
use system_apex.Base.{◌⊎◌, String, ◌==◌, if◌then◌else◌}

abbrev pub verifier : Verifier
verifier = record {
  repository = repo;
  avb = λ files. avb_of_tz;
  vendor_vndk_version = "";
  product_vndk_version = "";
  validate_staging_shim_apex = λ apex. ok tt;
  run_in_temp_mount = λ apex check. check;
  check_vendor_apex_update = λ apex. ok tt;
}

-- The second package stands at a path that is gone when it is to be linked.
abbrev moved_path : String
moved_path = "/data/apex/backup/tz@1.apex"

abbrev moving_host : Host
moving_host = record host {
  decoders = record host.decoders {
    realpath = λ path. some (if path == moved_path then "/gone.apex" else path);
  };
}

stage_packages-cleans_example :
    (find fs.files moved_path ≡ some 1)
    ⊎ RemovalFailed moving_host
        ("/data/apex/active/tz@2.apex" ∷ moved_path ∷ [])
        fs
        "Unable to link /gone.apex"
unfolding stage_packages open_apex_files open_all open_apex open_package parse_manifest locate_image
    read_pubkey retrieve_fs_type bytes_eq verify_staged is_shim_apex verify_package_boot
    verify_vndk_version get_public_key verify_apex_verity get_avb_footer verify_vb_meta
    verify_vb_meta_signature signature_result compare_keys find_descriptor verify_descriptor to_int
    create_dir_if_needed stage_files accept_staged promote_hashtree remove_dest link_dest unlink_all
    link unlink rename file_exists get_hash_tree_file_name stage_dest_path get_package_id
    int_to_text to_text find assign erase
stage_packages-cleans_example =
    stage_packages-cleans moving_host verifier ("/data/apex/active/tz@2.apex" ∷ moved_path ∷ []) fs
      "Unable to link /gone.apex" moved_path 1 (λ p. refl) refl refl

-- The staged session was made for another build.
abbrev staged_state : SessionState
staged_state = record (new_state 3) { state = State.staged; expected_build_fingerprint = "old" }

abbrev staged_daemon : Apexd
staged_daemon = record daemon {
  sessions = ("/s/2", some success_state) ∷ ("/s/3", some staged_state) ∷ [];
}

staged_daemon-Distinct : Distinct staged_daemon.sessions
unfolding find
staged_daemon-Distinct = (refl, (refl, tt))

scan_staged_sessions-decided_example :
    decided
      (find (scan_staged_sessions_dir_and_stage host verifier staged_daemon).1.sessions "/s/3")
    ≡ true
unfolding scan_staged_sessions_dir_and_stage sessions_to_activate get_sessions_in_state get_sessions
    visited parse_all stage_sessions stage_session apexes_of_session session_failed find
scan_staged_sessions-decided_example =
    scan_staged_sessions-decided host verifier staged_daemon "/s/3" refl (λ dir m. refl)
      staged_daemon-Distinct refl refl

scan_staged_sessions-untouched_example :
    find (scan_staged_sessions_dir_and_stage host verifier staged_daemon).1.sessions "/s/2"
    ≡ some (some success_state)
unfolding find
scan_staged_sessions-untouched_example =
    scan_staged_sessions-untouched host verifier staged_daemon "/s/2" refl staged_daemon-Distinct
      refl

restore_active_packages-restores_example :
    find (restore_active_packages host fs).1.files "/data/apex/active/tz@1.apex" ≡ some 1
unfolding restore_active_packages path_exists delete_dir_content remove_below is_below rename_dir
    find
restore_active_packages-restores_example =
    restore_active_packages-restores host fs "tz@1.apex" refl refl
