-- ===== src/Examples/Submission.antt =====
-- The submission of a session with one package.
use system_apex.Base.{
  true, false, [], ◌∷◌, ◌≡◌, refl, ok, find, assign, emplace, nat_eq, ◌&&◌, pos, to_int,
}
use system_apex.Text.{to_text, ends_with, filename, parent_path, strip_suffix, last_piece, split}
use system_apex.FileSystem.{find_files_by_suffix, with_suffix}
use system_apex.ApexFile.{
  ApexFile, open_package, locate_image, read_pubkey, parse_manifest, retrieve_fs_type, bytes_eq,
}
use system_apex.ApexFile.Verity.{
  verify_apex_verity, get_avb_footer, verify_vb_meta, verify_vb_meta_signature, signature_result,
  compare_keys, find_descriptor, verify_descriptor,
}
use system_apex.Repository.Queries.{get_public_key, get_pre_installed_apex}
use system_apex.Session.Manager.{
  get_session, create_session, update_state_and_commit, session_dir_path,
}
use system_apex.Daemon.{Apexd, Host}
use system_apex.Daemon.Backup.{open_apex}
use system_apex.Daemon.Verify.{
  verify_package_staged_install, verify_package_boot, verify_vndk_version, is_vendor_apex,
  is_vendor_path, is_shim_apex,
}
use system_apex.Daemon.Staging.{open_apex_files, open_all}
use system_apex.Daemon.Sessions.{commit}
use system_apex.Daemon.Submit.{
  Submission, verify_session_dirs, verify_session_dir, verify_each, first_apex, record_session,
  fill_in, add_apex_names, submit_staged_session,
}
use system_apex.Daemon.Submitted.{submitted, submit_staged_session-reads}
use system_apex.Examples.{apex_at}
use system_apex.Examples.Daemons.{host, daemon}
use system_apex.Examples.Staging.{verifier}

abbrev checkpoint_host : Host
checkpoint_host = record host { supports_fs_checkpoints = true }

abbrev submitting_daemon : Apexd
submitting_daemon = record daemon {
  fs = record {
    files = ("/data/app-staging/session_5/tz.apex", 5) ∷ [];
    dirs = "/data/app-staging/session_5" ∷ [];
  };
}

abbrev submission : Submission
submission = record {
  session_id = 5;
  child_session_ids = [];
  has_rollback_enabled = true;
  is_rollback = false;
  rollback_id = 0;
}

abbrev submitted_tz : ApexFile
submitted_tz = apex_at "/data/app-staging/session_5/tz.apex" "tz" (pos 3)

submit_staged_session-reads_example :
    (nat_eq 5 0 ≡ false)
    × ((true && false) ≡ false)
    × (get_session checkpoint_host.session_manager
          (submit_staged_session checkpoint_host verifier submission submitting_daemon).1.sessions
          5
        ≡ ok (submitted checkpoint_host submission (submitted_tz ∷ [])))
unfolding submit_staged_session verify_session_dirs verify_session_dir verify_each first_apex
    record_session fill_in add_apex_names commit create_session update_state_and_commit
    session_dir_path find_files_by_suffix with_suffix open_apex_files open_all open_apex
    open_package locate_image read_pubkey parse_manifest retrieve_fs_type bytes_eq
    verify_package_staged_install verify_package_boot verify_vndk_version is_vendor_apex
    is_vendor_path is_shim_apex get_public_key get_pre_installed_apex verify_apex_verity
    get_avb_footer verify_vb_meta verify_vb_meta_signature signature_result compare_keys
    find_descriptor verify_descriptor to_text to_int ends_with strip_suffix filename parent_path
    last_piece split find assign emplace
submit_staged_session-reads_example =
    submit_staged_session-reads checkpoint_host verifier submission (submitted_tz ∷ [])
      submitting_daemon refl
