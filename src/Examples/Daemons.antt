-- ===== src/Examples/Daemons.antt =====
-- The daemon with two sessions, a backup and a compressed APEX.
use system_apex.Base.{
  String, true, false, none, some, [], ◌∷◌, ◌≡◌, refl, find, ok, pos, assign, erase, to_int,
}
use system_apex.Text.{int_to_text, to_text}
use system_apex.FileSystem.{
  FileSystem, FileIo, path_exists, file_exists, delete_dir_content, remove_below, is_below, unlink,
  rename, remove_file_if_exists,
}
use system_apex.ApexFile.{
  open_package, locate_image, read_pubkey, parse_manifest, retrieve_fs_type, bytes_eq, ApexFile,
  get_package_id,
}
use system_apex.ApexFile.Verity.{
  verify_apex_verity, get_avb_footer, verify_vb_meta, verify_vb_meta_signature, signature_result,
  compare_keys, find_descriptor, verify_descriptor,
}
use system_apex.Session.Manager.{parse_all}
use system_apex.Daemon.{Apexd, Host}
use system_apex.Daemon.Backup.{open_apex}
use system_apex.Daemon.Marks.{committed, active_at}
use system_apex.Daemon.Outcome.{map_session}
use system_apex.Daemon.Revert.{revert_active_sessions, resume_revert_if_needed, with_reasons}
use system_apex.Daemon.Settled.{settled, revert_active_sessions-settled}
use system_apex.Daemon.Untouched.{revert_active_sessions-untouched}
use system_apex.Daemon.Resume.{reverting, resume_revert_if_needed-completes}
use system_apex.Daemon.History.{Request, serve_all, serve_all-final}
use system_apex.Daemon.Decompress.{
  Decompressor, process_compressed_apex, reuse_decompressed, reuse_ota, rename_ota, decompress_anew,
  decompress_and_validate, decompress, keep_if_ok, open_and_validate_decompressed_apex,
  validate_decompressed_apex,
}
use system_apex.Daemon.Validated.{
  IsOriginalOf, process_compressed_apex-IsOriginalOf, process_compressed_apex-cleans,
}
use system_apex.Examples.{manifest_of, apex_at, newer_tz}
use system_apex.Examples.Packages.{avb_of_tz, package_tz}
use system_apex.Examples.Sessions.{disk, io, disk-Distinct, success_state}

abbrev pub files_io : FileIo
files_io = record {
  unlink_fails = λ p. false;
  link_fails = λ p. false;
  rename_fails = λ p. false;
  list_fails = λ p. false;
  remove_fails = λ p. false;
  mkdir_fails = λ p. false;
}

abbrev pub host : Host
host = record {
  file_io = files_io;
  session_io = io;
  session_manager = record { sessions_base_dir = "/s" };
  supports_fs_checkpoints = false;
  in_fs_checkpoint_mode = false;
  active_apex_data_dir = "/data/apex/active";
  apex_hash_tree_dir = "/data/apex/hashtree";
  staged_session_dir = "/data/app-staging";
  apex_backup_dir = "/data/apex/backup";
  build_fingerprint = "build";
  packages = λ contents. package_tz;
  decoders = record { parse_proto = λ s. some (manifest_of "tz" (pos 3)); realpath = λ p. some p };
  chmod_fails = λ p. false;
  can_access = λ p. true;
  de_user_dirs = ok ("/data/misc_de/0" ∷ []);
}

abbrev pub fs : FileSystem
fs = record {
  files = ("/data/apex/active/tz@2.apex", 2) ∷ ("/data/apex/backup/tz@1.apex", 1) ∷ [];
  dirs = "/data/apex/active" ∷ "/data/apex/backup" ∷ [];
}

abbrev pub daemon : Apexd
daemon = record { fs = fs; sessions = disk; changed_active_apexes = []; snapshot_calls = [] }

revert_active_sessions-settled_example :
    find (revert_active_sessions host "zygote" "crash" daemon).1.sessions "/s/1"
    ≡ committed
        (settled host fs)
        (map_session (with_reasons "zygote" "crash") (active_at (find disk "/s/1") "/s/1"))
        (find disk "/s/1")
unfolding parse_all
revert_active_sessions-settled_example =
    revert_active_sessions-settled host "zygote" "crash" daemon refl (λ dir m. refl) disk-Distinct
      refl "/s/1" refl

revert_active_sessions-untouched_example :
    find (revert_active_sessions host "zygote" "crash" daemon).1.sessions "/s/2"
    ≡ some (some success_state)
unfolding find
revert_active_sessions-untouched_example =
    revert_active_sessions-untouched host "zygote" "crash" daemon "/s/2" disk-Distinct refl

resume_revert_if_needed-completes_example :
    reverting (find (resume_revert_if_needed host daemon).1.sessions "/s/1") ≡ false
resume_revert_if_needed-completes_example =
    resume_revert_if_needed-completes host daemon "/s/1" refl (λ dir m. refl) disk-Distinct refl

serve_all-final_example :
    find
      (serve_all host
        (Request.mark_successful 1 ∷ Request.abort_session 2 ∷ Request.revert "" "" ∷ [])
        daemon).sessions
      "/s/2"
    ≡ some (some success_state)
unfolding find
serve_all-final_example =
    serve_all-final host
      (Request.mark_successful 1 ∷ Request.abort_session 2 ∷ Request.revert "" "" ∷ []) daemon
      "/s/2" disk-Distinct refl

abbrev compressed_tz : ApexFile
compressed_tz = record newer_tz { is_compressed = true }

abbrev pub decompressor : Decompressor
decompressor = record {
  decompression_dir = "/data/apex/decompressed";
  ota_reserved_dir = "/data/apex/ota_reserved";
  active_apex_selinux_ctx = "u:object_r:staging_data_file";
  extract = λ capex. some 3;
  write_fails = λ p. false;
  getfilecon = λ p. some "u:object_r:staging_data_file:s0";
  restorecon_fails = λ p. false;
  avb = λ files. avb_of_tz;
}

abbrev decompressed_tz : ApexFile
decompressed_tz = apex_at "/data/apex/decompressed/tz@3.decompressed.apex" "tz" (pos 3)

process_compressed_apex-IsOriginalOf_example :
    ((path : String) × (open_apex host
          (process_compressed_apex host decompressor false compressed_tz daemon).1.fs
          path
        ≡ ok decompressed_tz))
    × IsOriginalOf avb_of_tz compressed_tz decompressed_tz
unfolding process_compressed_apex reuse_decompressed reuse_ota rename_ota decompress_anew
    decompress_and_validate decompress keep_if_ok remove_file_if_exists unlink rename
    open_and_validate_decompressed_apex validate_decompressed_apex open_apex open_package
    locate_image read_pubkey parse_manifest retrieve_fs_type bytes_eq path_exists file_exists
    delete_dir_content remove_below is_below get_package_id int_to_text to_text find assign erase
    verify_apex_verity get_avb_footer verify_vb_meta verify_vb_meta_signature signature_result
    compare_keys find_descriptor verify_descriptor to_int
process_compressed_apex-IsOriginalOf_example =
    process_compressed_apex-IsOriginalOf host decompressor compressed_tz decompressed_tz false
      daemon refl

-- The file that was extracted gets a wrong label.
process_compressed_apex-cleans_example :
    find
      (process_compressed_apex host
        (record decompressor { restorecon_fails = λ p. true })
        true
        compressed_tz
        daemon).1.fs.files
      "/data/apex/decompressed/tz@3.ota.apex"
    ≡ none
unfolding process_compressed_apex reuse_decompressed reuse_ota rename_ota decompress_anew
    decompress_and_validate decompress keep_if_ok remove_file_if_exists unlink rename
    open_and_validate_decompressed_apex validate_decompressed_apex open_apex open_package
    locate_image read_pubkey parse_manifest retrieve_fs_type bytes_eq path_exists file_exists
    delete_dir_content remove_below is_below get_package_id int_to_text to_text find assign erase
    verify_apex_verity get_avb_footer verify_vb_meta verify_vb_meta_signature signature_result
    compare_keys find_descriptor verify_descriptor to_int
process_compressed_apex-cleans_example =
    process_compressed_apex-cleans host (record decompressor { restorecon_fails = λ p. true })
      compressed_tz true daemon "Failed to restorecon /data/apex/decompressed/tz@3.ota.apex" refl
      refl
