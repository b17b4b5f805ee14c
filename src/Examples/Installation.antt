-- ===== src/Examples/Installation.antt =====
-- A package that is installed without a reboot over an active version.
use system_apex.Base.{
  String, true, false, some, [], ◌∷◌, ◌≡◌, ◌≢◌, refl, ap, pos, ◌-◌, ◌^◌, Result, ok, abort, arith,
  if◌then◌else◌, ◌==◌,
}
use system_apex.ApexFile.{ApexFile}
use system_apex.Mounting.{MountState}
use system_apex.Installation.{InstallHost}
use system_apex.Installation.Install.{
  accept_install, activate_new, go_back, install_checked, install_package, load_apex_from_init,
  new_id, reload, replace_active, tell_init, unload_apex_from_init,
}
use system_apex.Mounting.Activate.{
  activate_package_impl, activate_unless_active, bind_if_latest, bind_mount_to, clear_target,
  is_valid_package_name, verify_shim, version_found,
}
use system_apex.Database.Mounts.{
  add_mounted_apex, check_all, check_mounts, check_unique_loop_dm, do_if_latest,
  get_latest_mounted_apex, insert_device, last_mount, latest_first, latest_of, mounted_apexes_of,
  of_kind, remove_mount, remove_mounted_apex,
}
use system_apex.Mounting.Packages.{
  after_verify, clean_temp_mount, discard_hash_tree, find_mounted, get_active_mount_point,
  get_hash_tree_file_name, get_package_mount_point, get_package_temp_mount_point, mount_package,
  record_mount, remove_old_hash_tree, run_verify_fn_inside_temp_mount, temp_request, unmount_active,
  unmount_package, unmount_recorded, verify_and_temp_mount_package,
}
use system_apex.Base.{assign, find, to_int}
use system_apex.Installation.{
  check_mounted, check_rebootless, check_supports_non_staged_install,
  verify_package_non_staged_install,
}
use system_apex.ApexFile.Verity.{
  compare_keys, find_descriptor, get_avb_footer, signature_result, verify_apex_verity,
  verify_descriptor, verify_vb_meta, verify_vb_meta_signature,
}
use system_apex.Installation.Minor.{
  compute_package_id_minor, minor_of, raise_minor, scan_devices, skip_existing, target_file,
}
use system_apex.Loop.{
  configure_loop_device, configure_read_ahead, configure_scheduler,
  create_and_configure_loop_device, create_loop_device, destroy_loop_device, first_open,
  open_target, poll_device, tune_loop_device, wait_for_device,
}
use system_apex.Loop.Queue.{configure_queue_depth}
use system_apex.Mounting.Verity.{
  create_new_device, create_verity_device, create_verity_table, delete_verity_device,
  make_hash_device, or_clear, or_delete, or_release, read_chunks, read_verity_device, setup_verity,
}
use system_apex.Mounting.Unmount.{destroy_named, free_devices, unmount}
use system_apex.Text.{
  filename, has_char, int_to_text, last_piece, parse_uint, split, strip_prefix, to_text,
}
use system_apex.ApexFile.{get_package_id}
use system_apex.Repository.Queries.{
  get_pre_installed_apex, get_public_key, is_block_apex, is_decompressed_apex,
  is_pre_installed_apex,
}
use system_apex.Database.{insert_mount}
use system_apex.Daemon.Verify.{is_shim_apex, is_vendor_apex, is_vendor_path}
use system_apex.Mounting.Image.{
  loop_with_retries, mount_device, mount_image, mount_in_place, mount_loop, mount_on_verity,
  mount_package_impl, mounted_data, verify_mounted_image, verify_signature,
}
use system_apex.Kernel.{or_undo, require}
use system_apex.Database.{less}
use system_apex.Installation.Fresh.{
  IsFresh, compute_package_id_minor-IsFresh, compute_package_id_minor-returns,
}
use system_apex.Installation.Checked.{IsChecked, install_package-IsChecked}
use system_apex.Examples.{manifest_of, data_tz, apex_at}
use system_apex.Examples.Mounting.{mount_host}

-- A newer version that supports the update.
abbrev rebootless_tz : String → ApexFile
rebootless_tz path = record (apex_at path "tz" (pos 3)) {
  manifest = record (manifest_of "tz" (pos 3)) { supports_rebootless_update = true };
}

abbrev opened : String → Result ApexFile
opened path =
    if path == "/data/local/tz.apex"
    then ok (rebootless_tz path)
    else if path == "/data/apex/active/tz@2.apex"
    then ok data_tz
    else ok (rebootless_tz path)

abbrev install_host : InstallHost
install_host = record {
  mounting = record mount_host { open_apex = λ t path. opened path };
  active_apex_data_dir = "/data/apex/active";
  dm_devices = λ t. some ("tz@2" ∷ "tz@1_4" ∷ "wifi@1" ∷ []);
  get_subdirs = λ t path. ok [];
  check_vendor_apex_update = λ t apex path. ok tt;
  apex_info_list = λ s. "";
}

compute_package_id_minor-IsFresh_example :
    IsFresh install_host []
      (rebootless_tz "/data/local/tz.apex")
      ("tz@2" ∷ "tz@1_4" ∷ "wifi@1" ∷ [])
      5
unfolding compute_package_id_minor scan_devices minor_of skip_existing raise_minor strip_prefix
    has_char last_piece split parse_uint
compute_package_id_minor-IsFresh_example =
    compute_package_id_minor-IsFresh install_host 2 [] (rebootless_tz "/data/local/tz.apex")
      ("tz@2" ∷ "tz@1_4" ∷ "wifi@1" ∷ []) 5 (2 ^ 64 - 1) refl refl refl refl

compute_package_id_minor-returns_example :
    compute_package_id_minor install_host 2 [] (rebootless_tz "/data/local/tz.apex") ≢ abort
compute_package_id_minor-returns_example =
    compute_package_id_minor-returns install_host 2 1 [] (rebootless_tz "/data/local/tz.apex")
      (omega arith) (λ m h. refl) (omega arith)

abbrev active_state : MountState
active_state = record {
  trace = [];
  mounted = record {
    mounted_apexes =
        (
          "tz",
          record {
            version = pos 2;
            loop_name = "/dev/block/loop5";
            full_path = "/data/apex/active/tz@2.apex";
            mount_point = "/apex/tz@2";
            device_name = "tz@2";
            hashtree_loop_name = "";
            deleted = false;
            is_temp_mount = false;
          }
              ∷ [],
        )
        ∷ [];
  };
}

abbrev installed_tz : ApexFile
installed_tz = rebootless_tz "/data/apex/active/tz@3_5.apex"

installs_tz :
    (install_package install_host 2 "/data/local/tz.apex" false active_state).0 ≡ ok installed_tz
unfolding less accept_install activate_new activate_package_impl activate_unless_active
    add_mounted_apex after_verify assign bind_if_latest bind_mount_to check_all check_mounted
    check_mounts check_rebootless check_supports_non_staged_install check_unique_loop_dm
    clean_temp_mount clear_target compare_keys compute_package_id_minor configure_loop_device
    configure_queue_depth configure_read_ahead configure_scheduler create_and_configure_loop_device
    create_loop_device create_new_device create_verity_device create_verity_table
    delete_verity_device destroy_loop_device destroy_named discard_hash_tree do_if_latest filename
    find find_descriptor find_mounted first_open free_devices get_active_mount_point get_avb_footer
    get_hash_tree_file_name get_latest_mounted_apex get_package_id get_package_mount_point
    get_package_temp_mount_point get_pre_installed_apex get_public_key go_back has_char
    insert_device insert_mount install_checked install_package int_to_text is_block_apex
    is_decompressed_apex is_pre_installed_apex is_shim_apex is_valid_package_name is_vendor_apex
    is_vendor_path last_mount last_piece latest_first latest_of load_apex_from_init
    loop_with_retries make_hash_device minor_of mount_device mount_image mount_in_place mount_loop
    mount_on_verity mount_package mount_package_impl mounted_apexes_of mounted_data new_id of_kind
    open_target or_clear or_delete or_release or_undo parse_uint poll_device raise_minor read_chunks
    read_verity_device record_mount reload remove_mount remove_mounted_apex remove_old_hash_tree
    replace_active require run_verify_fn_inside_temp_mount scan_devices setup_verity
    signature_result skip_existing split strip_prefix target_file tell_init temp_request to_int
    to_text tune_loop_device unload_apex_from_init unmount unmount_active unmount_package
    unmount_recorded verify_and_temp_mount_package verify_apex_verity verify_descriptor
    verify_mounted_image verify_package_non_staged_install verify_shim verify_signature
    verify_vb_meta verify_vb_meta_signature version_found wait_for_device
installs_tz = refl

abbrev installed_state : MountState
installed_state = (install_package install_host 2 "/data/local/tz.apex" false active_state).1

install_package-IsChecked_example :
    IsChecked install_host "/data/local/tz.apex" false active_state installed_state installed_tz
install_package-IsChecked_example =
    install_package-IsChecked install_host 2 "/data/local/tz.apex" false active_state
      installed_state installed_tz (ap (λ (r : Result ApexFile). (r, installed_state)) installs_tz)
