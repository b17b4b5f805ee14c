-- ===== src/Examples/Boot.antt =====
-- The packages at boot: one that is activated, one that is missing, and the clean-up.
use system_apex.Base.{Result, none, false, [], ◌∷◌, ◌≡◌, refl, ap, ◌∙◌, ok, find, true}
use system_apex.ApexFile.{ApexFile, get_package_id}
use system_apex.Text.{int_to_text, to_text, parent_path, ends_with, filename}
use system_apex.Mounting.{MountHost, MountState}
use system_apex.Mounting.Packages.{is_mounted, has_path}
use system_apex.Database.Mounts.{all_mounted}
use system_apex.Repository.Queries.{
  is_pre_installed_apex, is_decompressed_apex, get_pre_installed_apex,
}
use system_apex.Mounting.Activate.{activate_package_impl}
use system_apex.Boot.{BootHost, BootState}
use system_apex.Boot.Lists.{
  names_of, open_latest, get_active_packages, get_active_packages_map, versions_by_name,
}
use system_apex.Boot.Batch.{
  ActivationMode, is_boot_mode, activate_apex_packages, activate_apex_worker, device_name_of,
  final_tally, count_outcomes, contribute_each, sort_by, no_outcomes,
}
use system_apex.Boot.Missing.{fallback_apexes, needs_no_fallback, activate_missing_apexes}
use system_apex.Boot.FellBack.{FellBack, activate_missing_apexes-FellBack}
use system_apex.Boot.Activated.{activate_apex_packages-Mounted}
use system_apex.Boot.Single.{Mounted}
use system_apex.Boot.Completed.{boot_completed_cleanup}
use system_apex.Boot.Inactive.{is_data_apex}
use system_apex.Boot.Cleaned.{DeletesSuspended, boot_completed_cleanup-exact}
use system_apex.Examples.{data_tz, device}
use system_apex.Examples.Staging.{verifier}
use system_apex.Examples.Stores.{repo-StoresKeyed}
use system_apex.Examples.Sessions.{disk-Distinct}
use system_apex.Examples.Daemons.{host, daemon, decompressor}
use system_apex.Examples.Mounting.{mount_host, empty_state, activated, activates_tz}
use system_apex.Mounting.Image.{
  verify_mounted_image, verify_signature, mount_on_verity, loop_with_retries, mount_device,
  mount_image, mounted_data, mount_loop, mount_in_place, mount_package_impl,
}
use system_apex.Mounting.Verity.{
  create_verity_table, create_new_device, create_verity_device, or_clear, or_delete,
  make_hash_device, or_release, setup_verity,
}
use system_apex.Loop.{
  configure_scheduler, configure_read_ahead, configure_loop_device, open_target, first_open,
  poll_device, wait_for_device, create_loop_device, tune_loop_device,
  create_and_configure_loop_device,
}
use system_apex.Loop.Queue.{configure_queue_depth}
use system_apex.Kernel.{require, or_undo}
use system_apex.Repository.Queries.{get_public_key, is_block_apex}
use system_apex.ApexFile.Verity.{
  verify_apex_verity, get_avb_footer, verify_vb_meta, verify_vb_meta_signature, signature_result,
  compare_keys, find_descriptor, verify_descriptor,
}
use system_apex.Daemon.Verify.{is_shim_apex}
use system_apex.Base.{to_int, assign}
use system_apex.Text.{parse_uint}
use system_apex.Database.{insert_mount}
use system_apex.Database.Mounts.{
  last_mount, do_if_latest, check_unique_loop_dm, check_all, check_mounts, insert_device,
  add_mounted_apex, mounted_apexes_of,
}
use system_apex.Mounting.Packages.{
  record_mount, get_hash_tree_file_name, mount_package, get_active_mount_point,
  get_package_mount_point,
}
use system_apex.Mounting.Activate.{
  activate_unless_active, bind_if_latest, bind_mount_to, clear_target, verify_shim, version_found,
  is_valid_package_name,
}
use system_apex.Boot.Missing.{activate_fallbacks, decompress_fallbacks, insert_names}

abbrev pub boot_host : BootHost
boot_host = record {
  mounting = mount_host;
  host = host;
  decompressor = decompressor;
  contribute_to_shared_libs = λ t mount_point. ok tt;
  available_devices = λ t. none;
  sysfs = λ t. record {
    read_trimmed = λ path. none;
    entries = λ dir. [];
    is_block_file = λ path. true;
    mounts = [];
  };
  dirs = record {
    active_apex_dir = "/data/apex/active";
    decompression_dir = "/data/apex/decompressed";
    apex_hash_tree_dir = "/data/apex/hashtree";
  };
  device = λ d. device;
  verifier = verifier;
  needs_rollback = ok false;
}

named : device_name_of ActivationMode.bootstrap_mode data_tz ≡ "tz@2"
unfolding device_name_of get_package_id int_to_text to_text
named = refl

worker_alone :
    (h : MountHost) (mode : ActivationMode) (apex : ApexFile) (s s₁ : MountState)
    → activate_package_impl h apex (device_name_of mode apex) (is_boot_mode mode) s ≡ (ok tt, s₁)
    → activate_apex_worker h mode (apex ∷ []) s ≡ (ok (ok apex ∷ []), s₁)
unfolding activate_apex_worker
worker_alone h mode apex s s₁ e =
    rw (activate_apex_worker, e)
      (ap (λ (r : Result (Unit {0}) × MountState). (ok (ok apex ∷ []), r.1)) e)

one_works :
    activate_apex_worker mount_host ActivationMode.bootstrap_mode (data_tz ∷ []) empty_state
    ≡ (ok (ok data_tz ∷ []), activated)
one_works =
    worker_alone mount_host ActivationMode.bootstrap_mode data_tz empty_state activated
      (ap (λ n. activate_package_impl mount_host data_tz n false empty_state) named ∙ activates_tz)

activates_all :
    activate_apex_packages boot_host ActivationMode.bootstrap_mode (data_tz ∷ []) empty_state
    ≡ (ok tt, activated)
unfolding activate_apex_packages final_tally count_outcomes contribute_each sort_by no_outcomes
activates_all = rw one_works refl

activate_apex_packages-Mounted_example : Mounted mount_host data_tz activated.mounted × Unit {0}
activate_apex_packages-Mounted_example =
    activate_apex_packages-Mounted boot_host ActivationMode.bootstrap_mode (data_tz ∷ [])
      empty_state activated activates_all

abbrev pub booted : BootState
booted = record { apexd = daemon; mounts = empty_state }

-- The package on /data is not active, and the pre-installed one takes its place.
abbrev fallen_back : BootState
fallen_back =
    (activate_missing_apexes boot_host (data_tz ∷ []) ActivationMode.bootstrap_mode booted).1

falls_back :
    (activate_missing_apexes boot_host (data_tz ∷ []) ActivationMode.bootstrap_mode booted).0
    ≡ ok tt
unfolding activate_apex_packages activate_apex_worker activate_fallbacks activate_missing_apexes
    activate_package_impl activate_unless_active add_mounted_apex all_mounted assign bind_if_latest
    bind_mount_to check_all check_mounts check_unique_loop_dm clear_target compare_keys
    configure_loop_device configure_queue_depth configure_read_ahead configure_scheduler
    contribute_each count_outcomes create_and_configure_loop_device create_loop_device
    create_new_device create_verity_device create_verity_table decompress_fallbacks device_name_of
    do_if_latest fallback_apexes filename final_tally find find_descriptor first_open
    get_active_mount_point get_active_packages get_active_packages_map get_avb_footer
    get_hash_tree_file_name get_package_id get_package_mount_point get_pre_installed_apex
    get_public_key insert_device insert_mount insert_names int_to_text is_block_apex
    is_decompressed_apex is_pre_installed_apex is_shim_apex is_valid_package_name last_mount
    loop_with_retries make_hash_device mount_device mount_image mount_in_place mount_loop
    mount_on_verity mount_package mount_package_impl mounted_apexes_of mounted_data names_of
    needs_no_fallback no_outcomes open_latest open_target or_clear or_delete or_release or_undo
    parse_uint poll_device record_mount require setup_verity signature_result sort_by to_int to_text
    tune_loop_device verify_apex_verity verify_descriptor verify_mounted_image verify_shim
    verify_signature verify_vb_meta verify_vb_meta_signature version_found versions_by_name
    wait_for_device
falls_back = refl

activate_missing_apexes-FellBack_example :
    FellBack boot_host ActivationMode.bootstrap_mode (data_tz ∷ []) booted fallen_back
unfolding names_of open_latest get_active_packages get_active_packages_map is_pre_installed_apex
    is_decompressed_apex get_pre_installed_apex find all_mounted
activate_missing_apexes-FellBack_example =
    activate_missing_apexes-FellBack boot_host ActivationMode.bootstrap_mode (data_tz ∷ []) booted
      fallen_back repo-StoresKeyed (ap (λ (r : Result (Unit {0})). (r, fallen_back)) falls_back)

boot_completed_cleanup-exact_example :
    (find (boot_completed_cleanup boot_host booted).apexd.fs.files "/data/apex/active/tz@2.apex"
      ≡ none)
    × (find (boot_completed_cleanup boot_host booted).apexd.sessions "/s/2" ≡ none)
    × DeletesSuspended boot_host [] (boot_completed_cleanup boot_host booted).mounts.trace
unfolding find is_data_apex is_mounted has_path parent_path ends_with filename all_mounted
boot_completed_cleanup-exact_example =
    boot_completed_cleanup-exact boot_host booted "/data/apex/active/tz@2.apex" "/s/2" refl
      (λ d. refl) disk-Distinct
