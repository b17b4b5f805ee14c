-- ===== src/Examples/Starting.antt =====
-- `OnStart` at a device with an updated package.
use system_apex.Activation.Select.{
  select_apex_for_activation, select_group, select_between, select_apex,
}
use system_apex.ApexFile.{get_package_id, ApexFile}
use system_apex.ApexFile.Verity.{
  verify_apex_verity, get_avb_footer, verify_vb_meta, verify_vb_meta_signature, signature_result,
  compare_keys, find_descriptor, verify_descriptor,
}
use system_apex.Base.{assign, to_int, find, emplace, ◌≡◌, refl, ap, ok, ◌⊎◌, List}
use system_apex.Boot.{BootState}
use system_apex.Boot.Single.{Mounted}
use system_apex.Boot.Batch.{
  activate_apex_packages, activate_apex_worker, device_name_of, final_tally, count_outcomes,
  contribute_each, sort_by, no_outcomes,
}
use system_apex.Boot.Missing.{decompress_fallbacks}
use system_apex.Boot.Start.{
  on_start, prepare_start, revert_if_needed, make_shared_libs_dir, create_shared_libs_apex_dir,
  create_unless_there, collect_data_apex, activate_selected,
}
use system_apex.Boot.Started.{Unrecovered, on_start-Mounted}
use system_apex.Daemon.Revert.{resume_revert_if_needed}
use system_apex.Daemon.Scan.{
  scan_staged_sessions_dir_and_stage, sessions_to_activate, stage_sessions,
}
use system_apex.Daemon.Verify.{is_shim_apex}
use system_apex.Database.{insert_mount}
use system_apex.Database.Mounts.{
  mounted_apexes_of, do_if_latest, last_mount, add_mounted_apex, check_unique_loop_dm, check_all,
  check_mounts, insert_device,
}
use system_apex.Examples.{data_tz, repo}
use system_apex.Examples.Boot.{boot_host, booted}
use system_apex.Examples.Mounting.{mount_host}
use system_apex.Examples.Stores.{repo-StoresKeyed}
use system_apex.Kernel.{require, or_undo}
use system_apex.Loop.{
  configure_scheduler, configure_read_ahead, configure_loop_device, open_target, first_open,
  poll_device, wait_for_device, create_loop_device, tune_loop_device,
  create_and_configure_loop_device,
}
use system_apex.Loop.Queue.{configure_queue_depth}
use system_apex.Mounting.Activate.{
  activate_package_impl, activate_unless_active, bind_if_latest, bind_mount_to, clear_target,
  verify_shim, version_found, is_valid_package_name,
}
use system_apex.Mounting.Image.{
  verify_mounted_image, verify_signature, mount_on_verity, loop_with_retries, mount_device,
  mount_image, mounted_data, mount_loop, mount_in_place, mount_package_impl,
}
use system_apex.Mounting.Packages.{
  mount_package, record_mount, get_hash_tree_file_name, get_package_mount_point,
  get_active_mount_point,
}
use system_apex.Mounting.Verity.{
  create_verity_table, create_new_device, create_verity_device, or_clear, or_delete,
  make_hash_device, or_release, setup_verity, replace_device, reuse_existing,
}
use system_apex.Repository.Data.{
  add_data_apex, add_data_files, add_data_file, acceptable, store_data_apex,
}
use system_apex.Repository.Queries.{
  get_public_key, is_block_apex, is_pre_installed_apex, is_decompressed_apex,
  has_pre_installed_version, all_apex_files_by_name, group_by_name, values,
  get_pre_installed_apex_files, get_data_apex_files,
}
use system_apex.Session.Manager.{get_sessions_in_state, get_sessions, visited, parse_all}
use system_apex.Text.{int_to_text, filename, parse_uint, to_text, ends_with}

-- A start at which the package on /data is chosen, mounted and activated.
starts : (on_start boot_host booted).0 ≡ ok repo
unfolding activate_package_impl activate_unless_active bind_if_latest bind_mount_to clear_target
    verify_shim version_found is_valid_package_name mounted_apexes_of do_if_latest last_mount
    mount_package record_mount get_hash_tree_file_name get_package_mount_point
    get_active_mount_point get_package_id int_to_text add_mounted_apex insert_mount
    check_unique_loop_dm check_all check_mounts insert_device assign verify_mounted_image
    verify_signature mount_on_verity loop_with_retries mount_device mount_image mounted_data
    mount_loop mount_in_place mount_package_impl create_verity_table create_new_device
    create_verity_device or_clear or_delete make_hash_device or_release setup_verity
    configure_scheduler configure_read_ahead configure_loop_device open_target first_open
    poll_device wait_for_device create_loop_device tune_loop_device create_and_configure_loop_device
    configure_queue_depth require or_undo get_public_key is_block_apex is_pre_installed_apex
    is_decompressed_apex verify_apex_verity get_avb_footer verify_vb_meta verify_vb_meta_signature
    signature_result compare_keys find_descriptor verify_descriptor is_shim_apex to_int find
    filename parse_uint to_text on_start prepare_start revert_if_needed make_shared_libs_dir
    create_shared_libs_apex_dir create_unless_there collect_data_apex activate_selected
    activate_apex_packages activate_apex_worker device_name_of final_tally count_outcomes
    contribute_each sort_by no_outcomes decompress_fallbacks add_data_apex add_data_files
    add_data_file acceptable store_data_apex has_pre_installed_version emplace ends_with
    select_apex_for_activation all_apex_files_by_name group_by_name values
    get_pre_installed_apex_files get_data_apex_files select_group select_between select_apex
    scan_staged_sessions_dir_and_stage sessions_to_activate stage_sessions resume_revert_if_needed
    get_sessions_in_state get_sessions visited parse_all replace_device reuse_existing
starts = refl

on_start-Mounted_example :
    (Mounted mount_host data_tz (on_start boot_host booted).1.mounts.mounted × Unit {0})
    ⊎ ((selected : List ApexFile) × (s₁ : BootState) × (prepare_start boot_host booted
          ≡ (ok repo, s₁))
        × (select_apex_for_activation (all_apex_files_by_name repo) repo ≡ ok selected)
        × Unrecovered boot_host selected s₁)
unfolding find select_between select_apex is_pre_installed_apex is_decompressed_apex to_int
on_start-Mounted_example =
    on_start-Mounted boot_host booted (on_start boot_host booted).1 repo "tz" repo-StoresKeyed
      (ap (λ x. (x, (on_start boot_host booted).1)) starts)
