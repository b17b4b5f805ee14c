-- ===== src/Examples/Mounting.antt =====
-- A data package that is mounted, verified and activated, on a kernel that grants each call.
use system_apex.Base.{
  true, false, none, some, [], ◌∷◌, ◌≡◌, ◌≢◌, ◌⊎◌, refl, pos, ok, abort, arith, All, ◌≤ℤ◌,
}
use system_apex.Database.{MountedApexData}
use system_apex.Kernel.{Kernel, Trace, Call, DmDeviceState, Errno}
use system_apex.Kernel.Held.{
  Resource, held, unreleased, refused, among, releases, creates, same_resource,
}
use system_apex.Loop.{LoopHost}
use system_apex.Loop.Queue.{BlockDevices}
use system_apex.Mounting.{MountHost, MountRequest, MountState}
use system_apex.Mounting.Image.{
  verify_mounted_image, verify_signature, mount_on_verity, loop_with_retries, mount_device,
  mount_image, mounted_data, mount_loop, mount_in_place, mount_package_impl,
}
use system_apex.Mounting.Verity.{
  read_verity_device, read_chunks, delete_verity_device, create_verity_table, create_new_device,
  create_verity_device, or_clear, or_delete, make_hash_device, or_release, setup_verity,
}
use system_apex.Loop.{
  destroy_loop_device, configure_scheduler, configure_read_ahead, configure_loop_device,
  open_target, first_open, poll_device, wait_for_device, create_loop_device, tune_loop_device,
  create_and_configure_loop_device,
}
use system_apex.Loop.Queue.{configure_queue_depth}
use system_apex.Kernel.{require, or_undo}
use system_apex.Repository.Queries.{
  get_public_key, is_block_apex, is_pre_installed_apex, is_decompressed_apex,
}
use system_apex.ApexFile.Verity.{
  verify_apex_verity, get_avb_footer, verify_vb_meta, verify_vb_meta_signature, signature_result,
  compare_keys, find_descriptor, verify_descriptor,
}
use system_apex.Daemon.Verify.{is_shim_apex}
use system_apex.Base.{to_int, find, assign}
use system_apex.Text.{filename, parse_uint, to_text, int_to_text}
use system_apex.Mounting.NoLeak.{owned_by, mount_package_impl_leaks_nothing}
use system_apex.Mounting.Undone.{StaysLabelled, unmount-mount_package_impl}
use system_apex.Mounting.Temporary.{Frees, Restored, run_verify_fn_inside_temp_mount-Restored}
use system_apex.Mounting.Unmount.{unmount, free_devices, destroy_named}
use system_apex.Database.{insert_mount}
use system_apex.ApexFile.{get_package_id}
use system_apex.Database.Mounts.{
  last_mount, do_if_latest, get_latest_mounted_apex, latest_of, latest_first, of_kind,
  check_unique_loop_dm, check_all, check_mounts, insert_device, mounts_of, add_mounted_apex,
  mounted_apexes_of,
}
use system_apex.Mounting.Packages.{
  verify_and_temp_mount_package, remove_old_hash_tree, discard_hash_tree, record_mount,
  after_verify, temp_request, get_hash_tree_file_name, get_package_temp_mount_point, mount_package,
  get_active_mount_point, run_verify_fn_inside_temp_mount, get_temp_mounted_apex_data,
  unmount_temp_mounts, get_package_mount_point,
}
use system_apex.Mounting.Activate.{
  activate_package_impl, activate_unless_active, bind_if_latest, bind_mount_to, clear_target,
  verify_shim, version_found, is_valid_package_name,
}
use system_apex.Mounting.Active.{LatestIs, Visible, activate_package_impl-Visible}
use system_apex.Mounting.Sorted.{activates, here, step_on, Reach-get_latest}
use system_apex.Mounting.AllTemporary.{count_temp}
use system_apex.Mounting.AllUnmounted.{AllUnmounted, unmount_temp_mounts-AllUnmounted}
use system_apex.Loop.Waiting.{wait_for_device-returns, wait_for_device-error}
use system_apex.Examples.{manifest_of, data_tz, repo, found_apex}
use system_apex.Examples.Packages.{avb_of_tz}

abbrev pub kernel : Kernel
kernel = record {
  succeeds = λ t c. true;
  errno = λ t c. Errno.other_errno;
  get_free = λ t. some 7;
  can_open = λ t path. true;
  has_loop_configure = true;
  open_direct = λ t path. true;
  open_buffered = λ t path. true;
  lacks_direct_io = λ t path. false;
  path_exists = λ t path. ok false;
  can_access = λ t path. false;
  is_dir = λ t path. true;
  is_empty_directory = λ t path. true;
  read_file = λ t path. some "none";
  dm_state = λ t name. DmDeviceState.invalid;
  dm_path = λ t name. "/dev/block/dm-4";
  dm_wait = λ t name. some "/dev/block/dm-4";
  cold_boot_done = λ t. true;
}

-- A kernel whose loop devices cannot be opened.
abbrev closed_kernel : Kernel
closed_kernel = record kernel { can_open = λ t path. false }

abbrev pub blocks : BlockDevices
blocks = record {
  dev_of = λ path. some 1;
  dev_block = [];
  parent_of = λ path. none;
  extract_name = λ path. some "sda26";
  class_block = [];
  exists = λ path. false;
  strtol = λ text. 64;
  depth = 1;
}

abbrev pub loops : LoopHost
loops = record {
  kernel = kernel;
  blocks = blocks;
  attempts = 3;
  polls = 10;
  crypt_name = λ t name. some "apex:";
}

abbrev closed_loops : LoopHost
closed_loops = record loops { kernel = closed_kernel }

abbrev pub mount_host : MountHost
mount_host = record {
  loops = loops;
  repository = repo;
  avb = λ t. avb_of_tz;
  open_apex = λ t path. found_apex path;
  read_manifest = λ t path. ok (manifest_of "tz" (pos 2));
  same_manifest = λ a b. true;
  validate_shim_apex = λ t mount_point apex. ok tt;
  verify_package_boot = λ t apex. ok tt;
  calculate_root_digest = λ t path verity. ok "d1";
  read_fully = λ t device offset length. true;
  apex_hash_tree_dir = "/data/apex/hashtree";
}

abbrev request : MountRequest
request = record {
  mount_point = "/apex/tz@2";
  device_name = "tz@2";
  hashtree_file = "/data/apex/hashtree/tz@2";
  verify_image = false;
  reuse_device = false;
  temp_mount = false;
}

abbrev mounted_tz : MountedApexData
mounted_tz = record {
  version = pos 2;
  loop_name = "/dev/block/loop7";
  full_path = "/data/apex/active/tz@2.apex";
  mount_point = "/apex/tz@2";
  device_name = "tz@2";
  hashtree_loop_name = "";
  deleted = false;
  is_temp_mount = false;
}

abbrev mount_trace : Trace → Trace
mount_trace t =
    (Call.mount "/dev/block/dm-4" "/apex/tz@2" "ext4" false, true)
    ∷ (Call.write_file "/sys/block/dm-4/queue/read_ahead_kb" "128", true)
    ∷ (
      Call.create_device "tz@2" (record {
        sectors = 8;
        verity_version = 1;
        block_device = "/dev/block/loop7";
        hash_device = "/dev/block/loop7";
        data_block_size = 4096;
        hash_block_size = 4096;
        num_data_blocks = 1;
        hash_start_block = 1;
        hash_algorithm = "sha256";
        root_digest = "d1";
        salt = "00";
        restart_on_corruption = true;
      }),
      true,
    )
    ∷ (Call.write_file "/sys/block/loop7/queue/read_ahead_kb" "128", true)
    ∷ (
      Call.loop_configure "/dev/block/loop7" "/data/apex/active/tz@2.apex" (record {
        lo_crypt_name = "apex:";
        lo_offset = 4096;
        lo_sizelimit = 8192;
        autoclear = true;
        direct_io = false;
      }),
      true,
    )
    ∷ (Call.mkdir "/apex/tz@2", true)
    ∷ t

mounts_tz :
    (t : Trace) → mount_package_impl mount_host request data_tz t ≡ (ok mounted_tz, mount_trace t)
unfolding verify_mounted_image verify_signature mount_on_verity loop_with_retries mount_device
    mount_image mounted_data mount_loop mount_in_place mount_package_impl create_verity_table
    create_new_device create_verity_device or_clear or_delete make_hash_device or_release
    setup_verity configure_scheduler configure_read_ahead configure_loop_device open_target
    first_open poll_device wait_for_device create_loop_device tune_loop_device
    create_and_configure_loop_device configure_queue_depth require or_undo get_public_key
    is_block_apex is_pre_installed_apex is_decompressed_apex verify_apex_verity get_avb_footer
    verify_vb_meta verify_vb_meta_signature signature_result compare_keys find_descriptor
    verify_descriptor is_shim_apex to_int find filename parse_uint to_text
mounts_tz t = refl

mount_package_impl_leaks_nothing_example :
    (held (Resource.loop_device "/dev/block/loop7") [] ≡ true)
    ⊎ ((m : MountedApexData) × ((mount_package_impl mount_host request data_tz []).0 ≡ ok m)
        × (among (Resource.loop_device "/dev/block/loop7") (owned_by m) ≡ true))
    ⊎ ((mount_package_impl mount_host request data_tz []).0 ≡ abort)
    ⊎ (refused
          (Resource.loop_device "/dev/block/loop7")
          (mount_package_impl mount_host request data_tz []).1
        ≡ true)
mount_package_impl_leaks_nothing_example =
    mount_package_impl_leaks_nothing mount_host request data_tz []
      (Resource.loop_device "/dev/block/loop7")
      (rw (mounts_tz []) (unfold held releases creates same_resource in refl))

labelled : StaysLabelled loops
labelled t name h = (refl, refl)

frees : Frees kernel
frees = record { unmounts = λ t target. refl; deletes = λ t name. refl }

abbrev unmount_trace : Trace → Trace
unmount_trace t =
    (Call.loop_clr_fd "/dev/block/loop7", true)
    ∷ (Call.delete_device "tz@2" false, true)
    ∷ (Call.rmdir "/apex/tz@2", true)
    ∷ (Call.umount "/apex/tz@2" false, true)
    ∷ mount_trace t

unmounts_tz :
    (t : Trace) → unmount mount_host mounted_tz false (mount_trace t) ≡ (ok tt, unmount_trace t)
unfolding unmount free_devices delete_verity_device require destroy_named destroy_loop_device
unmounts_tz t = refl

-- A mount that was there before.
abbrev earlier : Trace
earlier = (Call.mkdir "/apex/other", true) ∷ []

unmount-mount_package_impl_example :
    held (Resource.loop_device "/dev/block/loop7") (unmount_trace earlier) ≡ false
unfolding held unreleased refused releases creates same_resource among
unmount-mount_package_impl_example =
    unmount-mount_package_impl mount_host request data_tz earlier (mount_trace earlier)
      (unmount_trace earlier) mounted_tz (Resource.loop_device "/dev/block/loop7") labelled
      (mounts_tz earlier) (unmounts_tz earlier) refl refl refl

abbrev pub empty_state : MountState
empty_state = record { trace = []; mounted = record { mounted_apexes = [] } }

abbrev verified_state : MountState
verified_state =
    (run_verify_fn_inside_temp_mount mount_host data_tz (λ t path. ok tt) true empty_state).1

verifies_tz :
    (run_verify_fn_inside_temp_mount mount_host data_tz (λ t path. ok tt) true empty_state).0
    ≡ ok tt
unfolding run_verify_fn_inside_temp_mount verify_and_temp_mount_package remove_old_hash_tree
    discard_hash_tree record_mount after_verify temp_request get_hash_tree_file_name
    get_package_temp_mount_point get_package_mount_point get_package_id int_to_text add_mounted_apex
    insert_mount check_unique_loop_dm check_all check_mounts insert_device assign read_verity_device
    read_chunks verify_mounted_image verify_signature mount_on_verity loop_with_retries mount_device
    mount_image mounted_data mount_loop mount_in_place mount_package_impl create_verity_table
    create_new_device create_verity_device or_clear or_delete make_hash_device or_release
    setup_verity configure_scheduler configure_read_ahead configure_loop_device open_target
    first_open poll_device wait_for_device create_loop_device tune_loop_device
    create_and_configure_loop_device configure_queue_depth require or_undo get_public_key
    is_block_apex is_pre_installed_apex is_decompressed_apex verify_apex_verity get_avb_footer
    verify_vb_meta verify_vb_meta_signature signature_result compare_keys find_descriptor
    verify_descriptor is_shim_apex to_int find filename parse_uint to_text
verifies_tz = refl

run_verify_fn_inside_temp_mount-Restored_example : Restored empty_state verified_state
run_verify_fn_inside_temp_mount-Restored_example =
    run_verify_fn_inside_temp_mount-Restored mount_host data_tz (λ t path. ok tt) empty_state
      labelled frees (unfold find in refl) (λ e. cc verifies_tz)

abbrev pub activated : MountState
activated = record {
  trace =
      (Call.bind_mount "/apex/tz@2" "/apex/tz", true)
      ∷ (Call.mkdir "/apex/tz", true)
      ∷ mount_trace [];
  mounted = record { mounted_apexes = ("tz", mounted_tz ∷ []) ∷ [] };
}

pub activates_tz :
    activate_package_impl mount_host data_tz "tz@2" false empty_state ≡ (ok tt, activated)
unfolding activate_package_impl activate_unless_active bind_if_latest bind_mount_to clear_target
    verify_shim version_found is_valid_package_name mounted_apexes_of do_if_latest last_mount
    mount_package record_mount get_hash_tree_file_name get_package_mount_point
    get_active_mount_point get_package_id int_to_text add_mounted_apex insert_mount
    check_unique_loop_dm check_all check_mounts insert_device assign verify_mounted_image
    verify_signature mount_on_verity loop_with_retries mount_device mount_image mounted_data
    mount_loop mount_in_place mount_package_impl create_verity_table create_new_device
    create_verity_device or_clear or_delete make_hash_device or_release setup_verity
    configure_scheduler configure_read_ahead configure_loop_device open_target first_open
    poll_device wait_for_device create_loop_device tune_loop_device create_and_configure_loop_device
    configure_queue_depth require or_undo get_public_key is_block_apex is_pre_installed_apex
    is_decompressed_apex verify_apex_verity get_avb_footer verify_vb_meta verify_vb_meta_signature
    signature_result compare_keys find_descriptor verify_descriptor is_shim_apex to_int find
    filename parse_uint to_text
activates_tz = refl

activate_package_impl-Visible_example :
    ((activated ≡ empty_state) × LatestIs mount_host data_tz empty_state)
    ⊎ Visible data_tz activated
activate_package_impl-Visible_example =
    activate_package_impl-Visible mount_host data_tz "tz@2" false empty_state activated refl
      activates_tz

Reach-get_latest_example :
    All
      (λ (m : MountedApexData). m.version ≤ℤ pos 2)
      (mounts_of (find activated.mounted.mounted_apexes "tz"))
    × (mounted_tz.is_temp_mount ≡ false)
Reach-get_latest_example =
    Reach-get_latest mount_host empty_state activated "tz" mounted_tz refl
      (step_on here (activates data_tz "tz@2" false (rw activates_tz)))
      (unfold get_latest_mounted_apex latest_of mounted_apexes_of latest_first of_kind find in refl)

-- A temporary mount and a plain one.
abbrev temporary_state : MountState
temporary_state = record {
  trace = [];
  mounted = record {
    mounted_apexes =
        (
          "tz",
          mounted_tz
              ∷ record mounted_tz { mount_point = "/apex/tz@2.tmp"; is_temp_mount = true }
              ∷ [],
        )
        ∷ [];
  };
}

unmount_temp_mounts-AllUnmounted_example :
    (get_temp_mounted_apex_data (unmount_temp_mounts mount_host 2 "tz" temporary_state) "tz" ≡ none)
    × AllUnmounted
        (unmount_temp_mounts mount_host 2 "tz" temporary_state).trace
        (mounts_of (find temporary_state.mounted.mounted_apexes "tz"))
unmount_temp_mounts-AllUnmounted_example =
    unmount_temp_mounts-AllUnmounted mount_host 2 "tz" temporary_state
      (unfold find count_temp in omega arith)

wait_for_device-returns_example : (wait_for_device loops 7 []).0 ≢ abort
wait_for_device-returns_example =
    wait_for_device-returns loops 7 0 [] (λ t h. refl) (omega arith) (omega arith)

wait_for_device-error_example :
    closed_kernel.cold_boot_done (wait_for_device closed_loops 7 []).1 ≡ true
unfolding wait_for_device poll_device first_open to_text
wait_for_device-error_example =
    wait_for_device-error closed_loops 7 [] "Failed to open loopback device 7" (λ t c done h. refl)
      (omega arith) refl
