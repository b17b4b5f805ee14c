-- ===== src/Examples/Mounted.antt =====
-- The database of mounted APEXes at a package with two mounts.
use system_apex.Base.{String, Bool, false, [], ◌∷◌, ◌≡◌, refl, find, assign, ℤ, pos, ok}
use system_apex.Database.{MountedApexData, MountedApexDatabase, less, insert_mount}
use system_apex.Database.Mounts.{
  add_mounted_apex, check_unique_loop_dm, check_all, check_mounts, insert_device,
}
use system_apex.Database.Sysfs.{Dirs, is_data_loop_device, populate_from, no_mount}
use system_apex.Database.Slaves.{populate_from-swap}

abbrev mount_of : ℤ → String → String → Bool → MountedApexData
mount_of v loop path temp = record {
  version = v;
  loop_name = loop;
  full_path = path;
  mount_point = "/apex/tz";
  device_name = "";
  hashtree_loop_name = "";
  deleted = false;
  is_temp_mount = temp;
}

abbrev first_mount : MountedApexData
first_mount = mount_of (pos 1) "/dev/loop1" "/system/apex/tz.apex" false

abbrev second_mount : MountedApexData
second_mount = mount_of (pos 2) "/dev/loop2" "/data/apex/active/tz@2.apex" false

abbrev one_mounted : MountedApexDatabase
one_mounted = record { mounted_apexes = ("tz", first_mount ∷ []) ∷ [] }

abbrev two_mounted : MountedApexDatabase
two_mounted = record { mounted_apexes = ("tz", first_mount ∷ second_mount ∷ []) ∷ [] }

second_added : add_mounted_apex one_mounted "tz" second_mount ≡ ok two_mounted
unfolding add_mounted_apex insert_mount less check_unique_loop_dm check_all check_mounts
    insert_device find assign
second_added = refl

abbrev dirs : Dirs
dirs = record {
  active_apex_dir = "/data/apex/active";
  decompression_dir = "/data/apex/decompressed";
  apex_hash_tree_dir = "/data/apex/hashtree";
}

populate_from-swap_example :
    populate_from dirs no_mount
      (("loop1", "/data/apex/active/tz@2.apex") ∷ ("loop2", "/data/apex/hashtree/tz@2") ∷ [])
    ≡ populate_from dirs no_mount
        (("loop2", "/data/apex/hashtree/tz@2") ∷ ("loop1", "/data/apex/active/tz@2.apex") ∷ [])
unfolding is_data_loop_device
populate_from-swap_example =
    populate_from-swap dirs no_mount ("loop1", "/data/apex/active/tz@2.apex")
      ("loop2", "/data/apex/hashtree/tz@2") refl
