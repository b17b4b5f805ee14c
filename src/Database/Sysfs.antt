-- ===== src/Database/Sysfs.antt =====
-- The part of apex_database.cpp that restores the database from /proc/mounts and /sys/block.
use Prim.Native.String.{◌++◌ as append}
use text.Mathlib.Text.{starts_with}
use system_apex.Base.{
  ℤ, pos, negsuc, String, Bool, true, false, not, ◌||◌, Option, none, some, List, [], ◌∷◌, Result,
  ok, error, abort, ◌>>=◌, ◌>>◌, guard, or_error, ◌==◌, if◌then◌else◌,
}
use system_apex.Text.{
  split, has_char, filename, parent_path, parse_int, trim_end, ends_with, consume_suffix,
}
use system_apex.Database.{MountedApexData, MountedApexDatabase}
use system_apex.Database.Mounts.{add_mounted_apex}

pub data BlockDeviceType : Type 0 where
  unknown_device loop_device device_mapper_device : BlockDeviceType

-- `BlockDevice` holds the last component of its path.
unfoldable pub block_device : String → String
block_device path = filename path

unfoldable pub get_type : String → BlockDeviceType
get_type name =
    if starts_with name "loop"
    then BlockDeviceType.loop_device
    else if starts_with name "dm-"
    then BlockDeviceType.device_mapper_device
    else BlockDeviceType.unknown_device

unfoldable pub sys_path : String → String
sys_path name = append "/sys/block/" name

unfoldable pub dev_path : String → String
dev_path name = append "/dev/block/" name

-- Reads of sysfs and of /proc/mounts.
pub record Kernel : Type 0 where
  -- `Trim` of what `ReadFileToString` reads
  pub read_trimmed : String → Option String
  -- the entries of a directory, up to an error of the iteration
  pub entries : String → List String
  pub is_block_file : String → Bool
  pub mounts : List String

unfoldable pub get_property : Kernel → String → String → Result String
get_property k name property =
    or_error (k.read_trimmed (append (sys_path name) (append "/" property))) "Fail to read"

unfoldable pub block_files : Kernel → List String → List String
block_files k [] = []
block_files k (entry ∷ rest) =
    let later = block_files k rest in
    if k.is_block_file (dev_path (block_device entry)) then block_device entry ∷ later else later

unfoldable pub get_slaves : Kernel → String → List String
get_slaves k name = block_files k (k.entries (append (sys_path name) "/slaves"))

-- `ParseMountInfo`: the block device and the mount point.
unfoldable pub parse_mount_info : String → String × String
parse_mount_info mount_info = elim (split mount_info b' ') [
  | [] ↦ ("", "")
  | block ∷ [] ↦ ("", "")
  | block ∷ point ∷ rest ↦ (block, point)
]

abbrev pub or_minus_one : Option ℤ → ℤ
or_minus_one none = negsuc 0
or_minus_one (some v) = v

-- `ParseMountPoint`: the package and its version, -1 where there is none that fits an `int`.
unfoldable pub parse_mount_point : String → String × ℤ
parse_mount_point mount_point =
    let package_id = filename mount_point in
    elim (split package_id b'@') [
      | [] ↦ (package_id, negsuc 0)
      | name ∷ [] ↦ (package_id, negsuc 0)
      | name ∷ version ∷ [] ↦ (name, or_minus_one (parse_int version))
      | name ∷ version ∷ other ∷ rest ↦ (package_id, negsuc 0)
    ]

unfoldable pub is_active_mount_point : String → Bool
is_active_mount_point mount_point = not (has_char mount_point b'@')

-- The directories that a data loop device, and a hash tree device, may be backed from.
pub record Dirs : Type 0 where
  pub active_apex_dir : String
  pub decompression_dir : String
  pub apex_hash_tree_dir : String

unfoldable pub is_data_loop_device : Dirs → String → Bool
is_data_loop_device dirs backing_file =
    starts_with backing_file dirs.active_apex_dir || starts_with backing_file dirs.decompression_dir

-- The loop over the slaves: each is a loop device, taken with its backing file.
unfoldable pub backing_files : Kernel → List String → Result (List (String × String))
backing_files k [] = ok []
backing_files k (dev ∷ rest) = elim (get_type dev) [
  | BlockDeviceType.loop_device ↦ do
    file ← get_property k dev "loop/backing_file"
    later ← backing_files k rest
    ok ((dev, file) ∷ later)
  | _ ↦ error (append (dev_path dev) " is not a loop device")
]

-- With two slaves, the data loop device first: they are swapped unless the first is one.
unfoldable pub populate_two :
    Dirs → MountedApexData → String × String → String × String → Result MountedApexData
populate_two dirs m a b =
    let (data_dev, hash_dev) = if is_data_loop_device dirs a.1 then (a, b) else (b, a) in
    if not (is_data_loop_device dirs data_dev.1)
    then error (append "Data loop device " (dev_path data_dev.0))
    else if not (starts_with hash_dev.1 dirs.apex_hash_tree_dir)
    then error (append "Hashtree loop device " (dev_path hash_dev.0))
    else ok (record m {
      hashtree_loop_name = dev_path hash_dev.0;
      loop_name = dev_path data_dev.0;
      full_path = data_dev.1;
    })

unfoldable pub populate_one : Dirs → MountedApexData → String × String → Result MountedApexData
populate_one dirs m a =
    if not (is_data_loop_device dirs a.1)
    then error (append "Data loop device " (dev_path a.0))
    else ok (record m { loop_name = dev_path a.0; full_path = a.1 })

-- One or two slaves.
unfoldable pub right_number : List String → Bool
right_number (a ∷ []) = true
right_number (a ∷ b ∷ []) = true
right_number _ = false

unfoldable pub populate_from :
    Dirs → MountedApexData → List (String × String) → Result MountedApexData
populate_from dirs m (a ∷ []) = populate_one dirs m a
populate_from dirs m (a ∷ b ∷ []) = populate_two dirs m a b
populate_from dirs m _ = error "dm device has unexpected number of slaves"

-- `PopulateLoopInfo`.
unfoldable pub populate_loop_info :
    Kernel → Dirs → String → MountedApexData → Result MountedApexData
populate_loop_info k dirs top_device m = do
  let slaves = get_slaves k top_device
  guard (right_number slaves)
      (append "dm device " (append (dev_path top_device) " has unexpected number of slaves"))
  files ← backing_files k slaves
  populate_from dirs m files

-- `NormalizeIfDeleted`: the mark of a deleted file is taken off its path.
unfoldable pub normalize_if_deleted : MountedApexData → MountedApexData
normalize_if_deleted m =
    let (path, marked) = consume_suffix m.full_path "(deleted)" in
    if marked
    then record m { deleted = true; full_path = trim_end path }
    else record m { deleted = false; full_path = path }

-- A `MountedApexData` of its default constructor; its version is set later.
abbrev pub no_mount : MountedApexData
no_mount = record {
  version = pos 0;
  loop_name = "";
  full_path = "";
  mount_point = "";
  device_name = "";
  hashtree_loop_name = "";
  deleted = false;
  is_temp_mount = false;
}

unfoldable pub resolve_mount_info : Kernel → Dirs → String → String → Result MountedApexData
resolve_mount_info k dirs block mount_point =
    let temp_mount = ends_with mount_point ".tmp" in
    elim (get_type block) [
      | BlockDeviceType.loop_device ↦ do
        file ← get_property k block "loop/backing_file"
        ok (
            normalize_if_deleted (record no_mount {
              loop_name = dev_path block;
              full_path = file;
              mount_point = mount_point;
              is_temp_mount = temp_mount;
            }))
      | BlockDeviceType.device_mapper_device ↦ do
        name ← get_property k block "dm/name"
        m ← populate_loop_info k dirs block (record no_mount {
          mount_point = mount_point;
          device_name = name;
          is_temp_mount = temp_mount;
        })
        ok (normalize_if_deleted m)
      | BlockDeviceType.unknown_device ↦ error (append "Can't resolve " (dev_path block))
    ]

-- One line of /proc/mounts: mounts elsewhere, active mount points and what cannot be resolved are
-- passed over.
unfoldable pub populate_line :
    Kernel → Dirs → MountedApexDatabase → String → Result MountedApexDatabase
populate_line k dirs db line =
    let (block, mount_point) = parse_mount_info line in
    if not (parent_path mount_point == "/apex") || is_active_mount_point mount_point
    then ok db
    else elim (resolve_mount_info k dirs (block_device block) mount_point) [
      | error e ↦ ok db
      | abort ↦ abort
      | ok m ↦
          let (pkg, version) = parse_mount_point mount_point in
          add_mounted_apex db pkg (record m { version = version })
    ]

unfoldable pub populate_lines :
    Kernel → Dirs → MountedApexDatabase → List String → Result MountedApexDatabase
populate_lines k dirs db [] = ok db
populate_lines k dirs db (line ∷ rest) = do
  db' ← populate_line k dirs db line
  populate_lines k dirs db' rest

unfoldable pub populate_from_mounts :
    Kernel → Dirs → MountedApexDatabase → Result MountedApexDatabase
populate_from_mounts k dirs db = populate_lines k dirs db k.mounts
