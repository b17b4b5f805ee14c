-- ===== src/Kernel.antt =====
-- The calls of apexd/apexd.cpp, apexd/apexd_loop.cpp and apexd/apexd_private.cpp that change what the
-- kernel holds: mounts, loop devices, device-mapper devices, directories. The kernel itself is a
-- parameter: what it answers may depend on all the calls before.
pub mod Held
pub mod Keeping
pub mod Yielding
use Prim.Native.String.{◌++◌ as append}
use system_apex.Base.{
  ℕ, String, Bool, true, false, not, ◌&&◌, Option, none, some, List, [], ◌∷◌, Result, ok, error,
  abort, if◌then◌else◌,
}

-- `struct loop_info64`, as far as it is set.
pub record LoopInfo : Type 0 where
  pub lo_crypt_name : String
  pub lo_offset : ℕ
  pub lo_sizelimit : ℕ
  pub autoclear : Bool
  pub direct_io : Bool

-- `DmTable` with its one target, `DmTargetVerity`.
pub record DmTable : Type 0 where
  pub sectors : ℕ
  pub verity_version : ℕ
  pub block_device : String
  pub hash_device : String
  pub data_block_size : ℕ
  pub hash_block_size : ℕ
  pub num_data_blocks : ℕ
  pub hash_start_block : ℕ
  pub hash_algorithm : String
  pub root_digest : String
  pub salt : String
  pub restart_on_corruption : Bool

pub data Call : Type 0 where
  mkdir rmdir unlink : String → Call
  -- link(2) of a file to a new path
  link : String → String → Call
  -- `SetProperty`
  set_property : String → String → Call
  -- `write` of a text to a file
  write_file : String → String → Call
  -- `CreateDirIfNeeded` of a directory that stays
  create_dir_if_needed : String → Call
  -- the hash tree of a package is written to a file
  write_hash_tree : String → Call
  -- LOOP_CTL_ADD of a number
  loop_ctl_add : ℕ → Call
  -- LOOP_CONFIGURE, LOOP_SET_FD, LOOP_SET_STATUS64, BLKFLSBUF, LOOP_SET_BLOCK_SIZE, LOOP_CLR_FD of the
  -- device of a name; the first
  -- two with the path of the file
  loop_configure : String → String → LoopInfo → Call
  loop_set_fd : String → String → Call
  loop_set_status : String → LoopInfo → Call
  blk_flush loop_set_block_size loop_clr_fd : String → Call
  -- `CreateDevice`, `LoadTableAndActivate`, and `DeleteDevice` or, deferred, `DeleteDeviceDeferred`
  create_device load_table_and_activate : String → DmTable → Call
  delete_device : String → Bool → Call
  -- mount(2) of a device to a directory with a file system, and whether code may run from it
  mount : String → String → String → Bool → Call
  -- mount(2) of a directory to another, MS_BIND
  bind_mount : String → String → Call
  -- usleep(3), which the other processes use to go on
  usleep : Call
  -- umount2(2) with UMOUNT_NOFOLLOW, and whether with MNT_DETACH
  umount : String → Bool → Call

-- The calls so far with whether they succeeded, the last first.
abbrev pub Trace : Type 0
Trace = List (Call × Bool)

pub data Errno : Type 0 where
  einval enoent eexist other_errno : Errno

pub data DmDeviceState : Type 0 where
  invalid suspended active : DmDeviceState

-- What the kernel answers after the calls of a trace.
pub record Kernel : Type 0 where
  pub succeeds : Trace → Call → Bool
  -- `errno` of a call that does not succeed
  pub errno : Trace → Call → Errno
  -- LOOP_CTL_GET_FREE, -1 as `none`
  pub get_free : Trace → Option ℕ
  -- open(2) of a path to read and write
  pub can_open : Trace → String → Bool
  -- whether the kernel knows LOOP_CONFIGURE
  pub has_loop_configure : Bool
  -- open(2) with O_DIRECT, and without it, and statfs(2): EROFS, squashfs or overlayfs
  pub open_direct : Trace → String → Bool
  pub open_buffered : Trace → String → Bool
  pub lacks_direct_io : Trace → String → Bool
  -- `PathExists`, access(2), stat(2) as a directory, `IsEmptyDirectory`
  pub path_exists : Trace → String → Result Bool
  pub can_access : Trace → String → Bool
  pub is_dir : Trace → String → Bool
  pub is_empty_directory : Trace → String → Bool
  -- `ReadFileToString` with `Trim`
  pub read_file : Trace → String → Option String
  -- `DeviceMapper::GetState`, the path of a device, `WaitForDevice`
  pub dm_state : Trace → String → DmDeviceState
  pub dm_path : Trace → String → String
  pub dm_wait : Trace → String → Option String
  -- the property `ro.cold_boot_done`
  pub cold_boot_done : Trace → Bool

-- A call: whether it succeeded, and the trace with it.
abbrev pub perform : Kernel → Call → Trace → Bool × Trace
perform k c t = (k.succeeds t c, (c, k.succeeds t c) ∷ t)

-- A call whose outcome is not looked at, or only logged.
abbrev pub attempt : Kernel → Call → Trace → Trace
attempt k c t = (c, k.succeeds t c) ∷ t

-- A call whose failure is the error `e`.
unfoldable pub require : Kernel → Call → String → Trace → Result (Unit {0}) × Trace
require k c e t = (if k.succeeds t c then ok tt else error e, (c, k.succeeds t c) ∷ t)

-- A destructor or a scope guard: `c` runs when the rest returns an error. An abort ends the process.
unfoldable pub or_undo {ℓ} : {A : Type ℓ} → Kernel → Call → Result A × Trace → Result A × Trace
or_undo k c (ok a, t) = (ok a, t)
or_undo k c (error e, t) = (error e, attempt k c t)
or_undo k c (abort, t) = (abort, t)
