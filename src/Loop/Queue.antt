-- ===== src/Loop/Queue.antt =====
-- apexd/apexd_loop.cpp: the queue depth of the disk below a file, and of a loop device.
use Prim.Native.String.{◌++◌ as append}
use text.Mathlib.Text.{starts_with}
use native.Mathlib.Omega.{arith}
use system_apex.Base.{
  ℕ, zero, suc, ◌<◌, ◌%◌, ◌^◌, ◌≡◌, ◌≢◌, String, Bool, not, ◌&&◌, Option, none, some, List, [], ◌∷◌,
  Result, ok, error, abort, if◌then◌else◌, nat_eq, ltb, ◌>>=◌, or_error,
}
use system_apex.Text.{to_text, filename, has_char, parse_uint}
use system_apex.Kernel.{Kernel, Trace, write_file, perform}

-- What the kernel tells of its block devices, and libdm and strtol(3).
pub record BlockDevices : Type 0 where
  -- `st_dev` of a file
  pub dev_of : String → Option ℕ
  -- the paths in /dev/block, each with its `st_rdev`
  pub dev_block : List (String × Option ℕ)
  -- `GetParentBlockDeviceByPath`, `ExtractBlockDeviceName`
  pub parent_of : String → Option String
  pub extract_name : String → Option String
  -- the paths in /sys/class/block, and what exists below them
  pub class_block : List String
  pub exists : String → Bool
  pub strtol : String → ℕ
  -- the fuel of the walk to the lowest device
  pub depth : ℕ

unfoldable pub blockdev_name : List (String × Option ℕ) → ℕ → String
blockdev_name [] dev = ""
blockdev_name ((path, none) ∷ rest) dev = blockdev_name rest dev
blockdev_name ((path, some rdev) ∷ rest) dev =
    let later = blockdev_name rest dev in if nat_eq dev rdev then filename path else later

-- The loop over the parents. Without fuel it has not come to the lowest device.
unfoldable pub lowest_device : (String → Option String) → ℕ → String → Option String
lowest_device parent_of zero blockdev = none
lowest_device parent_of (suc fuel) blockdev = elim (parent_of blockdev) [
  | none ↦ some blockdev
  | some child ↦ lowest_device parent_of fuel child
]

-- The device whose directory has the partition.
unfoldable pub disk_of : (String → Bool) → String → List String → String
disk_of exists blockdev [] = blockdev
disk_of exists blockdev (path ∷ rest) =
    let later = disk_of exists blockdev rest in
    if exists (append path (append "/" blockdev)) then filename path else later

unfoldable pub partition_parent : BlockDevices → String → Result String
partition_parent b blockdev =
    if has_char blockdev b'/'
    then error (append "Invalid argument " blockdev)
    else ok (disk_of b.exists blockdev b.class_block)

-- `blockdev` is never empty: it begins with "/dev/block/". The result is an `uint32_t`.
unfoldable pub block_device_queue_depth : Kernel → BlockDevices → Trace → String → Result ℕ
block_device_queue_depth k b t file_path = do
  dev ← or_error (b.dev_of file_path) (append "stat" file_path)
  lowest ←
      (elim (lowest_device b.parent_of b.depth
        (append "/dev/block/" (blockdev_name b.dev_block dev))) [ none ↦ abort | some d ↦ ok d ])
  name ←
      or_error (b.extract_name lowest) (append "Failed to remove /dev/block/ prefix from " lowest)
  disk ← (elim (partition_parent b name) [
    | ok d ↦ ok d
    | error e ↦ error (append "Failed to determine parent of " name)
    | abort ↦ abort
  ])
  nr_tags ←
      or_error (k.read_file t (append "/sys/class/block/" (append disk "/mq/0/nr_tags")))
        "Failed to read "
  ok (b.strtol nr_tags % 2 ^ 32)

-- A larger depth may be refused; a smaller one may not.
unfoldable pub configure_queue_depth :
    Kernel → BlockDevices → String → String → Trace → Result (Unit {0}) × Trace
configure_queue_depth k b loop_device_path file_path t =
    let path = append "/sys/block/" (append (filename loop_device_path) "/queue/nr_requests") in
    if not (starts_with loop_device_path "/dev/")
    then (error (append "Invalid argument " loop_device_path), t)
    else (elim (k.read_file t path) [
      | none ↦ (error (append "Failed to read " path), t)
      | some text ↦ elim (parse_uint text) [
        | none ↦ (error (append "Failed to parse " text), t)
        | some cur ↦
            if not (ltb cur (2 ^ 32))
            then (error (append "Failed to parse " text), t)
            else if not (k.can_open t path)
            then (error (append "Failed to open " path), t)
            else (elim (block_device_queue_depth k b t file_path) [
              | error e ↦ (error e, t)
              | abort ↦ (abort, t)
              | ok qd ↦
                  let written = perform k (write_file path (to_text qd)) t in
                  if nat_eq qd cur
                  then (ok tt, t)
                  else if not written.0 && ltb qd cur
                  then (error (append "Failed to write to " path), written.1)
                  else (ok tt, written.1)
            ])
      ]
    ])

-- The walk ends where each parent is one level lower than its child.
pub lowest_device-total :
    (parent_of : String → Option String) (level : String → ℕ)
    → ((d p : String) → parent_of d ≡ some p → level p < level d)
    → (fuel : ℕ) (d : String) → level d < fuel
    → lowest_device parent_of fuel d ≢ none
unfolding lowest_device
lowest_device-total parent_of level down zero d h = absurd (omega arith)
lowest_device-total parent_of level down (suc fuel) d h =
    grind (arith, down, lowest_device-total parent_of level down fuel)
