-- ===== src/Mounting/Verity.antt =====
-- apexd/apexd.cpp, apexd/apexd_verity.cpp: dm-verity devices and hash trees.
use Prim.Native.String.{◌++◌ as append}
use system_apex.Base.{
  ℕ, zero, suc, ◌-◌, ◌/◌, ◌%◌, ◌^◌, ◌+◌, String, Bool, true, false, not, Option, none, some, Result,
  ok, error, abort, if◌then◌else◌, and_then, ◌==◌, nat_eq, ltb,
}
use system_apex.Text.{parent_path}
use system_apex.ApexFile.{ApexFile}
use system_apex.ApexFile.Verity.{ApexVerityData}
use system_apex.Kernel.{
  Kernel, Trace, DmTable, DmDeviceState, create_device, load_table_and_activate, delete_device,
  create_dir_if_needed, write_hash_tree, loop_clr_fd, require, or_undo,
}
use system_apex.Loop.{create_and_configure_loop_device, configure_read_ahead}
use system_apex.Mounting.{MountHost, MountRequest}

-- The hash tree of the image itself lies behind its data; `hash_start_block` is an `uint32_t`.
unfoldable pub create_verity_table : ApexVerityData → String → String → Bool → DmTable
create_verity_table verity block_device hash_device restart = record {
  sectors = verity.desc.image_size / 512;
  verity_version = verity.desc.dm_verity_version;
  block_device = block_device;
  hash_device = hash_device;
  data_block_size = verity.desc.data_block_size;
  hash_block_size = verity.desc.hash_block_size;
  num_data_blocks = verity.desc.image_size / verity.desc.data_block_size;
  hash_start_block =
      if hash_device == block_device
      then (verity.desc.tree_offset / verity.desc.hash_block_size) % 2 ^ 32
      else 0;
  hash_algorithm = verity.desc.hash_algorithm;
  root_digest = verity.root_digest;
  salt = verity.salt;
  restart_on_corruption = restart;
}

module _ (k : Kernel) where
  unfoldable pub delete_verity_device : String → Bool → Trace → Result (Unit {0}) × Trace
  delete_verity_device name deferred t =
      require k (delete_device name deferred) (append "Failed to delete dm-device " name) t

  -- The first `CreateVerityDevice`: the path of the new device.
  unfoldable pub create_new_device : String → DmTable → Trace → Result String × Trace
  create_new_device name table t =
      and_then (require k (create_device name table) "Couldn't create verity device." t)
        (λ _ t'. (ok (k.dm_path t' name), t'))

  -- A device that is there is deleted first.
  unfoldable pub replace_device : String → DmTable → Trace → Result String × Trace
  replace_device name table t =
      and_then (delete_verity_device name false t) (λ _ t'. create_new_device name table t')

  -- A device that is there and not active gets the table.
  unfoldable pub reuse_existing : String → DmTable → Trace → Result String × Trace
  reuse_existing name table t = or_undo k (delete_device name false) (
      and_then
        (require k (load_table_and_activate name table)
          (append "Failed to activate dm device " name) t)
        (λ _ t'. elim (k.dm_wait t' name) [
          | none ↦ (error (append "Failed waiting for dm device " name), t')
          | some path ↦ (ok path, t')
        ]))

  unfoldable pub create_verity_device : String → DmTable → Bool → Trace → Result String × Trace
  create_verity_device name table reuse_device t = elim (k.dm_state t name) [
    | DmDeviceState.invalid ↦ create_new_device name table t
    | DmDeviceState.active ↦ replace_device name table t
    | DmDeviceState.suspended ↦
        if reuse_device then reuse_existing name table t else replace_device name table t
  ]

  -- The destructor of a loop device, if there is one.
  unfoldable pub or_clear {ℓ} : {A : Type ℓ} → Option String → Result A × Trace → Result A × Trace
  or_clear none r = r
  or_clear (some name) r = or_undo k (loop_clr_fd name) r

  -- The destructor of a `DmVerityDevice`.
  unfoldable pub or_delete {ℓ} : {A : Type ℓ} → Option String → Result A × Trace → Result A × Trace
  or_delete none r = r
  or_delete (some name) r = or_undo k (delete_device name false) r

-- Whether the hash tree of the package has to be built.
unfoldable pub must_regenerate : MountHost → Trace → ApexVerityData → String → Result Bool
must_regenerate h t verity hashtree_file = elim (h.kernel.path_exists t hashtree_file) [
  | error e ↦ error e
  | abort ↦ abort
  | ok false ↦ ok true
  | ok true ↦ elim (h.calculate_root_digest t hashtree_file verity) [
    | error e ↦ error e
    | abort ↦ abort
    | ok digest ↦ ok (not (digest == verity.root_digest))
  ]
]

unfoldable pub prepare_hash_tree :
    MountHost → ApexFile → ApexVerityData → String → Trace → Result (Unit {0}) × Trace
prepare_hash_tree h apex verity hashtree_file t =
    let k = h.kernel in
    if apex.is_compressed
    then (error "Cannot prepare HashTree of compressed APEX", t)
    else and_then
        (require k (create_dir_if_needed (parent_path hashtree_file)) "Failed to create dir" t)
        (λ _ t₁.
          and_then (must_regenerate h t₁ verity hashtree_file, t₁)
            (λ regenerate t₂.
              if regenerate
              then require k (write_hash_tree hashtree_file) "Failed to build hashtree" t₂
              else (ok tt, t₂)))

-- The loop device for a hash tree of its own: none where the image has its hash tree.
unfoldable pub make_hash_device :
    MountHost → ApexFile → ApexVerityData → String → Trace → Result (Option String) × Trace
make_hash_device h apex verity hashtree_file t =
    if nat_eq verity.tree_size 0
    then and_then (prepare_hash_tree h apex verity hashtree_file t) (λ _ t₁.
      and_then (create_and_configure_loop_device h.loops hashtree_file 0 0 t₁)
        (λ device t₂. (ok (some device), t₂)))
    else (ok none, t)

-- What stands between the image and its mount: the hash device, the device-mapper device, and the path
-- of the device to mount.
pub record Devices : Type 0 where
  pub hash_device : Option String
  pub dm_name : Option String
  pub block_device : String

abbrev pub hash_device_or : Option String → String → String
hash_device_or none loop = loop
hash_device_or (some name) loop = name

-- The scope of the devices: what the rest cannot use is given back, the hash device first.
unfoldable pub or_release {ℓ} :
    {A : Type ℓ} → Kernel → Devices → Result A × Trace → Result A × Trace
or_release k d r = or_delete k d.dm_name (or_clear k d.hash_device r)

unfoldable pub setup_verity :
    MountHost → MountRequest → ApexFile → ApexVerityData → String → Trace → Result Devices × Trace
setup_verity h r apex verity loop t =
    let k = h.kernel in
    and_then (make_hash_device h apex verity r.hashtree_file t) (λ hash t₁.
      let table = create_verity_table verity loop (hash_device_or hash loop) (not r.verify_image) in
      and_then (or_clear k hash (create_verity_device k r.device_name table r.reuse_device t₁))
        (λ path t₂.
          let devices : Devices = record {
            hash_device = hash;
            dm_name = some r.device_name;
            block_device = path;
          } in
          or_release k devices
            (and_then (configure_read_ahead k path t₂) (λ _ t₃. (ok devices, t₃)))))

-- The loop of `ReadVerityDevice`, 4 MiB at a time from an offset.
unfoldable pub read_chunks : (ℕ → ℕ → Bool) → ℕ → ℕ → ℕ → Bool
read_chunks read zero offset left = nat_eq left 0
read_chunks read (suc fuel) offset left =
    let to_read = if ltb left 4194304 then left else 4194304 in
    let rest = read_chunks read fuel (offset + to_read) (left - to_read) in
    if nat_eq left 0 then true else if read offset to_read then rest else false

unfoldable pub read_verity_device : MountHost → Trace → String → ℕ → Result (Unit {0})
read_verity_device h t device size =
    if not (h.kernel.can_open t device)
    then error (append "Can't open " device)
    else if read_chunks (h.read_fully t device) size 0 size
    then ok tt
    else error (append "Can't verify " (append device "; corrupted?"))
