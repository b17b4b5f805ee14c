-- ===== src/Mounting/Image.antt =====
-- apexd/apexd.cpp: `MountPackageImpl` and what it is made of.
use Prim.Native.String.{◌++◌ as append}
use system_apex.Base.{
  ℕ, zero, suc, String, Bool, false, not, ◌&&◌, ◌||◌, Option, none, some, Result, ok, error, abort,
  if◌then◌else◌, and_then, in_context, ◌==◌, ◌>>=◌, to_int,
}
use system_apex.ApexFile.{ApexFile}
use system_apex.ApexFile.Verity.{ApexVerityData, verify_apex_verity}
use system_apex.Repository.Queries.{
  get_public_key, is_block_apex, get_block_apex_root_digest, is_pre_installed_apex,
  is_decompressed_apex,
}
use system_apex.Database.{MountedApexData}
use system_apex.Daemon.Verify.{is_shim_apex}
use system_apex.Kernel.{Trace, mkdir, rmdir, loop_clr_fd, mount, umount, require, or_undo}
use system_apex.Loop.{create_and_configure_loop_device}
use system_apex.Mounting.{MountHost, MountRequest}
use system_apex.Mounting.Verity.{Devices, setup_verity, or_release, read_verity_device}

-- The manifest that is mounted must be the package's.
unfoldable pub verify_mounted_image : MountHost → Trace → ApexFile → String → Result (Unit {0})
verify_mounted_image h t apex mount_point =
    h.read_manifest t (append mount_point "/apex_manifest.pb") >>= λ verified_manifest.
    if not (h.same_manifest verified_manifest apex.manifest)
    then error "Manifest inside filesystem does not match manifest outside it"
    else if is_shim_apex apex
    then h.validate_shim_apex t mount_point apex
    else ok tt

-- The key, the signature, and for a block APEX the digest that the host gave.
unfoldable pub verify_signature : MountHost → Trace → ApexFile → Result ApexVerityData
verify_signature h t apex = do
  public_key ← get_public_key h.repository apex.name
  verity ←
      in_context "Failed to verify Apex Verity data: "
        (verify_apex_verity (h.avb t) apex public_key)
  if is_block_apex h.repository apex
      then (elim (get_block_apex_root_digest h.repository apex.apex_path) [
        | none ↦ ok verity
        | some digest ↦
            if digest == verity.root_digest
            then ok verity
            else error "Failed to verify Apex Verity data: root digest mismatches"
      ])
      else ok verity

-- Packages of read-only partitions are mounted with no dm-verity device.
unfoldable pub mount_on_verity : MountHost → ApexFile → Bool
mount_on_verity h apex =
    not (is_pre_installed_apex h.repository apex)
    || (is_decompressed_apex h.repository apex || is_block_apex h.repository apex)

-- The loop device, at the third attempt at the latest.
unfoldable pub loop_with_retries : MountHost → String → ℕ → ℕ → ℕ → Trace → Result String × Trace
loop_with_retries h path offset size zero t =
    create_and_configure_loop_device h.loops path offset size t
loop_with_retries h path offset size (suc more) t =
    let first = create_and_configure_loop_device h.loops path offset size t in
    let again = loop_with_retries h path offset size more first.1 in
    elim first.0 [ ok device ↦ (ok device, first.1) | error e ↦ again | abort ↦ (abort, first.1) ]

-- The mount, and the check of what is mounted. A mount that fails the check is undone.
unfoldable pub mount_device :
    MountHost → MountRequest → ApexFile → String → String → Trace → Result (Unit {0}) × Trace
mount_device h r apex block_device fs t =
    let k = h.kernel in
    and_then
      (require k (mount block_device r.mount_point fs apex.manifest.no_code)
        (append "Mounting failed for package " apex.apex_path) t)
      (λ _ t₁.
        or_undo k (umount r.mount_point false)
          (in_context "Failed to verify " (verify_mounted_image h t₁ apex r.mount_point), t₁))

unfoldable pub mount_image :
    MountHost
    → MountRequest
    → ApexFile
    → ApexVerityData
    → String
    → Bool
    → Trace
    → Result (Unit {0}) × Trace
mount_image h r apex verity block_device on_verity t =
    and_then
      (
        if on_verity && r.verify_image
            then read_verity_device h t block_device verity.desc.image_size
            else ok tt,
        t,
      )
      (λ _ t₁. elim apex.fs_type [
        | none ↦ (error "Cannot mount package without FsType", t₁)
        | some fs ↦ mount_device h r apex block_device fs t₁
      ])

abbrev pub name_or_none : Option String → String
name_or_none none = ""
name_or_none (some name) = name

-- The constructor of `MountedApexData` takes the version as an `int`.
unfoldable pub mounted_data : MountRequest → ApexFile → String → Devices → MountedApexData
mounted_data r apex loop d = record {
  version = to_int apex.version;
  loop_name = loop;
  full_path = apex.apex_path;
  mount_point = r.mount_point;
  device_name = name_or_none d.dm_name;
  hashtree_loop_name = name_or_none d.hash_device;
  deleted = false;
  is_temp_mount = r.temp_mount;
}

-- From the loop device on.
unfoldable pub mount_loop :
    MountHost → MountRequest → ApexFile → String → Trace → Result MountedApexData × Trace
mount_loop h r apex loop t =
    let on_verity = mount_on_verity h apex in
    and_then (verify_signature h t apex, t)
      (λ verity t₁.
        and_then
          (if on_verity
            then setup_verity h r apex verity loop t₁
            else (ok (record { hash_device = none; dm_name = none; block_device = loop }), t₁))
          (λ devices t₂. or_release h.kernel devices (
            and_then (mount_image h r apex verity devices.block_device on_verity t₂)
              (λ _ t₃. (ok (mounted_data r apex loop devices), t₃)))))

-- From the mount point on.
unfoldable pub mount_in_place :
    MountHost → MountRequest → ApexFile → Trace → Result MountedApexData × Trace
mount_in_place h r apex t =
    if not (h.kernel.is_empty_directory t r.mount_point)
    then (error (append r.mount_point " is not empty"), t)
    else (elim apex.image_offset [
      | none ↦ (error "Cannot create mount point without image offset and size", t)
      | some offset ↦ elim apex.image_size [
        | none ↦ (error "Cannot create mount point without image offset and size", t)
        | some size ↦
            and_then (loop_with_retries h apex.apex_path offset size 2 t)
              (λ loop t₁. or_undo h.kernel (loop_clr_fd loop) (mount_loop h r apex loop t₁))
      ]
    ])

unfoldable pub mount_package_impl :
    MountHost → MountRequest → ApexFile → Trace → Result MountedApexData × Trace
mount_package_impl h r apex t =
    let k = h.kernel in
    if apex.is_compressed
    then (error (append "Cannot directly mount compressed APEX " apex.apex_path), t)
    else and_then (k.path_exists t r.mount_point, t)
        (λ exists t₁.
          and_then
            (if exists
              then (ok tt, t₁)
              else require k (mkdir r.mount_point)
                  (append "Could not create mount point " r.mount_point) t₁)
            (λ _ t₂. or_undo k (rmdir r.mount_point) (mount_in_place h r apex t₂)))
