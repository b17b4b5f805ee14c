-- ===== src/Mounting/Recorded.antt =====
-- apexd/apexd.cpp: what `MountPackageImpl` returns describes the mount that was asked for.
use Prim.Native.String.{◌++◌ as append}
use system_apex.Base.{
  ℕ, String, ◌≡◌, refl, false, not, Option, none, some, Result, ok, error, if◌then◌else◌, and_then,
  to_int,
}
use system_apex.ApexFile.{ApexFile}
use system_apex.Database.{MountedApexData}
use system_apex.Kernel.{Trace, mkdir, rmdir, require, loop_clr_fd, delete_device, or_undo}
use system_apex.Kernel.Yielding.{
  Yields, Yields-and_then, Yields-or_undo, Yields-if, Yields-ok, Yields-error,
}
use system_apex.Mounting.{MountHost, MountRequest}
use system_apex.Mounting.Verity.{Devices, or_release, or_clear, or_delete, setup_verity}
use system_apex.Mounting.Image.{
  mounted_data, mount_loop, mount_in_place, mount_package_impl, loop_with_retries, mount_image,
  verify_signature, mount_on_verity,
}

-- The data is that of the package and of the request; the version is narrowed to an `int`.
pub record Describes (r : MountRequest) (apex : ApexFile) (m : MountedApexData) : Type 0 where
  pub version_of : m.version ≡ to_int apex.version
  pub path_of : m.full_path ≡ apex.apex_path
  pub mounted_at : m.mount_point ≡ r.mount_point
  pub temporary : m.is_temp_mount ≡ r.temp_mount

mounted_data-Describes :
    (r : MountRequest) (apex : ApexFile) (loop : String) (d : Devices)
    → Describes r apex (mounted_data r apex loop d)
unfolding mounted_data
mounted_data-Describes r apex loop d = record {
  version_of = refl;
  path_of = refl;
  mounted_at = refl;
  temporary = refl;
}

module _ (h : MountHost) (r : MountRequest) (apex : ApexFile) where
  Yields-released :
      (d : Devices) (x : Result MountedApexData × Trace)
      → Yields (Describes r apex) x
      → Yields (Describes r apex) (or_release h.kernel d x)
  unfolding or_release
  Yields-released d x y =
      deleted d.dm_name (or_clear h.kernel d.hash_device x) (cleared d.hash_device)
    where
      cleared : (o : Option String) → Yields (Describes r apex) (or_clear h.kernel o x)
      cleared none = unfold or_clear in y
      cleared (some n) =
          unfold or_clear in Yields-or_undo (Describes r apex) h.kernel (loop_clr_fd n) x y

      deleted :
          (o : Option String) (z : Result MountedApexData × Trace)
          → Yields (Describes r apex) z
          → Yields (Describes r apex) (or_delete h.kernel o z)
      deleted none z y' = unfold or_delete in y'
      deleted (some n) z y' =
          unfold or_delete in
          Yields-or_undo (Describes r apex) h.kernel (delete_device n false) z y'

  Yields-mount_loop :
      (loop : String) (t : Trace) → Yields (Describes r apex) (mount_loop h r apex loop t)
  unfolding mount_loop
  Yields-mount_loop loop t =
      let on_verity = mount_on_verity h apex in
      let plain : Devices = record { hash_device = none; dm_name = none; block_device = loop } in
      Yields-and_then (Describes r apex) (verify_signature h t apex, t) _
        (λ verity t₁ _.
          Yields-and_then (Describes r apex)
            (if on_verity then setup_verity h r apex verity loop t₁ else (ok plain, t₁)) _
            (λ devices t₂ _. Yields-released devices _ (
              Yields-and_then (Describes r apex)
                (mount_image h r apex verity devices.block_device on_verity t₂) _
                (λ _ t₃ _.
                  Yields-ok (Describes r apex) (mounted_data r apex loop devices) t₃
                    (mounted_data-Describes r apex loop devices)))))

  Yields-mount_in_place : (t : Trace) → Yields (Describes r apex) (mount_in_place h r apex t)
  unfolding mount_in_place
  Yields-mount_in_place t =
      Yields-if (Describes r apex) (not (h.kernel.is_empty_directory t r.mount_point)) _ _
        (Yields-error (Describes r apex) _ t) (placed apex.image_offset apex.image_size)
    where
      placed :
          (o s : Option ℕ)
          → Yields {A = MountedApexData} {S = Trace} (Describes r apex) (elim o [
            | none ↦ (error "Cannot create mount point without image offset and size", t)
            | some offset ↦ elim s [
              | none ↦ (error "Cannot create mount point without image offset and size", t)
              | some size ↦
                  and_then
                    (loop_with_retries h apex.apex_path offset size 2 t)
                    (λ loop t₁. or_undo h.kernel (loop_clr_fd loop) (mount_loop h r apex loop t₁))
            ]
          ])
      placed none s = Yields-error (Describes r apex) _ t
      placed (some offset) none = Yields-error (Describes r apex) _ t
      placed (some offset) (some size) =
          Yields-and_then (Describes r apex) (loop_with_retries h apex.apex_path offset size 2 t) _
            (λ loop t₁ _.
              Yields-or_undo (Describes r apex) h.kernel (loop_clr_fd loop) _
                (Yields-mount_loop loop t₁))

  pub Yields-mount_package_impl :
      (t : Trace) → Yields (Describes r apex) (mount_package_impl h r apex t)
  unfolding mount_package_impl
  Yields-mount_package_impl t =
      Yields-if (Describes r apex) apex.is_compressed _ _ (Yields-error (Describes r apex) _ t) (
        Yields-and_then (Describes r apex) (h.kernel.path_exists t r.mount_point, t) _
          (λ exists t₁ _.
            Yields-and_then (Describes r apex)
              (if exists
                then (ok tt, t₁)
                else require h.kernel (mkdir r.mount_point)
                    (append "Could not create mount point " r.mount_point) t₁)
              _
              (λ _ t₂ _.
                Yields-or_undo (Describes r apex) h.kernel (rmdir r.mount_point) _
                  (Yields-mount_in_place t₂))))
