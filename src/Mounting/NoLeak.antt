-- ===== src/Mounting/NoLeak.antt =====
-- apexd/apexd.cpp: what `MountPackageImpl` holds after a success, and after an error.
use system_apex.Base.{
  ℕ, zero, suc, String, ◌≡◌, refl, ◌⊎◌, Bool, true, false, not, ◌&&◌, Option, none, some, List, [],
  ◌∷◌, Result, ok, error, abort, arith, inl, inr, if◌then◌else◌, and_then, in_context, Bool-cases,
}
use system_apex.ApexFile.{ApexFile}
use system_apex.ApexFile.Verity.{ApexVerityData}
use system_apex.Database.{MountedApexData}
use system_apex.Kernel.{Trace, mkdir, rmdir, loop_clr_fd, mount, umount, or_undo}
use system_apex.Kernel.Held.{
  Resource, directory, loop_device, dm_device, mount_at, among, held, unreleased, refused,
  held-refused, held-unreleased, Within, creates, releases, Within-refl, Within-mono,
}
use system_apex.Kernel.Keeping.{
  Keeping, owns_all, Keeping-and_then, Keeping-or_undo, Keeping-if, Keeping-require_new,
  Keeping-pure,
}
use system_apex.Loop.{create_and_configure_loop_device}
use system_apex.Loop.Configured.{owns_loop, Keeping-create_and_configure}
use system_apex.Mounting.{MountHost, MountRequest}
use system_apex.Mounting.Verity.{Devices, read_verity_device}
use system_apex.Mounting.Image.{
  verify_mounted_image, verify_signature, mount_on_verity, loop_with_retries, mount_device,
  mount_image, mounted_data, mount_loop, mount_in_place, mount_package_impl,
}
use system_apex.Mounting.Devices.{with_devices, Keeping-or_release, Keeping-setup_verity}

module _ (h : MountHost) (new : List Resource) (t : Trace) where
  Keeping-loop_with_retries :
      (path : String) (offset size more : ℕ) (t' : Trace)
      → Within new t t'
      → Keeping (owns_loop new) new t (loop_with_retries h path offset size more t')
  unfolding loop_with_retries
  Keeping-loop_with_retries path offset size zero t' w =
      Keeping-create_and_configure new t h.loops path offset size t' w
  Keeping-loop_with_retries path offset size (suc more) t' w =
      tried (create_and_configure_loop_device h.loops path offset size t')
        (λ t₁ w₁. Keeping-loop_with_retries path offset size more t₁ w₁)
        (Keeping-create_and_configure new t h.loops path offset size t' w)
    where
      tried :
          (first : Result String × Trace)
          → ((t₁ : Trace)
              → Within new t t₁
              → Keeping (owns_loop new) new t (loop_with_retries h path offset size more t₁))
          → Keeping (owns_loop new) new t first
          → Keeping {A = String} (owns_loop new) new t (elim first.0 [
            | ok device ↦ (ok device, first.1)
            | error e ↦ loop_with_retries h path offset size more first.1
            | abort ↦ (abort, first.1)
          ])
      tried (ok device, t₁) again k = k
      tried (error e, t₁) again k = again t₁ k
      tried (abort, t₁) again k = tt

  -- The mount is undone if the image is not what was expected.
  Keeping-mount_device :
      (r : MountRequest) (apex : ApexFile) (device fs : String) (t' : Trace)
      → Within new t t'
      → Keeping (owns_all (mount_at r.mount_point ∷ new)) new t (mount_device h r apex device fs t')
  unfolding mount_device creates releases
  Keeping-mount_device r apex device fs t' w =
      let x = mount_at r.mount_point in
      Keeping-and_then (owns_all (x ∷ new)) (owns_all (x ∷ new)) new t _ _
        (Keeping-require_new h.kernel new t t' (mount device r.mount_point fs apex.manifest.no_code)
          _ x refl w)
        (λ _ t₁ w₁.
          Keeping-or_undo h.kernel (owns_all (x ∷ new)) new x (umount r.mount_point false) t _ refl
            refl
            (Keeping-pure (x ∷ new) t t₁
              (in_context "Failed to verify " (verify_mounted_image h t₁ apex r.mount_point)) w₁))

  Keeping-mount_image :
      (r : MountRequest) (apex : ApexFile) (verity : ApexVerityData) (device : String)
      (on_verity : Bool) (t' : Trace)
      → Within new t t'
      → Keeping
          (owns_all (mount_at r.mount_point ∷ new))
          new
          t
          (mount_image h r apex verity device on_verity t')
  unfolding mount_image
  Keeping-mount_image r apex verity device on_verity t' w =
      let owns = owns_all {A = Unit {0}} (mount_at r.mount_point ∷ new) in
      Keeping-and_then (owns_all new) owns new t _ _
        (Keeping-pure new t t'
          (if on_verity && r.verify_image
            then read_verity_device h t' device verity.desc.image_size
            else ok tt)
          w)
        (λ _ t₁ w₁.
          elim apex.fs_type
            as (λ o. Keeping owns new t (elim o [
              | none ↦ (error "Cannot mount package without FsType", t₁)
              | some fs ↦ mount_device h r apex device fs t₁
            ])) [ none ↦ w₁ | some fs ↦ Keeping-mount_device r apex device fs t₁ w₁ ])

-- What a mount of a package stands for: the mount, its devices and its directory.
unfoldable pub owned_by : MountedApexData → List Resource
owned_by m =
    mount_at m.mount_point
    ∷ loop_device m.hashtree_loop_name
    ∷ dm_device m.device_name
    ∷ loop_device m.loop_name
    ∷ directory m.mount_point
    ∷ []

with_devices-owned_by :
    (r : MountRequest) (apex : ApexFile) (loop : String) (d : Devices) (x : Resource)
    → among x
        (mount_at r.mount_point ∷ with_devices d (loop_device loop ∷ directory r.mount_point ∷ []))
      ≡ true
    → among x (owned_by (mounted_data r apex loop d)) ≡ true
unfolding owned_by mounted_data among
with_devices-owned_by r apex loop d x h = ground arith

-- From the loop device on, where the daemon holds it and the mount point.
Keeping-mount_loop :
    (h : MountHost) (t : Trace) (r : MountRequest) (apex : ApexFile) (loop : String) (t' : Trace)
    → Within (loop_device loop ∷ directory r.mount_point ∷ []) t t'
    → Keeping owned_by
        (loop_device loop ∷ directory r.mount_point ∷ [])
        t
        (mount_loop h r apex loop t')
unfolding mount_loop
Keeping-mount_loop h t r apex loop t' w =
    let base = loop_device loop ∷ directory r.mount_point ∷ [] in
    let on_verity = mount_on_verity h apex in
    Keeping-and_then (owns_all base) owned_by base t _ _
      (Keeping-pure base t t' (verify_signature h t' apex) w)
      (λ verity t₁ w₁.
        Keeping-and_then (λ (d : Devices). with_devices d base) owned_by base t _ _
          (Keeping-if (λ (d : Devices). with_devices d base) base t on_verity _ _
            (λ _. Keeping-setup_verity h base t r apex verity loop t₁ w₁) (λ _. w₁))
          (λ devices t₂ w₂.
            let all = with_devices devices base in
            Keeping-or_release h.kernel owned_by base devices t _ (
              Keeping-and_then (owns_all (mount_at r.mount_point ∷ all)) owned_by all t _ _
                (Keeping-mount_image h all t r apex verity devices.block_device on_verity t₂ w₂)
                (λ _ t₃ w₃. Within-mono _ _ t t₃ (with_devices-owned_by r apex loop devices) w₃))))

-- From the mount point on.
Keeping-mount_in_place :
    (h : MountHost) (r : MountRequest) (apex : ApexFile) (t t' : Trace)
    → Within (directory r.mount_point ∷ []) t t'
    → Keeping owned_by (directory r.mount_point ∷ []) t (mount_in_place h r apex t')
unfolding mount_in_place creates releases
Keeping-mount_in_place h r apex t t' w =
    let base = directory r.mount_point ∷ [] in
    Keeping-if owned_by base t (not (h.kernel.is_empty_directory t' r.mount_point)) _ _ (λ _. w)
      (λ _. placed apex.image_offset apex.image_size)
  where
    placed :
        (o s : Option ℕ)
        → Keeping {A = MountedApexData} owned_by (directory r.mount_point ∷ []) t (elim o [
          | none ↦ (error "Cannot create mount point without image offset and size", t')
          | some offset ↦ elim s [
            | none ↦ (error "Cannot create mount point without image offset and size", t')
            | some size ↦
                and_then
                  (loop_with_retries h apex.apex_path offset size 2 t')
                  (λ loop t₁. or_undo h.kernel (loop_clr_fd loop) (mount_loop h r apex loop t₁))
          ]
        ])
    placed none s = w
    placed (some offset) none = w
    placed (some offset) (some size) =
        let base = directory r.mount_point ∷ [] in
        Keeping-and_then (owns_loop base) owned_by base t _ _
          (Keeping-loop_with_retries h base t apex.apex_path offset size 2 t' w)
          (λ loop t₁ w₁.
            Keeping-or_undo h.kernel owned_by base (loop_device loop) (loop_clr_fd loop) t _ refl
              refl (Keeping-mount_loop h t r apex loop t₁ w₁))

pub Keeping-mount_package_impl :
    (h : MountHost) (r : MountRequest) (apex : ApexFile) (t : Trace)
    → Keeping owned_by [] t (mount_package_impl h r apex t)
unfolding mount_package_impl creates releases
Keeping-mount_package_impl h r apex t =
    let k = h.kernel in
    let x = directory r.mount_point in
    Keeping-if owned_by [] t apex.is_compressed _ _ (λ _. Within-refl [] t)
      (λ _.
        Keeping-and_then (owns_all []) owned_by [] t _ _
          (Keeping-pure [] t t (k.path_exists t r.mount_point) (Within-refl [] t))
          (λ exists t₁ w₁.
            Keeping-and_then (owns_all (x ∷ [])) owned_by [] t _ _
              (Keeping-if (owns_all (x ∷ [])) [] t exists _ _
                (λ _. Within-mono [] (x ∷ []) t t₁ (λ r' n. unfold among in absurd (cc)) w₁)
                (λ _. Keeping-require_new k [] t t₁ (mkdir r.mount_point) _ x refl w₁))
              (λ _ t₂ w₂.
                Keeping-or_undo k owned_by [] x (rmdir r.mount_point) t _ refl refl
                  (Keeping-mount_in_place h r apex t t₂ w₂))))

Keeping-unreleased :
    (new : List Resource) (t : Trace) (r : Result MountedApexData × Trace)
    → Keeping owned_by new t r
    → (x : Resource) → unreleased x r.1 ≡ true
    → (held x t ≡ true)
      ⊎ (among x new ≡ true)
      ⊎ ((m : MountedApexData) × (r.0 ≡ ok m) × (among x (owned_by m) ≡ true))
      ⊎ (r.0 ≡ abort)
Keeping-unreleased new t (ok m, t') w x e = elim (w.at x e) [
  | inl b ↦ inl (held-unreleased x t b)
  | inr n ↦ inr (inr (inl (m, refl, n)))
]
Keeping-unreleased new t (error e', t') w x e = elim (w.at x e) [
  | inl b ↦ inl (held-unreleased x t b)
  | inr n ↦ inr (inl n)
]
Keeping-unreleased new t (abort, t') w x e = inr (inr (inr refl))

-- Whatever the kernel answers: a directory, loop device, device-mapper device or mount that is
-- held at the end of `MountPackageImpl` was held before, or the call has succeeded and it belongs
-- to the mount that is returned, or the process has been aborted, or the daemon has asked the
-- kernel to give it back, as the last call about it, and the kernel has refused.
pub mount_package_impl_leaks_nothing :
    (h : MountHost) (r : MountRequest) (apex : ApexFile) (t : Trace) (x : Resource)
    → held x (mount_package_impl h r apex t).1 ≡ true
    → (held x t ≡ true)
      ⊎ ((m : MountedApexData) × ((mount_package_impl h r apex t).0 ≡ ok m)
          × (among x (owned_by m) ≡ true))
      ⊎ ((mount_package_impl h r apex t).0 ≡ abort)
      ⊎ (refused x (mount_package_impl h r apex t).1 ≡ true)
mount_package_impl_leaks_nothing h r apex t x e =
    let after = mount_package_impl h r apex t in
    elim (Bool-cases (refused x after.1)) [
      | inl said_no ↦ inr (inr (inr said_no))
      | inr granted ↦
          let kept : unreleased x after.1 ≡ true =
            ground (arith, e, granted, held-refused x after.1) in
          elim (Keeping-unreleased [] t after (Keeping-mount_package_impl h r apex t) x kept) [
            | inl b ↦ inl b
            | inr (inl n) ↦ unfold among in absurd (cc)
            | inr (inr (inl owned)) ↦ inr (inl owned)
            | inr (inr (inr aborted)) ↦ inr (inr (inl aborted))
          ]
    ]
