-- ===== src/Mounting/Temporary.antt =====
-- apexd/apexd.cpp: a package that is mounted only to be verified leaves nothing behind.
use system_apex.Base.{
  String, ◌≡◌, ◌≢◌, refl, subst, ap, ◌∙◌, ◌⊎◌, true, false, [], ◌∷◌, Result, ok, error, abort,
  arith, inl, inr, and_then, any, find, is_ok, Bool-cases,
}
use system_apex.ApexFile.{ApexFile}
use system_apex.Database.{MountedApexData}
use system_apex.Database.Mounts.{remove_mounted_apex, mounts_of}
use system_apex.Database.TempMounts.{matches, remove-add_mounted_apex}
use system_apex.Kernel.{Kernel, Trace, rmdir, delete_device, umount, require, attempt}
use system_apex.Kernel.Held.{
  Resource, among, held, unreleased, refused, held-refused, held-unreleased, Within,
}
use system_apex.Mounting.{MountHost, MountState}
use system_apex.Mounting.Verity.{delete_verity_device}
use system_apex.Mounting.Unmount.{unmount, free_devices}
use system_apex.Mounting.NoLeak.{owned_by}
use system_apex.Mounting.Undone.{StaysLabelled, unnamed, Within-unmount}
use system_apex.Mounting.Packages.{
  verify_and_temp_mount_package, clean_temp_mount, after_verify, run_verify_fn_inside_temp_mount,
  get_package_temp_mount_point,
}
use system_apex.Mounting.TempMount.{
  KeepingState, KeepingState-temp_mount, Recorded, temp_mount-Recorded, temp_mount_failed,
}

-- The kernel unmounts what is mounted, and deletes a device that is no longer in use.
pub record Frees (k : Kernel) : Type 0 where
  pub unmounts : (t : Trace) (target : String) → k.succeeds t (umount target false) ≡ true
  pub deletes : (t : Trace) (name : String) → k.succeeds t (delete_device name false) ≡ true

free_devices-Frees :
    (h : MountHost) (m : MountedApexData) (t : Trace)
    → Frees h.kernel
    → (free_devices h m false t).0 ≡ ok tt
unfolding free_devices delete_verity_device require
free_devices-Frees h m t f = ground (arith, f.deletes t m.device_name)

pub unmount-Frees :
    (h : MountHost) (m : MountedApexData) (t : Trace)
    → Frees h.kernel
    → unmount h m false t ≡ (ok tt, (unmount h m false t).1)
unfolding unmount
unmount-Frees h m t f =
    let c = umount m.mount_point false in
    let t₁ = (c, h.kernel.succeeds t c) ∷ t in
    let t₂ = attempt h.kernel (rmdir m.mount_point) t₁ in
    let done : (unmount h m false t).0 ≡ ok tt =
      ground (arith, f.unmounts t m.mount_point, free_devices-Frees h m t₂ f) in
    ap (λ (r : Result (Unit {0})). (r, (unmount h m false t).1)) done

-- Every package has the mounts that it had, and what has been made since has been given back, or tried
-- to, but for devices with no name.
pub record Restored (s s' : MountState) : Type 0 where
  pub mounts :
      (name : String)
      → mounts_of (find s'.mounted.mounted_apexes name)
        ≡ mounts_of (find s.mounted.mounted_apexes name)
  pub resources :
      (x : Resource)
      → unreleased x s'.trace ≡ true
      → (unreleased x s.trace ≡ true) ⊎ (among x unnamed ≡ true)

-- In a restored state, a resource is held that was held before, that has no name, or that the kernel
-- has refused to take back.
pub Restored-held :
    (s s' : MountState) (x : Resource)
    → Restored s s'
    → held x s'.trace ≡ true
    → (held x s.trace ≡ true) ⊎ (among x unnamed ≡ true) ⊎ (refused x s'.trace ≡ true)
Restored-held s s' x r e = elim (Bool-cases (refused x s'.trace)) [
  | inl said_no ↦ inr (inr said_no)
  | inr granted ↦
      let kept : unreleased x s'.trace ≡ true =
        ground (arith, e, granted, held-refused x s'.trace) in
      elim (r.resources x kept) [
        | inl old ↦ inl (held-unreleased x s.trace old)
        | inr nameless ↦ inr (inl nameless)
      ]
]

module _ (h : MountHost) (apex : ApexFile) (s : MountState) where
  unseen :
      (m : MountedApexData)
      → any (matches apex.apex_path true) (mounts_of (find s.mounted.mounted_apexes apex.name))
        ≡ false
      → m.full_path ≡ apex.apex_path
      → m.is_temp_mount ≡ true
      → any
          (matches m.full_path m.is_temp_mount)
          (mounts_of (find s.mounted.mounted_apexes apex.name))
        ≡ false
  unseen m fresh p b =
      ap
        (λ q. any (matches q m.is_temp_mount) (mounts_of (find s.mounted.mounted_apexes apex.name)))
        p
      ∙ ap
          (λ q.
            any (matches apex.apex_path q) (mounts_of (find s.mounted.mounted_apexes apex.name)))
          b
      ∙ fresh

  Restored-cleaned :
      (s₁ : MountState) (m : MountedApexData)
      → StaysLabelled h.loops
      → Frees h.kernel
      → any (matches apex.apex_path true) (mounts_of (find s.mounted.mounted_apexes apex.name))
        ≡ false
      → Recorded apex s s₁ m
      → Within (owned_by m) s.trace s₁.trace
      → Restored s (clean_temp_mount h apex m s₁)
  unfolding clean_temp_mount
  Restored-cleaned s₁ m l f fresh r w = record {
    mounts = λ name.
        subst
          (λ p.
            mounts_of (find (remove_mounted_apex s₁.mounted apex.name p true).mounted_apexes name)
            ≡ mounts_of (find s.mounted.mounted_apexes name))
          r.path_of
          (subst
            (λ b.
              mounts_of
                (find (remove_mounted_apex s₁.mounted apex.name m.full_path b).mounted_apexes name)
              ≡ mounts_of (find s.mounted.mounted_apexes name))
            r.temporary
            (remove-add_mounted_apex s.mounted s₁.mounted apex.name m name r.added
              (unseen m fresh r.path_of r.temporary)));
    resources =
        (Within-unmount h m s.trace s₁.trace (unmount h m false s₁.trace).1 l w
          (unmount-Frees h m s₁.trace f)).at;
  }

  Restored-verified :
      (s₁ : MountState) (m : MountedApexData) (verified : Result (Unit {0}))
      → (after_verify h apex m true verified s₁).0 ≢ abort
      → Restored s (clean_temp_mount h apex m s₁)
      → Restored s (after_verify h apex m true verified s₁).1
  unfolding after_verify
  Restored-verified s₁ m (ok u) n r = r
  Restored-verified s₁ m (error e) n r = r
  Restored-verified s₁ m abort n r = absurd (n refl)

  Restored-failed :
      (s₁ : MountState) → s₁.mounted ≡ s.mounted → Within [] s.trace s₁.trace → Restored s s₁
  Restored-failed s₁ same w = record {
    mounts = λ name. rw same;
    resources = λ x e. elim (w.at x e) [ inl b ↦ inl b | inr n ↦ unfold among in absurd (cc) ];
  }

  Restored-run :
      (verify_fn : Trace → String → Result (Unit {0})) (mount_point : String)
      (r : Result MountedApexData × MountState)
      → StaysLabelled h.loops
      → Frees h.kernel
      → any (matches apex.apex_path true) (mounts_of (find s.mounted.mounted_apexes apex.name))
        ≡ false
      → KeepingState s.trace r
      → ((m : MountedApexData) → r.0 ≡ ok m → Recorded apex s r.1 m)
      → (is_ok r.0 ≡ false → r.1.mounted ≡ s.mounted)
      → let after =
          and_then r (λ m s₁. after_verify h apex m true (verify_fn s₁.trace mount_point) s₁) in
        after.0 ≢ abort → Restored s after.1
  Restored-run verify_fn mount_point (ok m, s₁) l f fresh k rec same n =
      Restored-verified s₁ m (verify_fn s₁.trace mount_point) n
        (Restored-cleaned s₁ m l f fresh (rec m refl) k)
  Restored-run verify_fn mount_point (error e, s₁) l f fresh k rec same n =
      Restored-failed s₁ (same refl) k
  Restored-run verify_fn mount_point (abort, s₁) l f fresh k rec same n = absurd (n refl)

-- A package is mounted, looked at and unmounted, where the kernel gives back what it is asked to,
-- the package has no temporary mount of that path yet, and the process is not aborted: whether the
-- mount and the check succeed or fail, every package has the mounts that it had, and the daemon
-- has asked the kernel to give back each directory, mount and device with a name that it has made.
pub run_verify_fn_inside_temp_mount-Restored :
    (h : MountHost) (apex : ApexFile) (verify_fn : Trace → String → Result (Unit {0}))
    (s : MountState)
    → StaysLabelled h.loops
    → Frees h.kernel
    → any (matches apex.apex_path true) (mounts_of (find s.mounted.mounted_apexes apex.name))
      ≡ false
    → (run_verify_fn_inside_temp_mount h apex verify_fn true s).0 ≢ abort
    → Restored s (run_verify_fn_inside_temp_mount h apex verify_fn true s).1
unfolding run_verify_fn_inside_temp_mount
run_verify_fn_inside_temp_mount-Restored h apex verify_fn s l f fresh n =
    let mount_point = get_package_temp_mount_point apex.manifest in
    let r = verify_and_temp_mount_package h apex mount_point s in
    Restored-run h apex s verify_fn mount_point r l f fresh
      (KeepingState-temp_mount h apex mount_point s)
      (λ m e.
        temp_mount-Recorded h apex mount_point s r.1 m
          (ap (λ (x : Result MountedApexData). (x, r.1)) e))
      (temp_mount_failed h apex mount_point s) n
