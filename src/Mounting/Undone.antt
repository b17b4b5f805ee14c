-- ===== src/Mounting/Undone.antt =====
-- apexd/apexd.cpp: `Unmount` undoes `MountPackageImpl`.
use system_apex.Base.{
  String, ◌≡◌, refl, ap, true, false, not, ◌&&◌, some, List, [], ◌∷◌, ok, arith, inl, inr,
  Bool-cases, if◌then◌else◌, ◌==◌, eq_iff, subst, and_then-eq-ok,
}
use system_apex.ApexFile.{ApexFile}
use system_apex.Database.{MountedApexData}
use system_apex.Kernel.{Trace, rmdir, loop_clr_fd, delete_device, umount, require}
use system_apex.Kernel.Held.{
  Resource, directory, loop_device, dm_device, mount_at, same_resource, among, held, unreleased,
  refused, held-refused, held-unreleased, Within, creates, releases, Within-mono, Within-swap,
  Within-plain, Within-release,
}
use system_apex.Kernel.Keeping.{Keeping}
use system_apex.Loop.{LoopHost, destroy_loop_device}
use system_apex.Mounting.{MountHost, MountRequest}
use system_apex.Mounting.Verity.{delete_verity_device}
use system_apex.Mounting.Image.{mount_package_impl}
use system_apex.Mounting.Unmount.{nothing_mounted, destroy_named, free_devices, unmount}
use system_apex.Mounting.NoLeak.{owned_by, Keeping-mount_package_impl}

-- A loop device that the daemon has bound can be opened, and has the name that it was given.
abbrev pub StaysLabelled : LoopHost → Type 0
StaysLabelled h =
    (t : Trace) (name : String)
    → unreleased (loop_device name) t ≡ true
    → (h.kernel.can_open t name ≡ true) × (h.crypt_name t name ≡ some "apex:")

same_resource-eq : (r x : Resource) → same_resource r x ≡ true → r ≡ x
unfolding same_resource
same_resource-eq (Resource.directory a) (Resource.directory b) h = ap directory ((eq_iff a b).0 h)
same_resource-eq (Resource.loop_device a) (Resource.loop_device b) h =
    ap loop_device ((eq_iff a b).0 h)
same_resource-eq (Resource.dm_device a) (Resource.dm_device b) h = ap dm_device ((eq_iff a b).0 h)
same_resource-eq (Resource.mount_at a) (Resource.mount_at b) h = ap mount_at ((eq_iff a b).0 h)
same_resource-eq _ _ h = cc

Within-gone :
    (x : Resource) (new : List Resource) (t t' : Trace)
    → unreleased x t' ≡ false
    → Within (x ∷ new) t t'
    → Within new t t'
unfolding among
Within-gone x new t t' gone w = record {
  at = λ r e. elim (w.at r e) [
    | inl b ↦ inl b
    | inr n ↦ elim (Bool-cases (same_resource r x)) [
      | inl same ↦ absurd (grind (arith, same_resource-eq r x same))
      | inr other ↦ inr (ground arith)
    ]
  ];
}

Within-destroyed :
    (h : LoopHost) (new : List Resource) (t t' : Trace) (name : String)
    → StaysLabelled h
    → Within (loop_device name ∷ new) t t'
    → Within new t (destroy_loop_device h name t')
unfolding destroy_loop_device creates releases
Within-destroyed h new t t' name l w = elim (Bool-cases (unreleased (loop_device name) t')) [
  | inl mine ↦
      let done = h.kernel.succeeds t' (loop_clr_fd name) in
      let cleared =
        Within-release new t t' (loop_clr_fd name) done (loop_device name) refl refl w in
      let answers = l t' name mine in rw (answers.0, destroy_loop_device) (rw answers.1 cleared)
  | inr gone ↦ grind (arith, Within-gone, Within-plain)
]

-- Devices with no name: none that the daemon makes.
abbrev pub unnamed : List Resource
unnamed = loop_device "" ∷ dm_device "" ∷ []

Within-destroy_named :
    (h : LoopHost) (new : List Resource) (t t' : Trace) (name : String)
    → StaysLabelled h
    → Within (loop_device name ∷ loop_device "" ∷ new) t t'
    → Within (loop_device "" ∷ new) t (destroy_named h name t')
unfolding destroy_named
Within-destroy_named h new t t' name l w = elim (Bool-cases (name == "")) [
  | inl none' ↦
      rw (none', destroy_named)
        (Within-mono (loop_device name ∷ loop_device "" ∷ new) (loop_device "" ∷ new) t t'
          (λ r e. unfold among in grind (arith, (eq_iff name "").0 none')) w)
  | inr some' ↦ rw (some', destroy_named) (Within-destroyed h (loop_device "" ∷ new) t t' name l w)
]

-- The devices of a mount, the device-mapper device first.
abbrev devices_of : MountedApexData → List Resource
devices_of m =
    loop_device m.loop_name ∷ loop_device "" ∷ loop_device m.hashtree_loop_name ∷ dm_device "" ∷ []

Within-delete_device :
    (h : MountHost) (m : MountedApexData) (t t' : Trace)
    → Within (dm_device m.device_name ∷ devices_of m) t t'
    → Within
        (devices_of m)
        t
        (if m.device_name == ""
          then (ok tt, t')
          else delete_verity_device h.kernel m.device_name false t').1
unfolding delete_verity_device require creates releases
Within-delete_device h m t t' w = elim (Bool-cases (m.device_name == "")) [
  | inl none' ↦ rw none' (
      Within-mono (dm_device m.device_name ∷ devices_of m) (devices_of m) t t'
        (λ r e. unfold among in grind (arith, (eq_iff m.device_name "").0 none')) w)
  | inr some' ↦
      let c = delete_device m.device_name false in
      rw some' (
        Within-release (devices_of m) t t' c (h.kernel.succeeds t' c) (dm_device m.device_name) refl
          refl w)
]

-- From the device-mapper device on.
Within-free_devices :
    (h : MountHost) (m : MountedApexData) (t t' t'' : Trace)
    → StaysLabelled h.loops
    → Within (dm_device m.device_name ∷ devices_of m) t t'
    → free_devices h m false t' ≡ (ok tt, t'')
    → Within unnamed t t''
unfolding free_devices
Within-free_devices h m t t' t'' l w e =
    let deleted =
      if m.device_name == ""
      then (ok tt, t')
      else delete_verity_device h.kernel m.device_name false t' in
    let rest = and_then-eq-ok deleted _ e in
    let t₂ = destroy_named h.loops m.loop_name deleted.1 in
    let hash = loop_device m.hashtree_loop_name in
    let w₂ =
      Within-destroy_named h.loops (hash ∷ dm_device "" ∷ []) t deleted.1 m.loop_name l
        (Within-delete_device h m t t' w) in
    let w₃ =
      Within-destroy_named h.loops (dm_device "" ∷ []) t t₂ m.hashtree_loop_name l
        (Within-swap (loop_device "") hash (dm_device "" ∷ []) t t₂ w₂) in
    let last : destroy_named h.loops m.hashtree_loop_name t₂ ≡ t'' = ap (λ p. p.1) rest.2 in
    subst (λ u. Within unnamed t u) last w₃

pub Within-unmount :
    (h : MountHost) (m : MountedApexData) (t t' t'' : Trace)
    → StaysLabelled h.loops
    → Within (owned_by m) t t'
    → unmount h m false t' ≡ (ok tt, t'')
    → Within unnamed t t''
unfolding unmount creates releases
Within-unmount h m t t' t'' l w e =
    let k = h.kernel in
    let c = umount m.mount_point false in
    let done = k.succeeds t' c in
    let t₁ = (c, done) ∷ t' in
    let c' = rmdir m.mount_point in
    let t₂ = (c', k.succeeds t₁ c') ∷ t₁ in
    let devices = dm_device m.device_name ∷ devices_of m in
    let w₁ =
      Within-release (directory m.mount_point ∷ devices) t t' c done (mount_at m.mount_point) refl
        refl
        (Within-mono (owned_by m) (mount_at m.mount_point ∷ directory m.mount_point ∷ devices) t t'
          (λ r n. unfold owned_by among in ground arith) w) in
    let w₂ =
      Within-release devices t t₁ c' (k.succeeds t₁ c') (directory m.mount_point) refl refl w₁ in
    elim (Bool-cases (not done && not (nothing_mounted (k.errno t' c)))) [
      | inl failed ↦ absurd (ground arith)
      | inr gone ↦ Within-free_devices h m t t₂ t'' l w₂ (rw gone at e)
    ]

-- Where the daemon can open its loop devices and they keep their label: mounting a package and
-- unmounting it again, both with success, leaves nothing behind but what the kernel refuses to
-- take back. What was not held before, has a name, and is no resource whose return the kernel has
-- refused, is not held after the two.
pub unmount-mount_package_impl :
    (h : MountHost) (r : MountRequest) (apex : ApexFile) (t t' t'' : Trace) (m : MountedApexData)
    (x : Resource)
    → StaysLabelled h.loops
    → mount_package_impl h r apex t ≡ (ok m, t')
    → unmount h m false t' ≡ (ok tt, t'')
    → held x t ≡ false
    → among x unnamed ≡ false
    → refused x t'' ≡ false
    → held x t'' ≡ false
unmount-mount_package_impl h r apex t t' t'' m x l e e' before named granted =
    elim (Bool-cases (held x t'')) [
      | inr gone ↦ gone
      | inl still ↦
          let kept : unreleased x t'' ≡ true = ground (arith, still, granted, held-refused x t'') in
          elim ((Within-unmount h m t t' t'' l
              (subst (λ p. Keeping owned_by [] t p) e (Keeping-mount_package_impl h r apex t))
              e').at
            x kept) [
              | inl old ↦ absurd (ground (arith, before, held-unreleased x t old))
              | inr nameless ↦ absurd (ground (arith, named, nameless))
            ]
    ]
