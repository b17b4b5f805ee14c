-- ===== src/Mounting/Devices.antt =====
-- apexd/apexd.cpp: the devices that `MountPackageImpl` makes are given back where it fails.
use Prim.Native.String.{◌++◌ as append}
use system_apex.Base.{
  String, refl, Bool, false, not, Option, none, some, List, ◌∷◌, Result, ok, error, if◌then◌else◌,
  nat_eq,
}
use system_apex.ApexFile.{ApexFile}
use system_apex.ApexFile.Verity.{ApexVerityData}
use system_apex.Kernel.{
  Kernel, Trace, DmTable, DmDeviceState, create_device, load_table_and_activate, delete_device,
  create_dir_if_needed, write_hash_tree, loop_clr_fd,
}
use system_apex.Kernel.Held.{
  Resource, loop_device, dm_device, Within, creates, releases, Within-swap,
}
use system_apex.Kernel.Keeping.{
  Keeping, owns_all, Keeping-and_then, Keeping-or_undo, Keeping-if, Keeping-require,
  Keeping-require_new, Keeping-weaken, Keeping-pure,
}
use system_apex.Loop.Configured.{
  owns_loop, Keeping-create_and_configure, Keeping-configure_read_ahead,
}
use system_apex.Mounting.{MountHost, MountRequest}
use system_apex.Mounting.Verity.{
  create_verity_table, delete_verity_device, create_new_device, replace_device, reuse_existing,
  create_verity_device, or_clear, or_delete, must_regenerate, prepare_hash_tree, make_hash_device,
  Devices, hash_device_or, or_release, setup_verity,
}

-- A loop device that may be there, and a device-mapper device that may be there.
abbrev pub with_loop : Option String → List Resource → List Resource
with_loop none new = new
with_loop (some name) new = loop_device name ∷ new

abbrev pub with_dm : Option String → List Resource → List Resource
with_dm none new = new
with_dm (some name) new = dm_device name ∷ new

abbrev pub with_devices : Devices → List Resource → List Resource
with_devices d new = with_loop d.hash_device (with_dm d.dm_name new)

pub Keeping-or_clear {ℓ} :
    {A : Type ℓ} (k : Kernel) (owns : A → List Resource) (new : List Resource) (o : Option String)
    (t : Trace) (r : Result A × Trace)
    → Keeping owns (with_loop o new) t r
    → Keeping owns new t (or_clear k o r)
unfolding or_clear releases creates
Keeping-or_clear k owns new none t r h = h
Keeping-or_clear k owns new (some n) t r h =
    Keeping-or_undo k owns new (loop_device n) (loop_clr_fd n) t r refl refl h

pub Keeping-or_release {ℓ} :
    {A : Type ℓ} (k : Kernel) (owns : A → List Resource) (new : List Resource) (d : Devices)
    (t : Trace) (r : Result A × Trace)
    → Keeping owns (with_devices d new) t r
    → Keeping owns new t (or_release k d r)
unfolding or_release or_delete releases creates
Keeping-or_release {A} k owns new d t r h =
    deleted d.dm_name (or_clear k d.hash_device r)
      (Keeping-or_clear k owns (with_dm d.dm_name new) d.hash_device t r h)
  where
    deleted :
        (o : Option String) (r' : Result A × Trace)
        → Keeping owns (with_dm o new) t r'
        → Keeping owns new t (or_delete k o r')
    deleted none r' h' = h'
    deleted (some n) r' h' =
        Keeping-or_undo k owns new (dm_device n) (delete_device n false) t r' refl refl h'

module _ (k : Kernel) (new : List Resource) (name : String) (table : DmTable) (t : Trace) where
  abbrev owns_dm : String → List Resource
  owns_dm _ = dm_device name ∷ new

  Keeping-create_new_device :
      (t' : Trace) → Within new t t' → Keeping owns_dm new t (create_new_device k name table t')
  unfolding create_new_device creates
  Keeping-create_new_device t' w =
      Keeping-and_then (owns_all (dm_device name ∷ new)) owns_dm new t _ _
        (Keeping-require_new k new t t' (create_device name table) "Couldn't create verity device."
          (dm_device name) refl w)
        (λ _ t₁ w₁. w₁)

  Keeping-replace_device :
      (t' : Trace) → Within new t t' → Keeping owns_dm new t (replace_device k name table t')
  unfolding replace_device delete_verity_device creates
  Keeping-replace_device t' w =
      Keeping-and_then (owns_all new) owns_dm new t _ _
        (Keeping-require k new t t' (delete_device name false) _ refl w)
        (λ _ t₁ w₁. Keeping-create_new_device t₁ w₁)

  Keeping-reuse_existing :
      (t' : Trace) → Within new t t' → Keeping owns_dm new t (reuse_existing k name table t')
  unfolding reuse_existing creates releases
  Keeping-reuse_existing t' w =
      Keeping-or_undo k owns_dm new (dm_device name) (delete_device name false) t _ refl refl (
        Keeping-and_then (owns_all (dm_device name ∷ new)) owns_dm (dm_device name ∷ new) t _ _
          (Keeping-weaken (owns_all (dm_device name ∷ new)) (dm_device name) new t _ (
            Keeping-require_new k new t t' (load_table_and_activate name table) _ (dm_device name)
              refl w))
          (λ _ t₁ w₁.
            elim (k.dm_wait t₁ name)
              as (λ o. Keeping {A = String} owns_dm (dm_device name ∷ new) t (elim o [
                | none ↦ (error (append "Failed waiting for dm device " name), t₁)
                | some path ↦ (ok path, t₁)
              ])) [ none ↦ w₁ | some path ↦ w₁ ]))

  pub Keeping-create_verity_device :
      (reuse : Bool) (t' : Trace)
      → Within new t t'
      → Keeping
          (λ (path : String). dm_device name ∷ new)
          new
          t
          (create_verity_device k name table reuse t')
  unfolding create_verity_device
  Keeping-create_verity_device reuse t' w =
      elim (k.dm_state t' name)
        as (λ s. Keeping {A = String} owns_dm new t (elim s [
          | DmDeviceState.invalid ↦ create_new_device k name table t'
          | DmDeviceState.active ↦ replace_device k name table t'
          | DmDeviceState.suspended ↦
              if reuse then reuse_existing k name table t' else replace_device k name table t'
        ])) [
          | DmDeviceState.invalid ↦ Keeping-create_new_device t' w
          | DmDeviceState.active ↦ Keeping-replace_device t' w
          | DmDeviceState.suspended ↦
              Keeping-if owns_dm new t reuse _ _ (λ _. Keeping-reuse_existing t' w)
                (λ _. Keeping-replace_device t' w)
        ]

module _ (h : MountHost) (new : List Resource) (t : Trace) where
  Keeping-prepare_hash_tree :
      (apex : ApexFile) (verity : ApexVerityData) (file : String) (t' : Trace)
      → Within new t t'
      → Keeping (owns_all new) new t (prepare_hash_tree h apex verity file t')
  unfolding prepare_hash_tree creates
  Keeping-prepare_hash_tree apex verity file t' w =
      Keeping-if (owns_all new) new t apex.is_compressed _ _ (λ _. w)
        (λ _.
          Keeping-and_then (owns_all new) (owns_all new) new t _ _
            (Keeping-require h.kernel new t t' (create_dir_if_needed _) _ refl w)
            (λ _ t₁ w₁.
              Keeping-and_then (owns_all new) (owns_all new) new t _ _
                (Keeping-pure new t t₁ (must_regenerate h t₁ verity file) w₁)
                (λ regenerate t₂ w₂.
                  Keeping-if (owns_all new) new t regenerate _ _
                    (λ _. Keeping-require h.kernel new t t₂ (write_hash_tree file) _ refl w₂)
                    (λ _. w₂))))

  abbrev owns_hash : Option String → List Resource
  owns_hash o = with_loop o new

  Keeping-make_hash_device :
      (apex : ApexFile) (verity : ApexVerityData) (file : String) (t' : Trace)
      → Within new t t'
      → Keeping owns_hash new t (make_hash_device h apex verity file t')
  unfolding make_hash_device
  Keeping-make_hash_device apex verity file t' w =
      Keeping-if owns_hash new t (nat_eq verity.tree_size 0) _ _
        (λ _.
          Keeping-and_then (owns_all new) owns_hash new t _ _
            (Keeping-prepare_hash_tree apex verity file t' w)
            (λ _ t₁ w₁.
              Keeping-and_then (owns_loop new) owns_hash new t _ _
                (Keeping-create_and_configure new t h.loops file 0 0 t₁ w₁) (λ device t₂ w₂. w₂)))
        (λ _. w)

  Within-reorder :
      (o : Option String) (name : String) (t' : Trace)
      → Within (dm_device name ∷ with_loop o new) t t'
      → Within (with_loop o (dm_device name ∷ new)) t t'
  Within-reorder none name t' w = w
  Within-reorder (some n) name t' w = Within-swap (dm_device name) (loop_device n) new t t' w

-- `setup_verity` holds on to the devices that it returns, and to nothing where it fails.
pub Keeping-setup_verity :
    (h : MountHost) (new : List Resource) (t : Trace) (r : MountRequest) (apex : ApexFile)
    (verity : ApexVerityData) (loop : String) (t' : Trace)
    → Within new t t'
    → Keeping (λ (d : Devices). with_devices d new) new t (setup_verity h r apex verity loop t')
unfolding setup_verity
Keeping-setup_verity h new t r apex verity loop t' w =
    let k = h.kernel in
    let owns = λ (d : Devices). with_devices d new in
    Keeping-and_then (owns_hash h new t) owns new t _ _
      (Keeping-make_hash_device h new t apex verity r.hashtree_file t' w)
      (λ hash t₁ w₁.
        let table =
          create_verity_table verity loop (hash_device_or hash loop) (not r.verify_image) in
        Keeping-and_then (λ (path : String). dm_device r.device_name ∷ with_loop hash new) owns new
          t _ _
          (Keeping-or_clear k _ new hash t _ (
            Keeping-create_verity_device k (with_loop hash new) r.device_name table t r.reuse_device
              t₁ w₁))
          (λ path t₂ w₂.
            let devices : Devices = record {
              hash_device = hash;
              dm_name = some r.device_name;
              block_device = path;
            } in
            let held = with_devices devices new in
            Keeping-or_release k owns new devices t _ (
              Keeping-and_then (owns_all held) owns held t _ _
                (Keeping-configure_read_ahead held t k path t₂
                  (Within-reorder h new t hash r.device_name t₂ w₂))
                (λ _ t₃ w₃. w₃))))
