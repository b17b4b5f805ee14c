-- ===== src/Mounting/AllUnmounted.antt =====
-- apexd/apexd.cpp: `UnmountTempMount` asks the kernel to unmount what it takes from the database.
use system_apex.Base.{
  ℕ, zero, suc, ◌<◌, String, ◌≡◌, ◌⊎◌, ap, Bool, true, false, ◌&&◌, ◌||◌, none, List, [], ◌∷◌,
  arith, inl, inr, Option-cases, Bool-cases, any, find, ◌==◌, eq_iff, eq_refl,
}
use system_apex.Database.{MountedApexData}
use system_apex.Database.Mounts.{remove_mount, remove_mounted_apex, mounts_of}
use system_apex.Database.TempMounts.{matches}
use system_apex.Kernel.{Trace, umount, require}
use system_apex.Loop.{LoopHost, destroy_loop_device}
use system_apex.Mounting.{MountHost, MountState}
use system_apex.Mounting.Unmount.{unmount, free_devices, destroy_named}
use system_apex.Mounting.Verity.{delete_verity_device}
use system_apex.Mounting.Packages.{get_temp_mounted_apex_data, unmount_temp_mounts}
use system_apex.Mounting.AllTemporary.{
  count_temp, count_temp-remove_mount, get_temp_mounted_apex_data-any,
  get_temp_mounted_apex_data-none, get_temp_mounted_apex_data-temp, mounts_of-remove,
  unmount_temp_mounts-none,
}

-- The kernel was asked to unmount what is mounted at a path.
unfoldable pub asked_umount : String → Trace → Bool
asked_umount path [] = false
asked_umount path ((umount at false, done) ∷ t) =
    let before = asked_umount path t in at == path || before
asked_umount path (c ∷ t) = asked_umount path t

destroy_named-asked :
    (h : LoopHost) (name path : String) (t : Trace)
    → asked_umount path (destroy_named h name t) ≡ asked_umount path t
unfolding destroy_named destroy_loop_device asked_umount
destroy_named-asked h name path t = ground arith

free_devices-asked :
    (h : MountHost) (m : MountedApexData) (path : String) (t : Trace)
    → asked_umount path (free_devices h m false t).1 ≡ asked_umount path t
unfolding free_devices delete_verity_device require asked_umount
free_devices-asked h m path t = grind (arith, destroy_named-asked)

unmount-asked :
    (h : MountHost) (m : MountedApexData) (path : String) (t : Trace)
    → asked_umount path (unmount h m false t).1 ≡ (m.mount_point == path || asked_umount path t)
unfolding unmount asked_umount
unmount-asked h m path t = grind (arith, free_devices-asked)

-- What is asked stays asked.
unmount_temp_mounts-asked :
    (h : MountHost) (fuel : ℕ) (name path : String) (s : MountState)
    → asked_umount path s.trace ≡ true
    → asked_umount path (unmount_temp_mounts h fuel name s).trace ≡ true
unfolding unmount_temp_mounts
unmount_temp_mounts-asked h zero name path s e = e
unmount_temp_mounts-asked h (suc fuel) name path s e =
    elim (Option-cases (get_temp_mounted_apex_data s name)) [
      | inl none' ↦ rw (none', unmount_temp_mounts) e
      | inr (m, some') ↦
          rw (some', unmount_temp_mounts)
            (unmount_temp_mounts-asked h fuel name path _
              (ground (arith, e, unmount-asked h m path s.trace)))
    ]

any-remove_mount :
    (p : MountedApexData → Bool) (path : String) (ms : List MountedApexData)
    → any p (remove_mount path true ms) ≡ true
    → any p ms ≡ true
unfolding remove_mount
any-remove_mount p path [] e = e
any-remove_mount p path (m ∷ ms) e = ground (arith, any-remove_mount p path ms)

any-remove_mount_other :
    (path other : String) (ms : List MountedApexData)
    → (other == path) ≡ false
    → any (matches path true) ms ≡ true
    → any (matches path true) (remove_mount other true ms) ≡ true
unfolding remove_mount
any-remove_mount_other path other [] differs e = e
any-remove_mount_other path other (m ∷ ms) differs e = ground (
  arith,
  any-remove_mount_other path other ms,
  eq_iff m.full_path path,
  eq_iff m.full_path other,
  eq_iff other path,
)

-- A temporary mount of the path, whose unmounting was asked for.
abbrev pub unmounted : String → Trace → MountedApexData → Bool
unmounted path t n = matches path true n && asked_umount n.mount_point t

abbrev mounts_in : MountState → String → List MountedApexData
mounts_in s name = mounts_of (find s.mounted.mounted_apexes name)

unmount_temp_mounts-path :
    (h : MountHost) (fuel : ℕ) (name path : String) (s : MountState)
    → count_temp (mounts_in s name) < fuel
    → any (matches path true) (mounts_in s name) ≡ true
    → any (unmounted path (unmount_temp_mounts h fuel name s).trace) (mounts_in s name) ≡ true
unfolding unmount_temp_mounts
unmount_temp_mounts-path h zero name path s enough there = absurd (omega arith)
unmount_temp_mounts-path h (suc fuel) name path s enough there =
    elim (Option-cases (get_temp_mounted_apex_data s name)) [
      | inl none' ↦
          absurd (ground (arith, there, get_temp_mounted_apex_data-none s name path none'))
      | inr (m, some') ↦
          let s' : MountState = record {
            trace = (unmount h m false s.trace).1;
            mounted = remove_mounted_apex s.mounted name m.full_path true;
          } in
          let after = (unmount_temp_mounts h fuel name s').trace in
          let temp = get_temp_mounted_apex_data-temp s name m some' in
          rw (some', unmount_temp_mounts)
            (elim (Bool-cases (m.full_path == path)) [
              | inl same ↦
                  let asked = unmount_temp_mounts-asked h fuel name m.mount_point s' (
                    ground
                      (arith, unmount-asked h m m.mount_point s.trace, eq_refl m.mount_point)) in
                  get_temp_mounted_apex_data-any (unmounted path after) s name m some'
                    (ground (arith, same, temp, asked))
              | inr differs ↦
                  let left = mounts_of-remove s.mounted name m.full_path in
                  let less = count_temp-remove_mount m.full_path (mounts_in s name) (
                    get_temp_mounted_apex_data-any (matches m.full_path true) s name m some'
                      (ground (arith, temp, eq_refl m.full_path))) in
                  let rest =
                    unmount_temp_mounts-path h fuel name path s'
                      (omega (arith, less, ap count_temp left))
                      (rw left (
                        any-remove_mount_other path m.full_path (mounts_in s name) differs
                          there)) in
                  any-remove_mount (unmounted path after) m.full_path (mounts_in s name)
                    (rw left at rest)
            ])
    ]

-- Each temporary mount of a list has its path among those whose unmounting was asked for.
abbrev pub AllUnmounted : Trace → List MountedApexData → Type 0
AllUnmounted t ms =
    (path : String) → (any (matches path true) ms ≡ false) ⊎ (any (unmounted path t) ms ≡ true)

-- Where the loop of `UnmountTempMount` may run once more than the package has temporary mounts, it
-- ends by its own test: the database has no temporary mount of the package afterwards, and for
-- each path of which the package had one, the kernel was asked to unmount one of them.
pub unmount_temp_mounts-AllUnmounted :
    (h : MountHost) (fuel : ℕ) (name : String) (s : MountState)
    → count_temp (mounts_of (find s.mounted.mounted_apexes name)) < fuel
    → (get_temp_mounted_apex_data (unmount_temp_mounts h fuel name s) name ≡ none)
      × AllUnmounted
          (unmount_temp_mounts h fuel name s).trace
          (mounts_of (find s.mounted.mounted_apexes name))
unmount_temp_mounts-AllUnmounted h fuel name s enough = (
  unmount_temp_mounts-none h fuel name s enough,
  λ path. elim (Bool-cases (any (matches path true) (mounts_in s name))) [
    | inl there ↦ inr (unmount_temp_mounts-path h fuel name path s enough there)
    | inr absent ↦ inl absent
  ],
)
