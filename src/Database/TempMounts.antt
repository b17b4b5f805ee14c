-- ===== src/Database/TempMounts.antt =====
-- A temporary mount that is added and removed again, and the slaves of a device-mapper device.
use mathlib.Core.Path.{subst}
use system_apex.Base.{
  String, ◌≡◌, ◌∙◌, ap, inl, inr, Bool, true, false, ◌&&◌, some, List, [], ◌∷◌, arith, any,
  Bool-cases, Option-cases, find, assign, find-assign, eq_iff, eq_refl, ◌==◌, ok,
}
use system_apex.Database.{MountedApexData, MountedApexDatabase, insert_mount}
use system_apex.Database.Order.{insert_mount-cases}
use system_apex.Database.Mounts.{
  remove_mount, add_mounted_apex, remove_mounted_apex, mounts_of, same_flag,
}

-- Whether `RemoveMountedApex` would take the mount.
abbrev pub matches : String → Bool → MountedApexData → Bool
matches path temp m = m.full_path == path && same_flag m.is_temp_mount temp

matches_self : (m : MountedApexData) → matches m.full_path m.is_temp_mount m ≡ true
matches_self m = ground (arith, eq_refl m.full_path)

remove-insert :
    (m : MountedApexData) (xs ys : List MountedApexData)
    → insert_mount m xs ≡ some ys
    → any (matches m.full_path m.is_temp_mount) xs ≡ false
    → remove_mount m.full_path m.is_temp_mount ys ≡ xs
unfolding remove_mount
remove-insert m [] ys e h =
    let alone : ys ≡ m ∷ [] = unfold insert_mount in ground arith in rw alone (rw (matches_self m))
remove-insert m (x ∷ xs) ys e h = elim (insert_mount-cases m x xs ys e) [
  | inl (_, front) ↦ rw front (rw (matches_self m))
  | inr (zs, _, put, more) ↦
      let ih = remove-insert m xs zs put (ground arith) in
      let kept : matches m.full_path m.is_temp_mount x ≡ false = ground arith in
      rw more (rw (kept, ih))
]

-- Adding a mount and removing it again, as a temporary mount does, leaves every package with the
-- mounts that it had, if no mount of the package has the same path and kind.
pub remove-add_mounted_apex :
    (db db' : MountedApexDatabase) (pkg : String) (m : MountedApexData) (name : String)
    → add_mounted_apex db pkg m ≡ ok db'
    → any (matches m.full_path m.is_temp_mount) (mounts_of (find db.mounted_apexes pkg)) ≡ false
    → mounts_of (find (remove_mounted_apex db' pkg m.full_path m.is_temp_mount).mounted_apexes name)
      ≡ mounts_of (find db.mounted_apexes name)
unfolding add_mounted_apex remove_mounted_apex
remove-add_mounted_apex db db' pkg m name e h =
    elim (Option-cases (insert_mount m (mounts_of (find db.mounted_apexes pkg)))) [
      | inl full ↦ absurd (ground arith)
      | inr (new, put) ↦
          let after : record db { mounted_apexes = assign db.mounted_apexes pkg new } ≡ db' =
            ground arith in
          subst
            (λ d.
              mounts_of
                (find (remove_mounted_apex d pkg m.full_path m.is_temp_mount).mounted_apexes name)
              ≡ mounts_of (find db.mounted_apexes name))
            after (restored new (remove-insert m _ new put h))
    ]
  where
    restored :
        (new : List MountedApexData)
        → remove_mount m.full_path m.is_temp_mount new ≡ mounts_of (find db.mounted_apexes pkg)
        → mounts_of (
            find
              (remove_mounted_apex
                (record db { mounted_apexes = assign db.mounted_apexes pkg new })
                pkg
                m.full_path
                m.is_temp_mount).mounted_apexes
              name)
          ≡ mounts_of (find db.mounted_apexes name)
    restored new back =
        let m1 = assign db.mounted_apexes pkg new in
        let here : find m1 pkg ≡ some new =
          find-assign db.mounted_apexes pkg pkg new ∙ rw (eq_refl pkg) in
        rw (here, remove_mounted_apex)
          (rw (find-assign, find-assign)
            (elim (Bool-cases (pkg == name)) [
              | inl same ↦
                  rw same (
                    back
                    ∙ ap (λ x. mounts_of (find db.mounted_apexes x)) ((eq_iff pkg name).0 same))
              | inr other ↦ rw other
            ]))
