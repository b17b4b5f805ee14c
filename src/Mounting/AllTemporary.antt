-- ===== src/Mounting/AllTemporary.antt =====
-- apexd/apexd.cpp: `UnmountTempMount` ends, with no temporary mount of the package left.
use mathlib.Core.List.{reverse, reverse_aux}
use system_apex.Base.{
  ℕ, zero, suc, ◌+◌, ◌<◌, String, ◌≡◌, refl, sym, ap, ◌∙◌, Bool, true, false, ◌||◌, none, some,
  List, [], ◌∷◌, arith, inl, inr, Option-cases, if◌then◌else◌, any, find, find-assign, eq_refl,
}
use system_apex.Database.{MountedApexData, MountedApexDatabase}
use system_apex.Database.Mounts.{
  remove_mount, remove_mounted_apex, mounts_of, of_kind, latest_first, mark_first, mark_rest,
  mounted_apexes_of,
}
use system_apex.Database.TempMounts.{matches}
use system_apex.Mounting.{MountHost, MountState}
use system_apex.Mounting.Unmount.{unmount}
use system_apex.Mounting.Packages.{first_mount, get_temp_mounted_apex_data, unmount_temp_mounts}

unfoldable pub count_temp : List MountedApexData → ℕ
count_temp [] = 0
count_temp (m ∷ ms) = (if m.is_temp_mount then 1 else 0) + count_temp ms

abbrev any_marked : (MountedApexData → Bool) → List (MountedApexData × Bool) → Bool
any_marked p [] = false
any_marked p ((m, latest) ∷ rest) = p m || any_marked p rest

first-of_kind :
    (p : MountedApexData → Bool) (l : List (MountedApexData × Bool)) (m : MountedApexData)
    → first_mount (of_kind true l) ≡ some m
    → p m ≡ true
    → any_marked p l ≡ true
unfolding of_kind
first-of_kind p [] m e good = absurd (ground arith)
first-of_kind p ((n, latest) ∷ rest) m e good = ground (arith, first-of_kind p rest m)

any_marked-mark_rest :
    (p : MountedApexData → Bool) (ms : List MountedApexData)
    → any_marked p (mark_rest ms) ≡ any p ms
any_marked-mark_rest p [] = refl
any_marked-mark_rest p (m ∷ ms) = ground (arith, any_marked-mark_rest p ms)

any_marked-mark_first :
    (p : MountedApexData → Bool) (ms : List MountedApexData)
    → any_marked p (mark_first ms) ≡ any p ms
any_marked-mark_first p [] = refl
any_marked-mark_first p (m ∷ ms) = ground (arith, any_marked-mark_rest p ms)

any-reverse_aux :
    (p : MountedApexData → Bool) (ms acc : List MountedApexData)
    → any p (reverse_aux ms acc) ≡ (any p ms || any p acc)
any-reverse_aux p [] acc = refl
any-reverse_aux p (m ∷ ms) acc = ground (arith, any-reverse_aux p ms (m ∷ acc))

any-reverse :
    (p : MountedApexData → Bool) (ms : List MountedApexData) → any p (reverse ms) ≡ any p ms
any-reverse p ms = ground (arith, any-reverse_aux p ms [])

-- Removing a temporary mount that is there leaves one less.
pub count_temp-remove_mount :
    (path : String) (ms : List MountedApexData)
    → any (matches path true) ms ≡ true
    → suc (count_temp (remove_mount path true ms)) ≡ count_temp ms
unfolding count_temp remove_mount
count_temp-remove_mount path [] e = absurd (ground arith)
count_temp-remove_mount path (m ∷ ms) e = ground (arith, count_temp-remove_mount path ms)

-- What holds of the mount that is found holds of one of the mounts of the package.
pub get_temp_mounted_apex_data-any :
    (p : MountedApexData → Bool) (s : MountState) (name : String) (m : MountedApexData)
    → get_temp_mounted_apex_data s name ≡ some m
    → p m ≡ true
    → any p (mounts_of (find s.mounted.mounted_apexes name)) ≡ true
unfolding get_temp_mounted_apex_data mounted_apexes_of latest_first
get_temp_mounted_apex_data-any p s name m e good =
    elim (Option-cases (find s.mounted.mounted_apexes name)) [
      | inl missing ↦ absurd (ground arith)
      | inr (ms, found) ↦ rw found (
          sym (any-reverse p ms)
          ∙ sym (any_marked-mark_first p (reverse ms))
          ∙ first-of_kind p (mark_first (reverse ms)) m (ground arith) good)
    ]

first-of_kind-temp :
    (l : List (MountedApexData × Bool)) (m : MountedApexData)
    → first_mount (of_kind true l) ≡ some m
    → m.is_temp_mount ≡ true
unfolding of_kind
first-of_kind-temp [] m e = absurd (ground arith)
first-of_kind-temp ((n, latest) ∷ rest) m e = ground (arith, first-of_kind-temp rest m)

pub get_temp_mounted_apex_data-temp :
    (s : MountState) (name : String) (m : MountedApexData)
    → get_temp_mounted_apex_data s name ≡ some m
    → m.is_temp_mount ≡ true
unfolding get_temp_mounted_apex_data mounted_apexes_of latest_first
get_temp_mounted_apex_data-temp s name m e =
    elim (Option-cases (find s.mounted.mounted_apexes name)) [
      | inl missing ↦ absurd (ground arith)
      | inr (ms, found) ↦ first-of_kind-temp (mark_first (reverse ms)) m (ground arith)
    ]

first-of_kind-none :
    (path : String) (l : List (MountedApexData × Bool))
    → first_mount (of_kind true l) ≡ none
    → any_marked (matches path true) l ≡ false
unfolding of_kind
first-of_kind-none path [] e = refl
first-of_kind-none path ((n, latest) ∷ rest) e = ground (arith, first-of_kind-none path rest)

pub get_temp_mounted_apex_data-none :
    (s : MountState) (name path : String)
    → get_temp_mounted_apex_data s name ≡ none
    → any (matches path true) (mounts_of (find s.mounted.mounted_apexes name)) ≡ false
unfolding get_temp_mounted_apex_data mounted_apexes_of latest_first
get_temp_mounted_apex_data-none s name path e =
    elim (Option-cases (find s.mounted.mounted_apexes name)) [
      | inl missing ↦ rw missing refl
      | inr (ms, found) ↦
          let p = matches path true in
          rw found (
            sym (any-reverse p ms)
            ∙ sym (any_marked-mark_first p (reverse ms))
            ∙ first-of_kind-none path (mark_first (reverse ms)) (ground arith))
    ]

pub mounts_of-remove :
    (db : MountedApexDatabase) (name path : String)
    → mounts_of (find (remove_mounted_apex db name path true).mounted_apexes name)
      ≡ remove_mount path true (mounts_of (find db.mounted_apexes name))
unfolding remove_mounted_apex remove_mount
mounts_of-remove db name path = elim (Option-cases (find db.mounted_apexes name)) [
  | inl missing ↦ ground arith
  | inr (ms, found) ↦
      ground
        (arith, find-assign db.mounted_apexes name name (remove_mount path true ms), eq_refl name)
]

-- Where the loop of `UnmountTempMount` may run once more than the package has temporary mounts, it
-- ends by its own test: no temporary mount of the package is left in the database.
pub unmount_temp_mounts-none :
    (h : MountHost) (fuel : ℕ) (name : String) (s : MountState)
    → count_temp (mounts_of (find s.mounted.mounted_apexes name)) < fuel
    → get_temp_mounted_apex_data (unmount_temp_mounts h fuel name s) name ≡ none
unfolding unmount_temp_mounts
unmount_temp_mounts-none h zero name s e = absurd (omega arith)
unmount_temp_mounts-none h (suc fuel) name s e =
    elim (Option-cases (get_temp_mounted_apex_data s name)) [
      | inl none' ↦ rw (none', unmount_temp_mounts) none'
      | inr (m, some') ↦
          let s' : MountState = record {
            trace = (unmount h m false s.trace).1;
            mounted = remove_mounted_apex s.mounted name m.full_path true;
          } in
          let less =
            count_temp-remove_mount m.full_path (mounts_of (find s.mounted.mounted_apexes name)) (
              get_temp_mounted_apex_data-any (matches m.full_path true) s name m some' (
                ground
                  (arith, get_temp_mounted_apex_data-temp s name m some', eq_refl m.full_path))) in
          rw (some', unmount_temp_mounts)
            (unmount_temp_mounts-none h fuel name s'
              (omega (arith, less, ap count_temp (mounts_of-remove s.mounted name m.full_path))))
    ]
