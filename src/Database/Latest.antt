-- ===== src/Database/Latest.antt =====
-- apexd/apex_database.h: `GetLatestMountedApex`, and what a handler over the mounts of a package sees.
use mathlib.Core.List.{reverse, reverse_aux}
use system_apex.Base.{
  String, ◌≡◌, refl, sym, ◌∙◌, ap, ◌⊎◌, inl, inr, Bool, true, false, Option, none, some, List, [],
  ◌∷◌, arith, ◌≤ℤ◌, All, Bool-cases, Option-cases, find, if◌then◌else◌,
}
use system_apex.Database.{MountedApexData, MountedApexDatabase}
use system_apex.Database.Mounts.{
  mounts_of, of_kind, latest_first, latest_of, mark_first, mark_rest, mounted_apexes_of,
  get_latest_mounted_apex, last_mount,
}
use system_apex.Database.Order.{AllSorted, VersionSorted-mounts_of, last_mount-highest}

-- The first element of a list.
abbrev first_of_list : List MountedApexData → Option MountedApexData
first_of_list [] = none
first_of_list (m ∷ ms) = some m

first-reverse_aux :
    (ms acc : List MountedApexData) (n : MountedApexData)
    → first_of_list (reverse_aux ms (n ∷ acc)) ≡ last_mount (n ∷ ms)
unfolding last_mount
first-reverse_aux [] acc n = refl
first-reverse_aux (m ∷ ms) acc n = first-reverse_aux ms (n ∷ acc) m

first-reverse : (ms : List MountedApexData) → first_of_list (reverse ms) ≡ last_mount ms
unfolding last_mount
first-reverse [] = refl
first-reverse (m ∷ ms) = first-reverse_aux ms [] m

latest_of-rest :
    (ret : Option MountedApexData) (temp : Bool) (ms : List MountedApexData)
    → latest_of ret (of_kind temp (mark_rest ms)) ≡ ret
unfolding latest_of of_kind
latest_of-rest ret temp [] = refl
latest_of-rest ret temp (m ∷ ms) = ground (arith, latest_of-rest ret temp ms)

-- The last mount, unless it is a temporary one.
abbrev pub visible : Option MountedApexData → Option MountedApexData
visible none = none
visible (some m) = if m.is_temp_mount then none else some m

latest_of-mark_first :
    (ms : List MountedApexData)
    → latest_of none (of_kind false (mark_first ms)) ≡ visible (first_of_list ms)
unfolding latest_of of_kind
latest_of-mark_first [] = refl
latest_of-mark_first (m ∷ ms) =
    ground (arith, latest_of-rest none false ms, latest_of-rest (some m) false ms)

-- `GetLatestMountedApex` is the last mount of the package, and nothing if that is a temporary
-- mount, though other mounts may lie below it.
pub get_latest_mounted_apex-visible :
    (db : MountedApexDatabase) (pkg : String)
    → get_latest_mounted_apex db pkg ≡ visible (last_mount (mounts_of (find db.mounted_apexes pkg)))
unfolding get_latest_mounted_apex mounted_apexes_of latest_first
get_latest_mounted_apex-visible db pkg = elim (Option-cases (find db.mounted_apexes pkg)) [
  | inl missing ↦
      rw (missing, get_latest_mounted_apex, mounted_apexes_of) (unfold last_mount latest_of in refl)
  | inr (ms, found) ↦
      rw (found, get_latest_mounted_apex, mounted_apexes_of)
        (latest_of-mark_first (reverse ms) ∙ ap visible (first-reverse ms))
]

of_kind-mark_first :
    (rs : List MountedApexData)
    → (ms : List MountedApexData) × ((of_kind false (mark_first rs) ≡ of_kind false (mark_rest ms))
        ⊎ ((m : MountedApexData) × (of_kind false (mark_first rs)
              ≡ (m, true) ∷ of_kind false (mark_rest ms))
            × (latest_of none (of_kind false (mark_first rs)) ≡ some m)))
unfolding of_kind latest_of
of_kind-mark_first [] = ([], inl refl)
of_kind-mark_first (m ∷ ms) = elim (Bool-cases m.is_temp_mount) [
  | inl temporary ↦ (ms, inl (ground arith))
  | inr stays ↦ (ms, inr (m, ground arith, ground (arith, stays, latest_of-rest (some m) false ms)))
]

-- What a handler is called on: at most the first call is marked as the latest, and that one is the
-- latest mount of the package.
pub mounted_apexes_of-cases :
    (db : MountedApexDatabase) (pkg : String)
    → (ms : List MountedApexData) × ((mounted_apexes_of db pkg false ≡ of_kind false (mark_rest ms))
        ⊎ ((m : MountedApexData) × (mounted_apexes_of db pkg false
              ≡ (m, true) ∷ of_kind false (mark_rest ms))
            × (get_latest_mounted_apex db pkg ≡ some m)))
unfolding get_latest_mounted_apex mounted_apexes_of latest_first
mounted_apexes_of-cases db pkg = elim (Option-cases (find db.mounted_apexes pkg)) [
  | inl missing ↦ ([], inl (rw (missing, mounted_apexes_of) (unfold of_kind in refl)))
  | inr (ms, found) ↦
      rw (found, get_latest_mounted_apex, mounted_apexes_of) (of_kind-mark_first (reverse ms))
]

-- Where the mounts of every package stand in the order of their versions, the latest mount of a
-- package has the highest version of all its mounts, and is not temporary.
pub get_latest_mounted_apex-highest :
    (db : MountedApexDatabase) (pkg : String) (l : MountedApexData)
    → AllSorted db
    → get_latest_mounted_apex db pkg ≡ some l
    → All (λ (m : MountedApexData). m.version ≤ℤ l.version) (mounts_of (find db.mounted_apexes pkg))
      × (l.is_temp_mount ≡ false)
get_latest_mounted_apex-highest db pkg l h e =
    let seen = sym (get_latest_mounted_apex-visible db pkg) ∙ e in
    let ms = mounts_of (find db.mounted_apexes pkg) in
    let last : last_mount ms ≡ some l = ground arith in
    (
      last_mount-highest ms l last
          (VersionSorted-mounts_of (find db.mounted_apexes pkg) (h.at pkg)),
      ground arith,
    )
