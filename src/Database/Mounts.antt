-- ===== src/Database/Mounts.antt =====
-- The operations of `MountedApexDatabase`.
use mathlib.Core.List.{reverse}
use system_apex.Base.{
  String, Bool, true, false, not, ◌&&◌, Option, none, some, List, [], ◌∷◌, ◌++◌, Dict, find, assign,
  Result, ok, abort, ◌==◌, if◌then◌else◌, contains,
}
use system_apex.Database.{MountedApexData, MountedApexDatabase, insert_mount}

-- `CHECK(devices.insert(name).second)`, for a name that is not empty.
unfoldable pub insert_device : String → List String → Option (List String)
insert_device name seen =
    if name == "" then some seen else if contains seen name then none else some (name ∷ seen)

-- The loop over one set: the loop devices and the device-mapper devices seen so far, or `none`.
unfoldable pub check_mounts :
    List MountedApexData → List String → List String → Option (List String × List String)
check_mounts [] loops dms = some (loops, dms)
check_mounts (m ∷ ms) loops dms = elim (insert_device m.loop_name loops) [
  | none ↦ none
  | some loops' ↦ elim (insert_device m.device_name dms) [
    | none ↦ none
    | some dms' ↦ elim (insert_device m.hashtree_loop_name loops') [
      | none ↦ none
      | some loops'' ↦ check_mounts ms loops'' dms'
    ]
  ]
]

unfoldable pub check_all : Dict (List MountedApexData) → List String → List String → Bool
check_all [] loops dms = true
check_all ((pkg, ms) ∷ rest) loops dms = elim (check_mounts ms loops dms) [
  | none ↦ false
  | some (loops', dms') ↦ check_all rest loops' dms'
]

-- `CheckUniqueLoopDm`.
unfoldable pub check_unique_loop_dm : MountedApexDatabase → Bool
check_unique_loop_dm db = check_all db.mounted_apexes [] []

abbrev pub mounts_of : Option (List MountedApexData) → List MountedApexData
mounts_of none = []
mounts_of (some ms) = ms

unfoldable pub add_mounted_apex :
    MountedApexDatabase → String → MountedApexData → Result MountedApexDatabase
add_mounted_apex db pkg m = elim (insert_mount m (mounts_of (find db.mounted_apexes pkg))) [
  | none ↦ abort
  | some ms ↦
      let db' = record db { mounted_apexes = assign db.mounted_apexes pkg ms } in
      if check_unique_loop_dm db' then ok db' else abort
]

abbrev pub same_flag : Bool → Bool → Bool
same_flag true b = b
same_flag false b = not b

-- The first element that matches goes.
unfoldable pub remove_mount : String → Bool → List MountedApexData → List MountedApexData
remove_mount full_path temp [] = []
remove_mount full_path temp (m ∷ ms) =
    let rest = remove_mount full_path temp ms in
    if m.full_path == full_path && same_flag m.is_temp_mount temp then ms else m ∷ rest

unfoldable pub remove_mounted_apex :
    MountedApexDatabase → String → String → Bool → MountedApexDatabase
remove_mounted_apex db pkg full_path match_temp_mounts = elim (find db.mounted_apexes pkg) [
  | none ↦ db
  | some ms ↦ record db {
    mounted_apexes = assign db.mounted_apexes pkg (remove_mount full_path match_temp_mounts ms);
  }
]

abbrev pub mark_rest : List MountedApexData → List (MountedApexData × Bool)
mark_rest [] = []
mark_rest (m ∷ ms) = (m, false) ∷ mark_rest ms

abbrev pub mark_first : List MountedApexData → List (MountedApexData × Bool)
mark_first [] = []
mark_first (m ∷ ms) = (m, true) ∷ mark_rest ms

abbrev pub with_package :
    String → List (MountedApexData × Bool) → List (String × MountedApexData × Bool)
with_package pkg [] = []
with_package pkg ((m, latest) ∷ ms) = (pkg, m, latest) ∷ with_package pkg ms

-- Each element, last first, with whether it is the last one of the whole set.
unfoldable pub latest_first : List MountedApexData → List (MountedApexData × Bool)
latest_first ms = mark_first (reverse ms)

unfoldable pub of_kind : Bool → List (MountedApexData × Bool) → List (MountedApexData × Bool)
of_kind temp [] = []
of_kind temp ((m, latest) ∷ ms) =
    let rest = of_kind temp ms in
    if same_flag m.is_temp_mount temp then (m, latest) ∷ rest else rest

-- What `ForallMountedApexes` of a pkg hands to its handler, in order.
unfoldable pub mounted_apexes_of :
    MountedApexDatabase → String → Bool → List (MountedApexData × Bool)
mounted_apexes_of db pkg match_temp_mounts = elim (find db.mounted_apexes pkg) [
  | none ↦ []
  | some ms ↦ of_kind match_temp_mounts (latest_first ms)
]

-- The same over all packages.
unfoldable pub all_mounted :
    Dict (List MountedApexData) → Bool → List (String × MountedApexData × Bool)
all_mounted [] temp = []
all_mounted ((pkg, ms) ∷ rest) temp =
    with_package pkg (of_kind temp (latest_first ms)) ++ all_mounted rest temp

-- The last element, if the handler is called on it: the loop stores each element marked as latest.
unfoldable pub latest_of :
    Option MountedApexData → List (MountedApexData × Bool) → Option MountedApexData
latest_of ret [] = ret
latest_of ret ((m, latest) ∷ rest) = latest_of (if latest then some m else ret) rest

unfoldable pub get_latest_mounted_apex : MountedApexDatabase → String → Option MountedApexData
get_latest_mounted_apex db pkg = latest_of none (mounted_apexes_of db pkg false)

-- The last element of a set.
unfoldable pub last_mount : List MountedApexData → Option MountedApexData
last_mount [] = none
last_mount (m ∷ []) = some m
last_mount (m ∷ n ∷ ms) = last_mount (n ∷ ms)

-- `DoIfLatest`, for a handler on a state; the pkg must have a mount.
unfoldable pub do_if_latest {ℓ} :
    {S : Type ℓ}
    → MountedApexDatabase
    → String
    → String
    → (S → Result (Unit {0}) × S)
    → S
    → Result (Unit {0}) × S
do_if_latest db pkg full_path handler s = elim (find db.mounted_apexes pkg) [
  | none ↦ (abort, s)
  | some ms ↦ elim (last_mount ms) [
    | none ↦ (abort, s)
    | some latest ↦ if latest.full_path == full_path then handler s else (ok tt, s)
  ]
]
