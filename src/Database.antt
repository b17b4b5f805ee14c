-- ===== src/Database.antt =====
-- apexd/apex_database.{h,cpp}: the mounted APEXes. The mutex is not modelled: each operation is one
-- step on the database.
pub mod Mounts
pub mod Sysfs
pub mod Order
pub mod Latest
pub mod TempMounts
pub mod Slaves
pub mod Kept
use Prim.Native.Nat.{Ordering}
use Prim.Native.String.{compare}
use system_apex.Base.{
  ℕ, ℤ, String, Bool, true, false, not, Option, none, some, List, [], ◌∷◌, Dict, ltb_ℤ, int_eq,
  if◌then◌else◌,
}

pub record MountedApexData : Type 0 where
  -- an `int`
  pub version : ℤ
  pub loop_name : String
  pub full_path : String
  pub mount_point : String
  pub device_name : String
  pub hashtree_loop_name : String
  pub deleted : Bool
  pub is_temp_mount : Bool

-- What is mounted of each package. A `std::set` is the list of its elements in its order.
pub record MountedApexDatabase : Type 0 where
  pub mounted_apexes : Dict (List MountedApexData)

-- `a.compare(b)`: below 0, above 0, or go on.
abbrev pub compare_then : Ordering → Bool → Bool
compare_then Ordering.lt rest = true
compare_then Ordering.gt rest = false
compare_then Ordering.eq rest = rest

abbrev pub is_lt : Ordering → Bool
is_lt Ordering.lt = true
is_lt _ = false

-- `operator<`. The two flags do not count.
unfoldable pub less : MountedApexData → MountedApexData → Bool
less a b =
    if not (int_eq a.version b.version)
    then ltb_ℤ a.version b.version
    else compare_then (compare a.loop_name b.loop_name) (
        compare_then (compare a.full_path b.full_path) (
          compare_then (compare a.mount_point b.mount_point) (
            compare_then (compare a.device_name b.device_name)
              (is_lt (compare a.hashtree_loop_name b.hashtree_loop_name)))))

-- `set.emplace`; `none` where an equivalent element is there.
unfoldable pub insert_mount : MountedApexData → List MountedApexData → Option (List MountedApexData)
insert_mount m [] = some (m ∷ [])
insert_mount m (x ∷ xs) =
    let rest = insert_mount m xs in
    if less m x
    then some (m ∷ x ∷ xs)
    else if less x m
    then (elim rest [ none ↦ none | some ys ↦ some (x ∷ ys) ])
    else none
