-- ===== src/Database/Order.antt =====
-- The order of the mounts of a package: the last one has the highest version.
use mathlib.Core.Path.{subst}
use system_apex.Base.{
  String, ◌≡◌, refl, ◌⊎◌, inl, inr, Bool, true, Option, none, some, List, [], ◌∷◌, arith, ◌≤ℤ◌, All,
  Bool-cases, Option-cases, find, assign, find-assign, ◌==◌, ok,
}
use system_apex.Database.{MountedApexData, MountedApexDatabase, less, insert_mount}
use system_apex.Database.Mounts.{
  remove_mount, add_mounted_apex, remove_mounted_apex, mounts_of, last_mount,
}

less-version : (a b : MountedApexData) → less a b ≡ true → a.version ≤ℤ b.version
unfolding less
less-version a b h = ground arith

abbrev pub AtLeastVersion : MountedApexData → List MountedApexData → Type 0
AtLeastVersion x xs = All (λ (y : MountedApexData). x.version ≤ℤ y.version) xs

abbrev pub VersionSorted : List MountedApexData → Type 0
VersionSorted [] = Unit
VersionSorted (x ∷ xs) = AtLeastVersion x xs × VersionSorted xs

AtLeastVersion-trans :
    (a b : MountedApexData) (xs : List MountedApexData)
    → a.version ≤ℤ b.version
    → AtLeastVersion b xs
    → AtLeastVersion a xs
AtLeastVersion-trans a b [] h k = tt
AtLeastVersion-trans a b (x ∷ xs) h k =
    let first : b.version ≤ℤ x.version = k.0 in (omega arith, AtLeastVersion-trans a b xs h k.1)

-- A successful insertion: in front of the first greater element, or further on.
pub insert_mount-cases :
    (m x : MountedApexData) (xs ys : List MountedApexData)
    → insert_mount m (x ∷ xs) ≡ some ys
    → ((less m x ≡ true) × (ys ≡ m ∷ x ∷ xs))
      ⊎ ((zs : List MountedApexData) × (less x m ≡ true)
          × (insert_mount m xs ≡ some zs)
          × (ys ≡ x ∷ zs))
unfolding insert_mount
insert_mount-cases m x xs ys h = elim (Option-cases (insert_mount m xs)) [
  | inl full ↦ inl (ground arith, ground arith)
  | inr (zs, put) ↦ elim (Bool-cases (less m x)) [
    | inl before ↦ inl (before, ground arith)
    | inr after ↦ inr (zs, ground arith, put, ground arith)
  ]
]

AtLeastVersion-insert :
    (a m : MountedApexData) (xs ys : List MountedApexData)
    → insert_mount m xs ≡ some ys
    → a.version ≤ℤ m.version
    → AtLeastVersion a xs
    → AtLeastVersion a ys
AtLeastVersion-insert a m [] ys e h k =
    let alone : ys ≡ m ∷ [] = unfold insert_mount in ground arith in rw alone (h, tt)
AtLeastVersion-insert a m (x ∷ xs) ys e h k = elim (insert_mount-cases m x xs ys e) [
  | inl (_, front) ↦ rw front (h, k)
  | inr (zs, _, put, more) ↦ rw more (k.0, AtLeastVersion-insert a m xs zs put h k.1)
]

pub VersionSorted-insert :
    (m : MountedApexData) (xs ys : List MountedApexData)
    → insert_mount m xs ≡ some ys
    → VersionSorted xs
    → VersionSorted ys
VersionSorted-insert m [] ys e h =
    let alone : ys ≡ m ∷ [] = unfold insert_mount in ground arith in rw alone (tt, tt)
VersionSorted-insert m (x ∷ xs) ys e h = elim (insert_mount-cases m x xs ys e) [
  | inl (before, front) ↦
      rw front
        ((less-version m x before, AtLeastVersion-trans m x xs (less-version m x before) h.0), h)
  | inr (zs, after, put, more) ↦ rw more (
    AtLeastVersion-insert x m xs zs put (less-version x m after) h.0,
    VersionSorted-insert m xs zs put h.1,
  )
]

AtLeastVersion-remove :
    (a : MountedApexData) (path : String) (temp : Bool) (xs : List MountedApexData)
    → AtLeastVersion a xs
    → AtLeastVersion a (remove_mount path temp xs)
unfolding remove_mount
AtLeastVersion-remove a path temp [] h = tt
AtLeastVersion-remove a path temp (x ∷ xs) h =
    ground (arith, AtLeastVersion-remove a path temp xs h.1)

pub VersionSorted-remove :
    (path : String) (temp : Bool) (xs : List MountedApexData)
    → VersionSorted xs
    → VersionSorted (remove_mount path temp xs)
unfolding remove_mount
VersionSorted-remove path temp [] h = tt
VersionSorted-remove path temp (x ∷ xs) h =
    ground (arith, VersionSorted-remove path temp xs h.1, AtLeastVersion-remove x path temp xs h.0)

pub record AllSorted (db : MountedApexDatabase) : Type 0 where
  pub at :
      (pkg : String) (ms : List MountedApexData)
      → find db.mounted_apexes pkg ≡ some ms
      → VersionSorted ms

pub VersionSorted-mounts_of :
    (o : Option (List MountedApexData))
    → ((ms : List MountedApexData) → o ≡ some ms → VersionSorted ms)
    → VersionSorted (mounts_of o)
VersionSorted-mounts_of none h = tt
VersionSorted-mounts_of (some ms) h = h ms refl

AllSorted-assign :
    (db : MountedApexDatabase) (pkg : String) (new : List MountedApexData)
    → VersionSorted new
    → AllSorted db
    → AllSorted (record db { mounted_apexes = assign db.mounted_apexes pkg new })
AllSorted-assign db pkg new s h = record {
  at = λ name ms found. elim (Bool-cases (pkg == name)) [
    | inl same ↦
        let e : new ≡ ms = ground (arith, find-assign db.mounted_apexes pkg name new) in
        subst (λ x. VersionSorted x) e s
    | inr other ↦ h.at name ms (ground (arith, find-assign db.mounted_apexes pkg name new))
  ];
}

-- A mount that is added keeps the mounts of every package in the order of their versions.
pub add_mounted_apex-AllSorted :
    (db db' : MountedApexDatabase) (pkg : String) (m : MountedApexData)
    → add_mounted_apex db pkg m ≡ ok db'
    → AllSorted db
    → AllSorted db'
unfolding add_mounted_apex
add_mounted_apex-AllSorted db db' pkg m e h =
    elim (Option-cases (insert_mount m (mounts_of (find db.mounted_apexes pkg)))) [
      | inl full ↦ absurd (ground arith)
      | inr (new, put) ↦
          let after : record db { mounted_apexes = assign db.mounted_apexes pkg new } ≡ db' =
            ground arith in
          subst (λ x. AllSorted x) after
            (AllSorted-assign db pkg new
              (VersionSorted-insert m _ new put
                (VersionSorted-mounts_of (find db.mounted_apexes pkg) (h.at pkg)))
              h)
    ]

-- Removing a mount keeps the mounts of every package in the order of their versions.
pub remove_mounted_apex-AllSorted :
    (db : MountedApexDatabase) (pkg path : String) (temp : Bool)
    → AllSorted db
    → AllSorted (remove_mounted_apex db pkg path temp)
unfolding remove_mounted_apex
remove_mounted_apex-AllSorted db pkg path temp h =
    elim (Option-cases (find db.mounted_apexes pkg)) [
      | inl missing ↦ rw (missing, remove_mounted_apex) h
      | inr (ms, found) ↦
          rw (found, remove_mounted_apex)
            (AllSorted-assign db pkg (remove_mount path temp ms)
              (VersionSorted-remove path temp ms (h.at pkg ms found)) h)
    ]

pub last_mount-highest :
    (ms : List MountedApexData) (l : MountedApexData)
    → last_mount ms ≡ some l
    → VersionSorted ms
    → All (λ (m : MountedApexData). m.version ≤ℤ l.version) ms
unfolding last_mount
last_mount-highest [] l e h = tt
last_mount-highest (m ∷ []) l e h = (ground arith, tt)
last_mount-highest (m ∷ n ∷ ms) l e h =
    let rest = last_mount-highest (n ∷ ms) l e h.1 in
    let near : n.version ≤ℤ l.version = rest.0 in
    let first : m.version ≤ℤ n.version = h.0.0 in (omega arith, rest)
