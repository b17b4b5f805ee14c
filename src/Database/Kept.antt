-- ===== src/Database/Kept.antt =====
-- apexd/apex_database.h: a mount that is added is there, beside those that were.
use mathlib.Core.List.{reverse, reverse_aux}
use system_apex.Base.{
  String, ◌≡◌, refl, sym, ◌∙◌, subst, ap, ◌⊎◌, inl, inr, Bool, false, some, List, [], ◌∷◌, arith,
  find, assign, find-assign, ok, Member, Option-cases, Bool-cases, ◌==◌, eq_iff,
}
use system_apex.Database.{MountedApexData, MountedApexDatabase, insert_mount}
use system_apex.Database.Mounts.{
  add_mounted_apex, mounts_of, mark_rest, mark_first, latest_first, of_kind, mounted_apexes_of,
}
use system_apex.Database.Order.{insert_mount-cases}

insert_mount-new :
    (m : MountedApexData) (xs ys : List MountedApexData) → insert_mount m xs ≡ some ys → Member m ys
insert_mount-new m [] ys e =
    let alone : ys ≡ m ∷ [] = unfold insert_mount in ground arith in rw alone (inl refl)
insert_mount-new m (x ∷ xs) ys e = elim (insert_mount-cases m x xs ys e) [
  | inl (_, front) ↦ rw front (inl refl)
  | inr (zs, _, put, more) ↦ rw more (inr (insert_mount-new m xs zs put))
]

insert_mount-old :
    (m n : MountedApexData) (xs ys : List MountedApexData)
    → insert_mount m xs ≡ some ys
    → Member n xs
    → Member n ys
insert_mount-old m n [] ys e h = absurd h
insert_mount-old m n (x ∷ xs) ys e h = elim (insert_mount-cases m x xs ys e) [
  | inl (_, front) ↦ rw front (inr h)
  | inr (zs, _, put, more) ↦
      rw more
        (elim h [ inl here ↦ inl here | inr there ↦ inr (insert_mount-old m n xs zs put there) ])
]

-- The mount is one of those of the package.
abbrev pub Has : String → MountedApexData → MountedApexDatabase → Type 0
Has name m db = Member m (mounts_of (find db.mounted_apexes name))

-- The set that an insertion makes takes the place of the set of that package only.
added_set :
    (db db' : MountedApexDatabase) (pkg : String) (m : MountedApexData)
    → add_mounted_apex db pkg m ≡ ok db'
    → (new : List MountedApexData) × (insert_mount m (mounts_of (find db.mounted_apexes pkg))
        ≡ some new)
      × (db'.mounted_apexes ≡ assign db.mounted_apexes pkg new)
unfolding add_mounted_apex
added_set db db' pkg m e =
    elim (Option-cases (insert_mount m (mounts_of (find db.mounted_apexes pkg)))) [
      | inl full ↦ absurd (ground arith)
      | inr (new, put) ↦ (new, put, ground arith)
    ]

pub add_mounted_apex-new :
    (db db' : MountedApexDatabase) (pkg : String) (m : MountedApexData)
    → add_mounted_apex db pkg m ≡ ok db'
    → Has pkg m db'
add_mounted_apex-new db db' pkg m e =
    let set = added_set db db' pkg m e in
    let found : find db'.mounted_apexes pkg ≡ some set.0 =
      ap (λ d. find d pkg) set.2
      ∙ find-assign db.mounted_apexes pkg pkg set.0
      ∙ grind (arith, eq_iff pkg pkg) in
    let put : Member m set.0 = insert_mount-new m _ set.0 set.1 in
    subst (λ o. Member m (mounts_of o)) (sym found) put

pub add_mounted_apex-old :
    (name : String) (n : MountedApexData) (db db' : MountedApexDatabase) (pkg : String)
    (m : MountedApexData)
    → add_mounted_apex db pkg m ≡ ok db'
    → Has name n db
    → Has name n db'
add_mounted_apex-old name n db db' pkg m e h =
    let set = added_set db db' pkg m e in
    elim (Bool-cases (pkg == name)) [
      | inl same ↦
          let equal : pkg ≡ name = (eq_iff pkg name).0 same in
          let found : find db'.mounted_apexes name ≡ some set.0 =
            ap (λ d. find d name) set.2
            ∙ find-assign db.mounted_apexes pkg name set.0
            ∙ rw same refl in
          subst (λ o. Member n (mounts_of o)) (sym found)
            (insert_mount-old m n _ set.0 set.1 (subst (λ k. Has k n db) (sym equal) h))
      | inr other ↦
          let kept : find db'.mounted_apexes name ≡ find db.mounted_apexes name =
            ap (λ d. find d name) set.2
            ∙ find-assign db.mounted_apexes pkg name set.0
            ∙ rw other refl in
          rw kept h
    ]

Member-reverse_aux :
    (m : MountedApexData) (xs ys : List MountedApexData)
    → Member m (reverse_aux xs ys)
    → Member m xs ⊎ Member m ys
Member-reverse_aux m [] ys h = inr h
Member-reverse_aux m (x ∷ xs) ys h = elim (Member-reverse_aux m xs (x ∷ ys) h) [
  | inl later ↦ inl (inr later)
  | inr (inl here) ↦ inl (inl here)
  | inr (inr before) ↦ inr before
]

-- An entry of what a handler is called on.
abbrev pub Among : MountedApexData → List (MountedApexData × Bool) → Type 0
Among m [] = ⊥
Among m ((n, latest) ∷ rest) = (m ≡ n) ⊎ Among m rest

Among-of_kind :
    (m : MountedApexData) (pairs : List (MountedApexData × Bool))
    → Among m (of_kind false pairs)
    → Among m pairs × (m.is_temp_mount ≡ false)
unfolding of_kind
Among-of_kind m [] h = absurd h
Among-of_kind m ((n, latest) ∷ rest) h = elim (Bool-cases n.is_temp_mount) [
  | inr plain ↦
      let entry : Among m ((n, latest) ∷ of_kind false rest) = ground (arith, h) in
      elim entry [
        | inl here ↦ (inl here, ap (λ x. x.is_temp_mount) here ∙ plain)
        | inr there ↦ let later = Among-of_kind m rest there in (inr later.0, later.1)
      ]
  | inl temp ↦ let later = Among-of_kind m rest (ground (arith, h)) in (inr later.0, later.1)
]

Among-mark_rest :
    (m : MountedApexData) (xs : List MountedApexData) → Among m (mark_rest xs) → Member m xs
Among-mark_rest m [] h = absurd h
Among-mark_rest m (x ∷ xs) (inl here) = inl here
Among-mark_rest m (x ∷ xs) (inr there) = inr (Among-mark_rest m xs there)

Among-mark_first :
    (m : MountedApexData) (xs : List MountedApexData) → Among m (mark_first xs) → Member m xs
Among-mark_first m [] h = absurd h
Among-mark_first m (x ∷ xs) (inl here) = inl here
Among-mark_first m (x ∷ xs) (inr there) = inr (Among-mark_rest m xs there)

Member-reverse :
    (m : MountedApexData) (xs : List MountedApexData) → Member m (reverse xs) → Member m xs
Member-reverse m xs h = elim (Member-reverse_aux m xs [] h) [
  | inl found ↦ found
  | inr none_left ↦ absurd none_left
]

-- What `ForallMountedApexes` of a package hands out is mounted, and not temporary.
pub Among-Has :
    (db : MountedApexDatabase) (name : String) (m : MountedApexData)
    → Among m (mounted_apexes_of db name false)
    → Has name m db × (m.is_temp_mount ≡ false)
unfolding mounted_apexes_of latest_first
Among-Has db name m h = elim (Option-cases (find db.mounted_apexes name)) [
  | inl missing ↦ absurd (ground (arith, h))
  | inr (ms, found) ↦
      let entry : Among m (of_kind false (mark_first (reverse ms))) = ground (arith, h) in
      let kept = Among-of_kind m _ entry in
      (rw found (Member-reverse m ms (Among-mark_first m (reverse ms) kept.0)), kept.1)
]
