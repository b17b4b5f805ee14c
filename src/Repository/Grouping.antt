-- ===== src/Repository/Grouping.antt =====
-- `AllApexFilesByName`: each name with its pre-installed and its data APEX, in this order.
use system_apex.Base.{
  String, ◌≡◌, refl, ◌∙◌, ap, Option, none, some, List, [], ◌∷◌, ◌++◌, find, assign, find-assign,
  eq_iff, arith, ◌==◌, Dict, keep_if, Bool-cases, inl, inr,
}
use mathlib.Core.List.{append_assoc}
use system_apex.ApexFile.{ApexFile}
use system_apex.Repository.{ApexFileRepository}
use system_apex.Repository.Keyed.{Keyed, StoresKeyed}
use system_apex.Repository.Queries.{
  values, group_by_name, with_file, all_apex_files_by_name, get_pre_installed_apex_files,
  get_data_apex_files,
}

-- The files of one name, in their order.
abbrev pub named : String → List ApexFile → List ApexFile
named n xs = keep_if (λ a. a.name == n) xs

pub named-append :
    (n : String) (xs ys : List ApexFile) → named n (xs ++ ys) ≡ named n xs ++ named n ys
named-append n [] ys = refl
named-append n (x ∷ xs) ys = ground (arith, named-append n xs ys)

abbrev group : Option (List ApexFile) → List ApexFile → Option (List ApexFile)
group o [] = o
group none (x ∷ xs) = some (x ∷ xs)
group (some ys) (x ∷ xs) = some (ys ++ x ∷ xs)

group_step :
    (o : Option (List ApexFile)) (x : ApexFile) (xs : List ApexFile)
    → group (some (with_file o x)) xs ≡ group o (x ∷ xs)
group_step none x [] = refl
group_step none x (y ∷ ys) = refl
group_step (some zs) x [] = refl
group_step (some zs) x (y ∷ ys) = ap some (append_assoc zs (x ∷ []) (y ∷ ys))

find-group_by_name :
    (m : Dict (List ApexFile)) (xs : List ApexFile) (n : String)
    → find (group_by_name m xs) n ≡ group (find m n) (named n xs)
unfolding group_by_name
find-group_by_name m [] n = refl
find-group_by_name m (x ∷ xs) n =
    find-group_by_name (assign m x.name (with_file (find m x.name) x)) xs n
    ∙ rw find-assign (elim (Bool-cases (x.name == n)) [
      | inl same ↦ rw same (
          group_step (find m x.name) x (named n xs)
          ∙ ap (λ k. group (find m k) (x ∷ named n xs)) ((eq_iff x.name n).0 same))
      | inr other ↦ rw other
    ])

-- What a store holds of a name.
abbrev pub stored : Option ApexFile → List ApexFile
stored none = []
stored (some a) = a ∷ []

named-values : (m : Dict ApexFile) (n : String) → Keyed m → named n (values m) ≡ stored (find m n)
unfolding values find
named-values [] n h = refl
named-values ((k, v) ∷ m) n h = ground (arith, named-values m n, eq_iff v.name n, eq_iff k n)

-- The files of a name: the pre-installed one, then the one on data.
abbrev pub files_of : Option ApexFile → Option ApexFile → Option (List ApexFile)
files_of none none = none
files_of (some p) none = some (p ∷ [])
files_of none (some d) = some (d ∷ [])
files_of (some p) (some d) = some (p ∷ d ∷ [])

-- Where the stores map each name once to a package of that name, every name is grouped with
-- exactly what the two stores hold under it, the pre-installed one first.
pub find-all_apex_files_by_name :
    (r : ApexFileRepository) (n : String)
    → StoresKeyed r
    → find (all_apex_files_by_name r) n
      ≡ files_of (find r.pre_installed_store n) (find r.data_store n)
unfolding all_apex_files_by_name get_pre_installed_apex_files get_data_apex_files find
find-all_apex_files_by_name r n h =
    find-group_by_name [] (values r.pre_installed_store ++ values r.data_store) n
    ∙ rw
        (
          named-append n (values r.pre_installed_store) (values r.data_store),
          named-values r.pre_installed_store n h.pre,
          named-values r.data_store n h.data_apexes,
        )
        (both (find r.pre_installed_store n) (find r.data_store n))
  where
    both : (p d : Option ApexFile) → group none (stored p ++ stored d) ≡ files_of p d
    both none none = refl
    both none (some d) = refl
    both (some p) none = refl
    both (some p) (some d) = refl
