-- ===== src/Activation/Chosen.antt =====
-- What `SelectApexForActivation` chooses, for each package.
use system_apex.Base.{
  ℕ, ◌≤◌, ◌^◌, String, ◌≡◌, refl, sym, ◌∙◌, ap, true, false, Option, none, some, List, [], ◌∷◌,
  ◌++◌, find, arith, if◌then◌else◌, Bool-cases, inl, inr, pos, to_int, to_int_id, FitsInt, ltb_ℤ,
  ◌<ℤ◌, ok, is_ok,
}
use system_apex.ApexFile.{ApexFile}
use system_apex.Repository.{ApexFileRepository}
use system_apex.Repository.Keyed.{StoresKeyed}
use system_apex.Repository.Queries.{
  has_pre_installed_version, is_pre_installed_apex, all_apex_files_by_name,
  get_pre_installed_apex_files, get_data_apex_files,
}
use system_apex.Repository.Grouping.{named, files_of, find-all_apex_files_by_name}
use system_apex.Activation.Groups.{
  Grouped, Grouped-group_by_name, named-select, select-ok, selected_of, Shaped-files_of,
}
use system_apex.Activation.Select.{
  select_apex, select_between, select_group, select_apex_for_activation,
}

-- A pre-installed APEX `p` and a data APEX `d` of one package, as the repository tells them apart.
pub record Pair (r : ApexFileRepository) (p d : ApexFile) : Type 0 where
  pub pre : is_pre_installed_apex r p ≡ true
  pub on_data : is_pre_installed_apex r d ≡ false
  pub p_fits : FitsInt p.version
  pub d_fits : FitsInt d.version

-- The rule of the documentation: the higher version, and of equal versions the one on data.
abbrev pub higher_or_data : ApexFile → ApexFile → List ApexFile
higher_or_data p d = if ltb_ℤ d.version p.version then p ∷ [] else d ∷ []

-- For shared libraries: both where the data version is higher; else the higher one, or the one on data.
abbrev pub shared_libs_rule : ApexFile → ApexFile → List ApexFile
shared_libs_rule p d =
    if ltb_ℤ p.version d.version
    then p ∷ d ∷ []
    else if ltb_ℤ d.version p.version
    then p ∷ []
    else d ∷ []

module _ (r : ApexFileRepository) (p d : ApexFile) (pair : Pair r p d) where
  select_between-plain :
      p.manifest.provide_shared_apex_libs ≡ false
      → d.manifest.provide_shared_apex_libs ≡ false
      → select_between r p d ≡ higher_or_data p d
  unfolding select_between select_apex
  select_between-plain hp hd =
      ground (arith, to_int_id p.version pair.p_fits, to_int_id d.version pair.d_fits)

  select_between-shared :
      p.manifest.provide_shared_apex_libs ≡ true
      → d.manifest.provide_shared_apex_libs ≡ true
      → select_between r p d ≡ shared_libs_rule p d
  unfolding select_between select_apex
  select_between-shared hp hd =
      ground (arith, to_int_id p.version pair.p_fits, to_int_id d.version pair.d_fits)

Grouped-all_apex_files_by_name : (r : ApexFileRepository) → Grouped (all_apex_files_by_name r)
unfolding all_apex_files_by_name
Grouped-all_apex_files_by_name r =
    Grouped-group_by_name [] (get_pre_installed_apex_files r ++ get_data_apex_files r) tt

-- On the files of a repository whose stores map each name once to a package of that name, the
-- selection never meets the fatal case.
pub select_apex_for_activation-total :
    (r : ApexFileRepository)
    → StoresKeyed r
    → is_ok (select_apex_for_activation (all_apex_files_by_name r) r) ≡ true
select_apex_for_activation-total r h =
    select-ok r (all_apex_files_by_name r) (Grouped-all_apex_files_by_name r) (λ n.
      rw (find-all_apex_files_by_name r n h)
        (Shaped-files_of (find r.pre_installed_store n) (find r.data_store n)))

-- What is chosen of a name, from what the two stores hold under it: nothing without a pre-installed
-- APEX, the pre-installed one if it is alone, and else what `select_apex` says of the two.
abbrev pub choice : ApexFileRepository → Option ApexFile → Option ApexFile → List ApexFile
choice r none d = []
choice r (some p) none = p ∷ []
choice r (some p) (some d) = select_between r p d

selected_of-choice :
    (r : ApexFileRepository) (n : String) (p d : Option ApexFile)
    → find r.pre_installed_store n ≡ p
    → selected_of r n (files_of p d) ≡ choice r p d
unfolding select_group has_pre_installed_version
selected_of-choice r n none none e = refl
selected_of-choice r n none (some d) e = rw e
selected_of-choice r n (some p) none e = rw e
selected_of-choice r n (some p) (some d) e = rw e

-- On a repository whose stores map each name once to a package of that name, the activation list,
-- once it is made, holds of every package name exactly the choice between its pre-installed and
-- its data APEX: none if the package is not pre-installed, the only one, or the selected of the
-- two.
pub select_apex_for_activation-named :
    (r : ApexFileRepository) (n : String) (l : List ApexFile)
    → StoresKeyed r
    → select_apex_for_activation (all_apex_files_by_name r) r ≡ ok l
    → named n l ≡ choice r (find r.pre_installed_store n) (find r.data_store n)
select_apex_for_activation-named r n l h e =
    named-select r (all_apex_files_by_name r) n l (Grouped-all_apex_files_by_name r) e
    ∙ ap (selected_of r n) (find-all_apex_files_by_name r n h)
    ∙ selected_of-choice r n (find r.pre_installed_store n) (find r.data_store n) refl

-- Between a pre-installed and a data APEX whose versions fit an `int` and which agree on providing
-- shared libraries: without shared libraries the higher version is chosen, and of equal versions
-- the one on data; with shared libraries both are chosen if the data version is higher, else the
-- pre-installed one if its version is higher, else the one on data.
pub select_between-rule :
    (r : ApexFileRepository) (p d : ApexFile)
    → Pair r p d
    → p.manifest.provide_shared_apex_libs ≡ d.manifest.provide_shared_apex_libs
    → select_between r p d
      ≡ (if p.manifest.provide_shared_apex_libs then shared_libs_rule p d else higher_or_data p d)
select_between-rule r p d pair same = elim (Bool-cases p.manifest.provide_shared_apex_libs) [
  | inl shared ↦ select_between-shared r p d pair shared (sym same ∙ shared) ∙ ground arith
  | inr plain ↦ select_between-plain r p d pair plain (sym same ∙ plain) ∙ ground arith
]

to_int-lt : (v : ℕ) → 2 ^ 31 ≤ v → to_int (pos v) <ℤ pos v
unfolding to_int
to_int-lt v h = ground arith

-- A version of 2 ^ 31 or more does not survive the narrowing to `int`: of two APEXes of one such
-- version, without shared libraries, both are put on the activation list.
pub select_between-narrowed :
    (r : ApexFileRepository) (p d : ApexFile) (v : ℕ)
    → 2 ^ 31 ≤ v
    → p.version ≡ pos v
    → d.version ≡ pos v
    → p.manifest.provide_shared_apex_libs ≡ false
    → d.manifest.provide_shared_apex_libs ≡ false
    → select_between r p d ≡ p ∷ d ∷ []
unfolding select_between select_apex
select_between-narrowed r p d v big pv dv hp hd = ground (arith, to_int-lt v)
