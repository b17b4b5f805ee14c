-- ===== src/Activation/Select.antt =====
-- `SelectApexForActivation` of apexd/apexd.cpp.
use system_apex.Base.{
  String, Bool, true, false, not, ◌&&◌, ◌||◌, List, [], ◌∷◌, ◌++◌, Dict, ℤ, to_int, ltb_ℤ, leb_ℤ,
  int_eq, Result, ok, abort, ◌>>=◌, if◌then◌else◌,
}
use system_apex.ApexFile.{ApexFile}
use system_apex.Repository.{ApexFileRepository}
use system_apex.Repository.Queries.{has_pre_installed_version, is_pre_installed_apex}

-- The lambda `select_apex`: whether to activate `a`, given the version of the other APEX as an `int`.
unfoldable pub select_apex : ApexFileRepository → ApexFile → ℤ → Bool
select_apex r a version_b =
    let higher_version = ltb_ℤ version_b a.version in
    let same_version_priority_to_data =
      int_eq a.version version_b && not (is_pre_installed_apex r a) in
    if a.manifest.provide_shared_apex_libs
    then (is_pre_installed_apex r a && not (int_eq a.version version_b))
      || (not (is_pre_installed_apex r a) && leb_ℤ version_b a.version)
    else higher_version || same_version_priority_to_data

abbrev pub listed_if : Bool → ApexFile → List ApexFile
listed_if true a = a ∷ []
listed_if false a = []

-- The two calls of `select_apex`. Each version is narrowed to an `int` first.
unfoldable pub select_between : ApexFileRepository → ApexFile → ApexFile → List ApexFile
select_between r a b =
    let version_0 = to_int a.version in
    let version_1 = to_int b.version in
    listed_if (select_apex r a version_1) a ++ listed_if (select_apex r b version_0) b

-- The body of the loop, for the files of one package. No file, or more than two, is fatal.
unfoldable pub select_group : ApexFileRepository → String → List ApexFile → Result (List ApexFile)
select_group r name [] = abort
select_group r name (a ∷ []) = ok (if has_pre_installed_version r name then a ∷ [] else [])
select_group r name (a ∷ b ∷ []) =
    ok (if has_pre_installed_version r name then select_between r a b else [])
select_group r name (a ∷ b ∷ c ∷ rest) = abort

unfoldable pub select_apex_for_activation :
    Dict (List ApexFile) → ApexFileRepository → Result (List ApexFile)
select_apex_for_activation [] r = ok []
select_apex_for_activation ((name, files) ∷ all_apex) r = do
  selected ← select_group r name files
  rest ← select_apex_for_activation all_apex r
  ok (selected ++ rest)
