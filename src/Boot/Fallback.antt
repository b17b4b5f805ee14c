-- ===== src/Boot/Fallback.antt =====
-- apexd/apexd.cpp: the pre-installed packages that stand in for missing ones.
use system_apex.Base.{
  String, ◌≡◌, refl, sym, ◌∙◌, ap, ◌⊎◌, inl, inr, Bool, true, false, not, ◌&&◌, ◌||◌, some, List,
  [], ◌∷◌, Dict, find, find-emplace, emplace, is_some, contains, arith, eq_iff, ok, All, all,
  keep_if, Bool-cases, ◌>>=◌, >>=-eq-ok, ℤ, is_ok, ◌++◌, is_empty,
}
use system_apex.ApexFile.{ApexFile}
use system_apex.Repository.{ApexFileRepository}
use system_apex.Repository.Keyed.{StoresKeyed, Keyed-name}
use system_apex.Repository.Queries.{
  is_pre_installed_apex, get_pre_installed_apex, has_pre_installed_version,
}
use system_apex.Mounting.{MountHost, MountState}
use system_apex.Boot.Lists.{
  get_active_packages, get_active_packages_map, versions_by_name, names_of,
}
use system_apex.Boot.Missing.{
  needs_no_fallback, fallback_apexes, is_not_compressed, decompress_fallbacks,
}
use system_apex.Boot.{BootHost}
use system_apex.Boot.Batch.{ActivationMode, is_ota_chroot_mode}
use system_apex.Daemon.{Apexd}
use system_apex.Daemon.Decompress.{process_compressed_apexes}

versions_by_name-find :
    (ret : Dict ℤ) (apexes : List ApexFile) (name : String)
    → is_some (find (versions_by_name ret apexes) name)
      ≡ (is_some (find ret name) || contains (names_of apexes) name)
unfolding versions_by_name names_of
versions_by_name-find ret [] name = ground arith
versions_by_name-find ret (apex ∷ rest) name =
    versions_by_name-find (emplace ret apex.name apex.version) rest name
    ∙ grind (arith, find-emplace ret apex.name name apex.version, eq_iff apex.name name)

-- A package that is updated, has no shared libraries, and of whose name none is active.
abbrev pub is_missing : MountHost → MountState → ApexFile → Bool
is_missing h s apex =
    not apex.manifest.provide_shared_apex_libs
    && not (is_pre_installed_apex h.repository apex)
    && not (contains (names_of (get_active_packages h s)) apex.name)

needs_no_fallback-is_missing :
    (h : MountHost) (s : MountState) (apex : ApexFile)
    → needs_no_fallback h.repository (get_active_packages_map h s) apex ≡ not (is_missing h s apex)
unfolding needs_no_fallback get_active_packages_map find
needs_no_fallback-is_missing h s apex =
    grind (arith, versions_by_name-find [] (get_active_packages h s) apex.name)

-- What one package adds to the fallbacks.
fallback_apexes-cases :
    (r : ApexFileRepository) (active : Dict ℤ) (apex : ApexFile) (rest fallbacks : List ApexFile)
    → fallback_apexes r active (apex ∷ rest) ≡ ok fallbacks
    → ((needs_no_fallback r active apex ≡ true) × (fallback_apexes r active rest ≡ ok fallbacks))
      ⊎ ((pre : ApexFile) × (later : List ApexFile) × (needs_no_fallback r active apex ≡ false)
          × (find r.pre_installed_store apex.name ≡ some pre)
          × (fallback_apexes r active rest ≡ ok later)
          × (fallbacks ≡ pre ∷ later))
unfolding fallback_apexes get_pre_installed_apex
fallback_apexes-cases r active apex rest fallbacks e =
    elim (Bool-cases (needs_no_fallback r active apex)) [
      | inl fine ↦ inl (fine, ground arith)
      | inr missing ↦
          let add = λ (pre : ApexFile).
            fallback_apexes r active rest >>= (λ (later : List ApexFile). ok (pre ∷ later)) in
          let chain =
            >>=-eq-ok (get_pre_installed_apex r apex.name) add {result = fallbacks}
              (ground arith) in
          let more =
            >>=-eq-ok (fallback_apexes r active rest)
              (λ (later : List ApexFile). ok (chain.0 ∷ later)) {result = fallbacks} chain.2 in
          inr (chain.0, more.0, missing, ground arith, more.1, ground arith)
    ]

-- What the search for fallbacks gives, where the stores map each name to a package of that name:
-- exactly the names of the packages that are missing, in their order, each with the pre-installed
-- package of its name. A package is missing if it is updated, has no shared libraries, and no
-- package of its name is active.
pub fallback_apexes-missing :
    (h : MountHost) (s : MountState) (apexes fallbacks : List ApexFile)
    → StoresKeyed h.repository
    → fallback_apexes h.repository (get_active_packages_map h s) apexes ≡ ok fallbacks
    → (names_of fallbacks ≡ names_of (keep_if (is_missing h s) apexes))
      × All (λ (f : ApexFile). find h.repository.pre_installed_store f.name ≡ some f) fallbacks
unfolding names_of
fallback_apexes-missing h s [] fallbacks keyed e =
    let none_left : [] ≡ fallbacks = unfold fallback_apexes in ground arith in
    rw (sym none_left) (refl, tt)
fallback_apexes-missing h s (apex ∷ rest) fallbacks keyed e =
    let r = h.repository in
    let active = get_active_packages_map h s in
    let tested = needs_no_fallback-is_missing h s apex in
    elim (fallback_apexes-cases r active apex rest fallbacks e) [
      | inl (fine, same) ↦
          let present : is_missing h s apex ≡ false = ground arith in
          let later = fallback_apexes-missing h s rest fallbacks keyed same in
          (rw present later.0, later.1)
      | inr (pre, later, missing, found, more, all_of) ↦
          let absent : is_missing h s apex ≡ true = ground arith in
          let rest_of = fallback_apexes-missing h s rest later keyed more in
          let same_name = Keyed-name r.pre_installed_store apex.name pre keyed.pre found in
          let names =
            ap (λ (n : String). n ∷ names_of later) same_name
            ∙ ap (λ (l : List String). apex.name ∷ l) rest_of.0 in
          rw (all_of, absent)
            (names, (ap (λ n. find r.pre_installed_store n) same_name ∙ found, rest_of.1))
    ]

-- The fallback ends the process unless each missing package has a pre-installed version.
pub fallback_apexes-returns :
    (h : MountHost) (s : MountState) (apexes : List ApexFile)
    → is_ok (fallback_apexes h.repository (get_active_packages_map h s) apexes)
      ≡ all
          (λ (a : ApexFile). has_pre_installed_version h.repository a.name)
          (keep_if (is_missing h s) apexes)
unfolding fallback_apexes get_pre_installed_apex has_pre_installed_version
fallback_apexes-returns h s [] = refl
fallback_apexes-returns h s (apex ∷ rest) =
    grind (arith, fallback_apexes-returns h s rest, needs_no_fallback-is_missing h s apex)

pub All-append :
    (P : ApexFile → Type 0) (xs ys : List ApexFile) → All P (xs ++ ys) → All P xs × All P ys
All-append P [] ys h = (tt, h)
All-append P (x ∷ xs) ys h = let (left, right) = All-append P xs ys h.1 in ((h.0, left), right)

++_nil : (xs : List ApexFile) → xs ++ [] ≡ xs
++_nil [] = refl
++_nil (x ∷ xs) = ap (λ l. x ∷ l) (++_nil xs)

empty_is : {A : Type 0} → (xs : List A) → is_empty xs ≡ true → xs ≡ []
empty_is [] h = refl
empty_is (x ∷ xs) h = cc

keep_if_none :
    (xs : List ApexFile)
    → is_empty (keep_if (λ (a : ApexFile). a.is_compressed) xs) ≡ true
    → keep_if is_not_compressed xs ≡ xs
keep_if_none [] h = refl
keep_if_none (x ∷ xs) h = ground (arith, keep_if_none xs)

-- The compressed packages, once they are decompressed.
abbrev pub decompressed_of : BootHost → ActivationMode → List ApexFile → Apexd → List ApexFile
decompressed_of b mode apexes d =
    (process_compressed_apexes b.host b.decompressor (is_ota_chroot_mode mode)
      (keep_if (λ (a : ApexFile). a.is_compressed) apexes) d).0

pub decompress_fallbacks-split :
    (b : BootHost) (mode : ActivationMode) (apexes : List ApexFile) (d : Apexd)
    → (decompress_fallbacks b mode apexes d).0
      ≡ keep_if is_not_compressed apexes ++ decompressed_of b mode apexes d
unfolding decompress_fallbacks process_compressed_apexes
decompress_fallbacks-split b mode apexes d =
    let compressed = keep_if (λ (a : ApexFile). a.is_compressed) apexes in
    elim (Bool-cases (is_empty compressed)) [
      | inr some_there ↦ ground arith
      | inl none_there ↦
          let whole : (decompress_fallbacks b mode apexes d).0 ≡ apexes = ground arith in
          let nothing : decompressed_of b mode apexes d ≡ [] =
            ap
              (λ (l : List ApexFile).
                (process_compressed_apexes b.host b.decompressor (is_ota_chroot_mode mode) l d).0)
              (empty_is compressed none_there) in
          whole
          ∙ sym (keep_if_none apexes none_there)
          ∙ sym (++_nil (keep_if is_not_compressed apexes))
          ∙ ap (λ l. keep_if is_not_compressed apexes ++ l) (sym nothing)
    ]
