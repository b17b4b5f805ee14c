-- ===== src/Boot/Lists.antt =====
-- apexd/apexd.cpp: the lists of active, inactive and factory packages.
use Prim.Native.String.{◌++◌ as append}
use system_apex.Base.{
  String, Bool, false, not, ◌&&◌, List, [], ◌∷◌, ◌++◌, Dict, emplace, Result, ok, error, abort, any,
  keep_if, contains, ◌==◌, ℤ, if◌then◌else◌,
}
use system_apex.ApexFile.{ApexFile}
use system_apex.Repository.Queries.{is_decompressed_apex, get_pre_installed_apex_files}
use system_apex.Database.{MountedApexData}
use system_apex.Database.Mounts.{all_mounted}
use system_apex.Mounting.{MountHost, MountState}

-- The latest mounts whose files can be opened.
unfoldable pub open_latest :
    (String → Result ApexFile) → List (String × MountedApexData × Bool) → List ApexFile
open_latest open' [] = []
open_latest open' ((name, m, latest) ∷ rest) =
    let later = open_latest open' rest in
    if not latest
    then later
    else (elim (open' m.full_path) [ ok apex ↦ apex ∷ later | error e ↦ later | abort ↦ later ])

unfoldable pub get_active_packages : MountHost → MountState → List ApexFile
get_active_packages h s =
    open_latest (h.open_apex s.trace) (all_mounted s.mounted.mounted_apexes false)

-- The versions by name; of two packages of one name, the first counts.
unfoldable pub versions_by_name : Dict ℤ → List ApexFile → Dict ℤ
versions_by_name ret [] = ret
versions_by_name ret (apex ∷ rest) = versions_by_name (emplace ret apex.name apex.version) rest

unfoldable pub get_active_packages_map : MountHost → MountState → Dict ℤ
get_active_packages_map h s = versions_by_name [] (get_active_packages h s)

unfoldable pub names_of : List ApexFile → List String
names_of [] = []
names_of (apex ∷ rest) = apex.name ∷ names_of rest

-- The pre-installed files that can be opened, less the compressed ones that are decompressed.
unfoldable pub open_factory :
    (String → Result ApexFile) → List String → List ApexFile → List ApexFile
open_factory open' decompressed [] = []
open_factory open' decompressed (ref ∷ rest) =
    let later = open_factory open' decompressed rest in
    elim (open' ref.apex_path) [
      | ok apex ↦
          if apex.is_compressed && contains decompressed apex.name then later else apex ∷ later
      | error e ↦ later
      | abort ↦ later
    ]

unfoldable pub get_factory_packages : MountHost → MountState → List ApexFile
get_factory_packages h s =
    let decompressed = keep_if (is_decompressed_apex h.repository) (get_active_packages h s) in
    decompressed
    ++ open_factory (h.open_apex s.trace) (names_of decompressed)
        (get_pre_installed_apex_files h.repository)

unfoldable pub same_path : ApexFile → List ApexFile → Bool
same_path apex active = any (λ (a : ApexFile). apex.apex_path == a.apex_path) active

unfoldable pub calculate_inactive_packages : MountHost → MountState → List ApexFile → List ApexFile
calculate_inactive_packages h s active =
    keep_if (λ apex. not (same_path apex active)) (get_factory_packages h s)

unfoldable pub named : String → List ApexFile → Result ApexFile
named name [] = error (append "Cannot find matching package for: " name)
named name (apex ∷ rest) =
    let later = named name rest in if apex.name == name then ok apex else later

unfoldable pub get_active_package : MountHost → MountState → String → Result ApexFile
get_active_package h s name = named name (get_active_packages h s)
