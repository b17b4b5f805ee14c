-- ===== src/Boot/Missing.antt =====
-- apexd/apexd.cpp: `ActivateMissingApexes`, the fallback to pre-installed packages.
use system_apex.Base.{
  String, Bool, not, ◌||◌, List, [], ◌∷◌, ◌++◌, Dict, find, Result, ok, is_some, if◌then◌else◌,
  and_then, ◌>>=◌, keep_if, ℤ, is_empty,
}
use system_apex.ApexFile.{ApexFile}
use system_apex.Repository.{ApexFileRepository}
use system_apex.Repository.Queries.{is_pre_installed_apex, get_pre_installed_apex}
use system_apex.Daemon.{Apexd}
use system_apex.Daemon.Decompress.{process_compressed_apexes}
use system_apex.Boot.{BootHost, BootState}
use system_apex.Boot.Lists.{get_active_packages_map, names_of}
use system_apex.Boot.Batch.{
  ActivationMode, is_boot_mode, is_ota_chroot_mode, activate_apex_packages,
}

-- Whether there is nothing to fall back to: both versions of shared libraries are mounted anyway, a
-- pre-installed package has been tried, a package whose name is active needs none.
unfoldable pub needs_no_fallback : ApexFileRepository → Dict ℤ → ApexFile → Bool
needs_no_fallback r active apex =
    apex.manifest.provide_shared_apex_libs
    || is_pre_installed_apex r apex
    || is_some (find active apex.name)

-- The pre-installed packages in place of those that are not active.
unfoldable pub fallback_apexes :
    ApexFileRepository → Dict ℤ → List ApexFile → Result (List ApexFile)
fallback_apexes r active [] = ok []
fallback_apexes r active (apex ∷ rest) =
    let later = fallback_apexes r active rest in
    if needs_no_fallback r active apex
    then later
    else (get_pre_installed_apex r apex.name >>= (λ pre. later >>= (λ apexes. ok (pre ∷ apexes))))

unfoldable pub insert_names : List String → List String → List String
insert_names [] changed = changed
insert_names (name ∷ rest) changed = insert_names rest (name ∷ changed)

abbrev pub is_not_compressed : ApexFile → Bool
is_not_compressed apex = not apex.is_compressed

-- The compressed ones are decompressed, and come last.
unfoldable pub decompress_fallbacks :
    BootHost → ActivationMode → List ApexFile → Apexd → List ApexFile × Apexd
decompress_fallbacks b mode fallbacks d =
    let compressed = keep_if (λ (a : ApexFile). a.is_compressed) fallbacks in
    let done =
      process_compressed_apexes b.host b.decompressor (is_ota_chroot_mode mode) compressed d in
    if is_empty compressed
    then (fallbacks, d)
    else (keep_if is_not_compressed fallbacks ++ done.0, done.1)

unfoldable pub activate_fallbacks :
    BootHost → ActivationMode → List ApexFile → BootState → Result (Unit {0}) × BootState
activate_fallbacks b mode fallbacks s =
    let ready = decompress_fallbacks b mode fallbacks s.apexd in
    let changed =
      if is_boot_mode mode
      then insert_names (names_of ready.0) ready.1.changed_active_apexes
      else ready.1.changed_active_apexes in
    let done = activate_apex_packages b mode ready.0 s.mounts in
    (done.0, record { apexd = record ready.1 { changed_active_apexes = changed }; mounts = done.1 })

unfoldable pub activate_missing_apexes :
    BootHost → List ApexFile → ActivationMode → BootState → Result (Unit {0}) × BootState
activate_missing_apexes b apexes mode s =
    and_then
      (
        fallback_apexes b.mounting.repository (get_active_packages_map b.mounting s.mounts) apexes,
        s,
      )
      (λ fallbacks s₁. activate_fallbacks b mode fallbacks s₁)
