-- ===== src/Boot/FellBack.antt =====
-- apexd/apexd.cpp: what `ActivateMissingApexes` leaves mounted.
use system_apex.Base.{◌≡◌, some, List, find, arith, ok, All, keep_if, and_then-eq-ok, subst}
use system_apex.ApexFile.{ApexFile}
use system_apex.Repository.Keyed.{StoresKeyed}
use system_apex.Boot.Lists.{get_active_packages_map, names_of}
use system_apex.Boot.Missing.{
  fallback_apexes, is_not_compressed, decompress_fallbacks, activate_fallbacks,
  activate_missing_apexes,
}
use system_apex.Boot.{BootHost, BootState}
use system_apex.Boot.Batch.{ActivationMode}
use system_apex.Boot.Activated.{activate_apex_packages-Mounted}
use system_apex.Boot.Single.{Mounted}
use system_apex.Boot.Fallback.{
  is_missing, fallback_apexes-missing, All-append, decompress_fallbacks-split, decompressed_of,
}

-- What stands in for the missing packages.
pub record FellBack (b : BootHost) (mode : ActivationMode) (missing : List ApexFile)
    (s s' : BootState) : Type 0 where
  pub fallbacks : List ApexFile
  -- one for each missing package, the pre-installed one of its name
  pub names : names_of fallbacks ≡ names_of missing
  pub pre_installed :
      All
        (λ (f : ApexFile). find b.mounting.repository.pre_installed_store f.name ≡ some f)
        fallbacks
  -- mounted as they are, or as they are once decompressed
  pub plain :
      All
        (λ (f : ApexFile). Mounted b.mounting f s'.mounts.mounted)
        (keep_if is_not_compressed fallbacks)
  pub decompressed :
      All
        (λ (f : ApexFile). Mounted b.mounting f s'.mounts.mounted)
        (decompressed_of b mode fallbacks s.apexd)

-- Where the activation of the missing packages succeeds, and the stores map each name to a package
-- of that name: for the names of exactly the packages that are missing, in their order, there are
-- the pre-installed packages; for each of these that is not compressed, and for each package that
-- the decompression of the others has given, there is a mount of its name that is not temporary,
-- of its own file or of one that has, when opened, its version. A package is missing if it is
-- updated, has no shared libraries, and no package of its name is active.
pub activate_missing_apexes-FellBack :
    (b : BootHost) (mode : ActivationMode) (apexes : List ApexFile) (s s' : BootState)
    → StoresKeyed b.mounting.repository
    → activate_missing_apexes b apexes mode s ≡ (ok tt, s')
    → FellBack b mode (keep_if (is_missing b.mounting s.mounts) apexes) s s'
unfolding activate_missing_apexes activate_fallbacks
activate_missing_apexes-FellBack b mode apexes s s' keyed e =
    let found =
      fallback_apexes b.mounting.repository (get_active_packages_map b.mounting s.mounts) apexes in
    let chain =
      and_then-eq-ok (found, s)
        (λ (fallbacks : List ApexFile) (s₁ : BootState). activate_fallbacks b mode fallbacks s₁)
        {s = s'} e in
    let fallbacks = chain.0 in
    let (names, pre_installed) =
      fallback_apexes-missing b.mounting s.mounts apexes fallbacks keyed chain.1 in
    let ready = (decompress_fallbacks b mode fallbacks s.apexd).0 in
    let all_there =
      subst (λ l. All (λ (f : ApexFile). Mounted b.mounting f s'.mounts.mounted) l)
        (decompress_fallbacks-split b mode fallbacks s.apexd)
        (activate_apex_packages-Mounted b mode ready s.mounts s'.mounts
          (ground (arith, chain.2))) in
    let (plain, decompressed) =
      All-append (λ (f : ApexFile). Mounted b.mounting f s'.mounts.mounted)
        (keep_if is_not_compressed fallbacks) _ all_there in
    record {
      fallbacks = fallbacks;
      names = names;
      pre_installed = pre_installed;
      plain = plain;
      decompressed = decompressed;
    }
