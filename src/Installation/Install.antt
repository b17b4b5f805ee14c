-- ===== src/Installation/Install.antt =====
-- apexd/apexd.cpp: `InstallPackage`.
use Prim.Native.String.{◌++◌ as append}
use system_apex.Base.{
  ℕ, suc, String, Bool, true, false, Result, ok, error, abort, if◌then◌else◌, and_then, or_error,
}
use system_apex.Text.{to_text}
use system_apex.ApexFile.{ApexFile, get_package_id}
use system_apex.Repository.Queries.{is_pre_installed_apex}
use system_apex.Database.{MountedApexData}
use system_apex.Database.Mounts.{get_latest_mounted_apex}
use system_apex.Kernel.{Kernel, Trace, set_property, link, unlink, write_file, require, attempt}
use system_apex.Mounting.{MountState}
use system_apex.Mounting.Packages.{with_trace, unmount_package}
use system_apex.Mounting.Activate.{activate_package_impl}
use system_apex.Installation.{
  InstallHost, check_supports_non_staged_install, verify_package_non_staged_install,
}
use system_apex.Installation.Minor.{compute_package_id_minor, target_file}

-- A property that init acts on, and then the one that says whether the package is ready.
unfoldable pub tell_init : Kernel → String → String → String → Trace → Result (Unit {0}) × Trace
tell_init k property apex_name ready t =
    and_then (require k (set_property property apex_name) (append "Failed to set " property) t)
      (λ _ t₁.
        (ok tt, attempt k (set_property (append "apex." (append apex_name ".ready")) ready) t₁))

unfoldable pub unload_apex_from_init : Kernel → String → Trace → Result (Unit {0}) × Trace
unload_apex_from_init k apex_name t = tell_init k "ctl.apex_unload" apex_name "false" t

unfoldable pub load_apex_from_init : Kernel → String → Trace → Result (Unit {0}) × Trace
load_apex_from_init k apex_name t = tell_init k "ctl.apex_load" apex_name "true" t

-- The outer scope guard: the package is loaded again, whatever the outcome.
unfoldable pub reload {ℓ} :
    {A : Type ℓ} → Kernel → String → Result A × MountState → Result A × MountState
reload k apex_name (ok a, s) = (ok a, with_trace s (load_apex_from_init k apex_name s.trace).1)
reload k apex_name (error e, s) =
    (error e, with_trace s (load_apex_from_init k apex_name s.trace).1)
reload k apex_name (abort, s) = (abort, s)

unfoldable pub new_id : ApexFile → ℕ → String
new_id apex minor = append (get_package_id apex.manifest) (append "_" (to_text minor))

-- The inner scope guard: the new file goes, and the old package is activated on a device of a new name.
unfoldable pub go_back {ℓ} :
    {A : Type ℓ}
    → InstallHost
    → ApexFile
    → ApexFile
    → ℕ
    → Result A × MountState
    → Result A × MountState
go_back h temp_apex cur_apex minor (ok a, s) = (ok a, s)
go_back h temp_apex cur_apex minor (error e, s) =
    let t = attempt h.kernel (unlink (target_file h temp_apex minor)) s.trace in
    (
      error e,
      (activate_package_impl h.mounting cur_apex (new_id temp_apex (suc minor)) false
          (with_trace s t)).1,
    )
go_back h temp_apex cur_apex minor (abort, s) = (abort, s)

-- The link to the active directory, and the activation of what is there.
unfoldable pub activate_new :
    InstallHost → String → ApexFile → ℕ → MountState → Result ApexFile × MountState
activate_new h package_path temp_apex minor s =
    let target = target_file h temp_apex minor in
    let linked = require h.kernel (link package_path target) "Failed to link " s.trace in
    and_then (linked.0, with_trace s linked.1)
      (λ _ s₁.
        and_then (h.mounting.open_apex s₁.trace target, s₁)
          (λ new_apex s₂.
            and_then (activate_package_impl h.mounting new_apex (new_id temp_apex minor) false s₂)
              (λ _ s₃. (ok new_apex, s₃))))

-- The old file goes unless it is pre-installed; the list of packages is written again.
unfoldable pub accept_install :
    InstallHost → ApexFile → MountedApexData → ApexFile → MountState → Result ApexFile × MountState
accept_install h cur_apex cur_mounted_data new_apex s =
    let t =
      if is_pre_installed_apex h.repository cur_apex
      then s.trace
      else attempt h.kernel (unlink cur_mounted_data.full_path) s.trace in
    let info = write_file "/apex/.default-apex-info-list.xml" (h.apex_info_list (with_trace s t)) in
    (ok new_apex, with_trace s (attempt h.kernel info t))

-- From the unmounting of the active package on.
unfoldable pub replace_active :
    InstallHost
    → String
    → Bool
    → ApexFile
    → ApexFile
    → MountedApexData
    → ℕ
    → MountState
    → Result ApexFile × MountState
replace_active h package_path force temp_apex cur_apex cur_mounted_data minor s =
    and_then (unmount_package h.mounting cur_apex true true force s) (λ _ s₁.
      and_then (go_back h temp_apex cur_apex minor (activate_new h package_path temp_apex minor s₁))
        (λ new_apex s₂. accept_install h cur_apex cur_mounted_data new_apex s₂))

-- From the checks of the package on.
unfoldable pub install_checked :
    InstallHost
    → ℕ
    → String
    → Bool
    → ApexFile
    → ApexFile
    → MountedApexData
    → MountState
    → Result ApexFile × MountState
install_checked h fuel package_path force temp_apex cur_apex cur_mounted_data s =
    and_then (check_supports_non_staged_install h s.trace temp_apex force, s)
      (λ _ s₁. and_then (verify_package_non_staged_install h temp_apex force s₁) (λ _ s₂.
        and_then (compute_package_id_minor h fuel s₂.trace temp_apex, s₂)
          (λ minor s₃.
            let unloaded = unload_apex_from_init h.kernel temp_apex.name s₃.trace in
            and_then (unloaded.0, with_trace s₃ unloaded.1)
              (λ _ s₄. reload h.kernel temp_apex.name (
                replace_active h package_path force temp_apex cur_apex cur_mounted_data minor
                  s₄)))))

unfoldable pub install_package :
    InstallHost → ℕ → String → Bool → MountState → Result ApexFile × MountState
install_package h fuel package_path force s =
    and_then (h.mounting.open_apex s.trace package_path, s)
      (λ temp_apex s₁.
        and_then
          (
            or_error (get_latest_mounted_apex s₁.mounted temp_apex.name)
                (append "No active version found for package " temp_apex.name),
            s₁,
          )
          (λ cur_mounted_data s₂.
            and_then (h.mounting.open_apex s₂.trace cur_mounted_data.full_path, s₂)
              (λ cur_apex s₃.
                install_checked h fuel package_path force temp_apex cur_apex cur_mounted_data s₃)))
