-- ===== src/Boot/Start.antt =====
-- apexd/apexd.cpp: `OnStart`, without the snapshots at its end.
use Prim.Native.String.{◌++◌ as append}
use system_apex.Base.{String, List, Result, ok, error, abort, if◌then◌else◌, and_then}
use system_apex.ApexFile.{ApexFile}
use system_apex.Repository.{ApexFileRepository}
use system_apex.Repository.Data.{add_data_apex}
use system_apex.Repository.Queries.{all_apex_files_by_name}
use system_apex.Activation.Select.{select_apex_for_activation}
use system_apex.Daemon.{Apexd, Host}
use system_apex.Daemon.Revert.{revert_active_sessions, resume_revert_if_needed}
use system_apex.Daemon.Scan.{scan_staged_sessions_dir_and_stage}
use system_apex.Kernel.{Kernel, Trace, mkdir, set_property, require, attempt}
use system_apex.Mounting.Packages.{with_trace, apex_root}
use system_apex.Boot.{BootHost, BootState}
use system_apex.Boot.Batch.{ActivationMode, activate_apex_packages}
use system_apex.Boot.Missing.{decompress_fallbacks, activate_missing_apexes}

-- An error is only logged.
abbrev pub log_error {ℓ κ} : {A : Type ℓ} {S : Type κ} → Result A × S → Result (Unit {0}) × S
log_error (ok a, s) = (ok tt, s)
log_error (error e, s) = (ok tt, s)
log_error (abort, s) = (abort, s)

-- An operation on the files and sessions.
abbrev pub on_apexd {ℓ} :
    {A : Type ℓ} → (Apexd → Result A × Apexd) → BootState → Result A × BootState
on_apexd f s = let r = f s.apexd in (r.0, record s { apexd = r.1 })

unfoldable pub create_unless_there : Kernel → String → Trace → Result (Unit {0}) × Trace
create_unless_there k dir t =
    let make = require k (mkdir dir) (append "Failed to create directory " dir) t in
    elim (k.path_exists t dir) [
      | ok exists ↦ if exists then (ok tt, t) else make
      | error e ↦ make
      | abort ↦ (abort, t)
    ]

unfoldable pub create_shared_libs_apex_dir : Kernel → Trace → Result (Unit {0}) × Trace
create_shared_libs_apex_dir k t =
    let shared_libs_sub_dir = append apex_root "/sharedlibs" in
    and_then (create_unless_there k shared_libs_sub_dir t) (λ _ t₁.
      and_then (create_unless_there k (append shared_libs_sub_dir "/lib") t₁)
        (λ _ t₂. create_unless_there k (append shared_libs_sub_dir "/lib64") t₂))

-- Too many attempts of a boot: vold asks for a revert, whose failure is not looked at.
unfoldable pub revert_if_needed : BootHost → BootState → Result (Unit {0}) × BootState
revert_if_needed b s =
    if b.host.supports_fs_checkpoints
    then (elim b.needs_rollback [
      | ok needs_revert ↦
          if needs_revert
          then log_error (on_apexd (revert_active_sessions b.host "" "") s)
          else (ok tt, s)
      | error e ↦ (ok tt, s)
      | abort ↦ (abort, s)
    ])
    else (ok tt, s)

unfoldable pub make_shared_libs_dir : BootHost → BootState → Result (Unit {0}) × BootState
make_shared_libs_dir b s =
    let made = create_shared_libs_apex_dir b.mounting.kernel s.mounts.trace in
    log_error (made.0, record s { mounts = with_trace s.mounts made.1 })

-- `AddDataApex`, whose error is only logged: the repository with what has been found.
unfoldable pub collect_data_apex : BootHost → BootState → Result ApexFileRepository × BootState
collect_data_apex b s =
    let added =
      add_data_apex (b.device s.apexd) b.mounting.repository b.host.active_apex_data_dir in
    and_then (log_error (added.0, s)) (λ _ s₁. (ok added.1, s₁))

-- What comes before the selection.
unfoldable pub prepare_start : BootHost → BootState → Result ApexFileRepository × BootState
prepare_start b s =
    let starting =
      attempt b.mounting.kernel (set_property "apexd.status" "starting") s.mounts.trace in
    and_then (revert_if_needed b (record s { mounts = with_trace s.mounts starting })) (λ _ s₁.
      and_then (make_shared_libs_dir b s₁) (λ _ s₂.
        and_then (log_error (on_apexd (scan_staged_sessions_dir_and_stage b.host b.verifier) s₂))
          (λ _ s₃. and_then (collect_data_apex b s₃) (λ r s₄.
            and_then (log_error (on_apexd (resume_revert_if_needed b.host) s₄))
              (λ _ s₅. (ok r, s₅))))))

-- `RevertActiveSessionsAndReboot`: after a revert the process waits for the reboot, and ends.
unfoldable pub revert_active_sessions_and_reboot :
    Host → String → String → Apexd → Result (Unit {0}) × Apexd
revert_active_sessions_and_reboot host crashing message d =
    and_then (revert_active_sessions host crashing message d) (λ _ d₁. (abort, d₁))

-- The activation has failed: a revert, or else the fallback, whose failure is only logged.
unfoldable pub recover :
    BootHost → List ApexFile → String → BootState → Result (Unit {0}) × BootState
recover b activation_list e s =
    let message = append "Failed to activate packages: " e in
    and_then (log_error (on_apexd (revert_active_sessions_and_reboot b.host "" message) s))
      (λ _ s₁. log_error (activate_missing_apexes b activation_list ActivationMode.boot_mode s₁))

-- The packages to activate, the compressed ones decompressed.
unfoldable pub activate_selected :
    BootHost → List ApexFile → BootState → Result (Unit {0}) × BootState
activate_selected b selected s =
    let ready = decompress_fallbacks b ActivationMode.boot_mode selected s.apexd in
    let activated = activate_apex_packages b ActivationMode.boot_mode ready.0 s.mounts in
    let s₁ : BootState = record { apexd = ready.1; mounts = activated.1 } in
    elim activated.0 [ ok u ↦ (ok tt, s₁) | error e ↦ recover b ready.0 e s₁ | abort ↦ (abort, s₁) ]

abbrev pub with_repository : BootHost → ApexFileRepository → BootHost
with_repository b r = record b { mounting = record b.mounting { repository = r } }

-- With the repository as it is afterwards.
unfoldable pub on_start : BootHost → BootState → Result ApexFileRepository × BootState
on_start b s = and_then (prepare_start b s) (λ r s₁.
    and_then (select_apex_for_activation (all_apex_files_by_name r) r, s₁)
      (λ selected s₂.
        and_then (activate_selected (with_repository b r) selected s₂) (λ _ s₃. (ok r, s₃))))
