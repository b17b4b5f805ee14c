-- ===== src/Boot/Started.antt =====
-- apexd/apexd.cpp: what `OnStart` leaves mounted.
use Prim.Native.String.{◌++◌ as append}
use system_apex.Base.{
  String, ◌≡◌, refl, ◌∙◌, subst, ap, ◌⊎◌, inl, inr, Bool, false, List, [], ◌∷◌, arith, Result, ok,
  error, abort, Result-cases, Bool-cases, is_ok, and_then, and_then-eq-ok, All, keep_if, find,
}
use system_apex.ApexFile.{ApexFile}
use system_apex.Repository.{ApexFileRepository}
use system_apex.Repository.Data.{add_data_apex}
use system_apex.Repository.Keyed.{StoresKeyed, add_data_apex-StoresKeyed}
use system_apex.Repository.Queries.{all_apex_files_by_name}
use system_apex.Activation.Select.{select_apex_for_activation}
use system_apex.Repository.Grouping.{named}
use system_apex.Kernel.Yielding.{Yields, Yields-and_then, Yields-ok}
use system_apex.Mounting.{MountState}
use system_apex.Activation.Chosen.{choice, select_apex_for_activation-named}
use system_apex.Daemon.{Apexd}
use system_apex.Daemon.Revert.{revert_active_sessions, resume_revert_if_needed}
use system_apex.Daemon.Scan.{scan_staged_sessions_dir_and_stage}
use system_apex.Kernel.{set_property, attempt}
use system_apex.Mounting.Packages.{with_trace}
use system_apex.Boot.{BootHost, BootState}
use system_apex.Boot.Batch.{ActivationMode, activate_apex_packages}
use system_apex.Boot.Fallback.{All-append, decompress_fallbacks-split}
use system_apex.Boot.Missing.{decompress_fallbacks, is_not_compressed}
use system_apex.Boot.Activated.{activate_apex_packages-Mounted}
use system_apex.Boot.Single.{Mounted}
use system_apex.Boot.Start.{
  log_error, on_apexd, revert_if_needed, make_shared_libs_dir, collect_data_apex, prepare_start,
  revert_active_sessions_and_reboot, recover, activate_selected, with_repository, on_start,
}

log_error-ok : {A S : Type 0} (x : Result A × S) (s : S) → log_error x ≡ (ok tt, s) → x.1 ≡ s
log_error-ok (ok a, s') s e = ap (λ r. r.1) e
log_error-ok (error m, s') s e = ap (λ r. r.1) e
log_error-ok (abort, s') s e = ap (λ r. r.1) e

-- What is activated of what has been selected.
abbrev pub ready_of : BootHost → List ApexFile → BootState → List ApexFile × Apexd
ready_of b selected s = decompress_fallbacks b ActivationMode.boot_mode selected s.apexd

abbrev pub activation_of : BootHost → List ApexFile → BootState → Result (Unit {0}) × MountState
activation_of b selected s =
    activate_apex_packages b ActivationMode.boot_mode (ready_of b selected s).0 s.mounts

-- The activation has failed, and the revert too, so that the device has not been rebooted.
abbrev pub Unrecovered : BootHost → List ApexFile → BootState → Type 0
Unrecovered b selected s =
    (is_ok (activation_of b selected s).0 ≡ false)
    × ((message : String) × (is_ok
            (revert_active_sessions b.host "" message (ready_of b selected s).1).0
          ≡ false))

-- Where the recovery comes back, nothing has been reverted.
recover-unreverted :
    (b : BootHost) (apexes : List ApexFile) (e : String) (s s' : BootState)
    → recover b apexes e s ≡ (ok tt, s')
    → (message : String) × (is_ok (revert_active_sessions b.host "" message s.apexd).0 ≡ false)
unfolding recover revert_active_sessions_and_reboot
recover-unreverted b apexes e s s' done =
    let message = append "Failed to activate packages: " e in
    elim (Result-cases (revert_active_sessions b.host "" message s.apexd).0) [
      | inr failed ↦ (message, failed)
      | inl (u, reverted) ↦ absurd (ground arith)
    ]

activate_selected-Mounted :
    (b : BootHost) (selected : List ApexFile) (s s' : BootState)
    → activate_selected b selected s ≡ (ok tt, s')
    → All (λ (apex : ApexFile). Mounted b.mounting apex s'.mounts.mounted) (ready_of b selected s).0
      ⊎ Unrecovered b selected s
unfolding activate_selected
activate_selected-Mounted b selected s s' done = go (activation_of b selected s) refl
  where
    go :
        (x : Result (Unit {0}) × MountState)
        → activation_of b selected s ≡ x
        → All
            (λ (apex : ApexFile). Mounted b.mounting apex s'.mounts.mounted)
            (ready_of b selected s).0
          ⊎ Unrecovered b selected s
    go (ok u, m) e = inl (
        activate_apex_packages-Mounted b ActivationMode.boot_mode (ready_of b selected s).0 s.mounts
          s'.mounts (ground (arith, e, done)))
    go (error message, m) e =
        let s₁ : BootState = record { apexd = (ready_of b selected s).1; mounts = m } in
        inr (
          ap (λ (r : Result (Unit {0}) × MountState). is_ok r.0) e,
          recover-unreverted b (ready_of b selected s).0 message s₁ s' (ground (arith, e, done)),
        )
    go (abort, m) e = absurd (ground (arith, e, done))

Yields-collect_data_apex :
    (b : BootHost) (s : BootState)
    → StoresKeyed b.mounting.repository
    → Yields StoresKeyed (collect_data_apex b s)
unfolding collect_data_apex
Yields-collect_data_apex b s keyed =
    let dir = b.host.active_apex_data_dir in
    let added = add_data_apex (b.device s.apexd) b.mounting.repository dir in
    Yields-and_then StoresKeyed (log_error (added.0, s)) _ (λ _ s₁ _.
      Yields-ok StoresKeyed added.1 s₁
        (add_data_apex-StoresKeyed (b.device s.apexd) b.mounting.repository dir keyed))

Yields-prepare_start :
    (b : BootHost) (s : BootState)
    → StoresKeyed b.mounting.repository
    → Yields StoresKeyed (prepare_start b s)
unfolding prepare_start
Yields-prepare_start b s keyed =
    let scan = scan_staged_sessions_dir_and_stage b.host b.verifier in
    let starting =
      attempt b.mounting.kernel (set_property "apexd.status" "starting") s.mounts.trace in
    let begun : BootState = record s { mounts = with_trace s.mounts starting } in
    Yields-and_then StoresKeyed (revert_if_needed b begun) _ (λ _ s₁ _.
      Yields-and_then StoresKeyed (make_shared_libs_dir b s₁) _ (λ _ s₂ _.
        Yields-and_then StoresKeyed (log_error (on_apexd scan s₂)) _ (λ _ s₃ _.
          Yields-and_then StoresKeyed (collect_data_apex b s₃) _ (λ r s₄ got.
            Yields-and_then StoresKeyed (log_error (on_apexd (resume_revert_if_needed b.host) s₄)) _
              (λ _ s₅ _.
                Yields-ok StoresKeyed r s₅ ((Yields-collect_data_apex b s₃ keyed).at r got))))))

All-named :
    (P : ApexFile → Type 0) (q : ApexFile → Bool) (name : String) (apexes : List ApexFile)
    → All P (keep_if q apexes)
    → All P (keep_if q (named name apexes))
All-named P q name [] h = tt
All-named P q name (a ∷ rest) h = elim (Bool-cases (q a)) [
  | inl kept ↦
      let both : P a × All P (keep_if q rest) = ground (arith, h, kept) in
      let later = All-named P q name rest both.1 in ground (arith, kept, both, later)
  | inr dropped ↦
      let later = All-named P q name rest (ground (arith, h, dropped)) in
      ground (arith, dropped, later)
]

-- Those that are not compressed are activated as they are.
ready_of-uncompressed :
    (P : ApexFile → Type 0) (b : BootHost) (selected : List ApexFile) (s : BootState)
    → All P (ready_of b selected s).0
    → All P (keep_if is_not_compressed selected)
ready_of-uncompressed P b selected s h =
    (All-append P (keep_if is_not_compressed selected) _ (
      subst (λ l. All P l) (decompress_fallbacks-split b ActivationMode.boot_mode selected s.apexd)
        h)).0

-- The selection and the activation behind a start that has come back.
on_start-selected :
    (b : BootHost) (r r' : ApexFileRepository) (s s' : BootState)
    → and_then
        (select_apex_for_activation (all_apex_files_by_name r') r', s)
        (λ selected s₂.
          and_then (activate_selected (with_repository b r') selected s₂) (λ _ s₃. (ok r', s₃)))
      ≡ (ok r, s')
    → (selected : List ApexFile) × (r' ≡ r)
      × (select_apex_for_activation (all_apex_files_by_name r') r' ≡ ok selected)
      × (activate_selected (with_repository b r') selected s ≡ (ok tt, s'))
on_start-selected b r r' s s' e =
    let select = select_apex_for_activation (all_apex_files_by_name r') r' in
    let finish : Unit {0} → BootState → Result ApexFileRepository × BootState =
      λ _ s₃. (ok r', s₃) in
    let chosen =
      and_then-eq-ok (select, s)
        (λ (selected : List ApexFile) (s₂ : BootState).
          and_then (activate_selected (with_repository b r') selected s₂) finish)
        {b = r} {s = s'} e in
    let activated =
      and_then-eq-ok (activate_selected (with_repository b r') chosen.0 s) finish {b = r} {s = s'}
        chosen.2 in
    (chosen.0, ground arith, chosen.1, ground arith)

-- Once `OnStart` has come back, and where the stores map each name once to a package of that name:
-- of each package name, for what was chosen between the pre-installed and the data APEX and is not
-- compressed there is a mount of its name that is not temporary, of its own file or of one that
-- has, when it is opened, its version; or the activation has failed and there was no revert
-- either. After a revert the process ends, to reboot.
pub on_start-Mounted :
    (b : BootHost) (s s' : BootState) (r : ApexFileRepository) (name : String)
    → StoresKeyed b.mounting.repository
    → on_start b s ≡ (ok r, s')
    → All
        (λ (apex : ApexFile). Mounted (with_repository b r).mounting apex s'.mounts.mounted)
        (keep_if is_not_compressed
          (choice r (find r.pre_installed_store name) (find r.data_store name)))
      ⊎ ((selected : List ApexFile) × (s₁ : BootState) × (prepare_start b s ≡ (ok r, s₁))
          × (select_apex_for_activation (all_apex_files_by_name r) r ≡ ok selected)
          × Unrecovered (with_repository b r) selected s₁)
unfolding on_start
on_start-Mounted b s s' r name keyed e =
    let prepared = and_then-eq-ok (prepare_start b s) _ {b = r} {s = s'} e in
    let s₁ = (prepare_start b s).1 in
    let (selected, same, chosen, activated) = on_start-selected b r prepared.0 s₁ s' prepared.2 in
    let got : (prepare_start b s).0 ≡ ok r = prepared.1 ∙ ap (λ x. ok x) same in
    let select_r : select_apex_for_activation (all_apex_files_by_name r) r ≡ ok selected =
      subst (λ x. select_apex_for_activation (all_apex_files_by_name x) x ≡ ok selected) same
        chosen in
    let b' = with_repository b r in
    let activate_r : activate_selected b' selected s₁ ≡ (ok tt, s') =
      subst (λ x. activate_selected (with_repository b x) selected s₁ ≡ (ok tt, s')) same
        activated in
    elim (activate_selected-Mounted b' selected s₁ s' activate_r) [
      | inr unrecovered ↦ inr (selected, s₁, ap (λ x. (x, s₁)) got, select_r, unrecovered)
      | inl mounted ↦
          let is_there = λ (apex : ApexFile). Mounted b'.mounting apex s'.mounts.mounted in
          inl (
            subst (λ l. All is_there (keep_if is_not_compressed l))
              (select_apex_for_activation-named r name selected
                ((Yields-prepare_start b s keyed).at r got) select_r)
              (All-named is_there is_not_compressed name selected
                (ready_of-uncompressed is_there b' selected s₁ mounted)))
    ]
