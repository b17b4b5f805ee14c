-- ===== src/Installation/Checked.antt =====
-- apexd/apexd.cpp: what `InstallPackage` has checked before it installs a package.
use Prim.Native.String.{◌++◌ as append}
use system_apex.Base.{
  ℕ, String, ◌≡◌, ◌≢◌, ap, refl, subst, Bool, true, false, some, Result, ok, error, abort, arith,
  inl, inr, Result-cases, or_error, or_error-eq-ok,
}
use system_apex.ApexFile.{ApexFile}
use system_apex.ApexFile.Verity.{ApexVerityData, verify_apex_verity}
use system_apex.ApexFile.Genuine.{IsSignedBy, verify_apex_verity-IsSignedBy}
use system_apex.Repository.Queries.{get_public_key}
use system_apex.Database.{MountedApexData}
use system_apex.Database.Mounts.{get_latest_mounted_apex}
use system_apex.Kernel.{Trace, link, require}
use system_apex.Mounting.{MountState}
use system_apex.Mounting.Packages.{with_trace, unmount_package}
use system_apex.Mounting.Activate.{activate_package_impl}
use system_apex.Kernel.Yielding.{Leaves, Leaves-and_then, Leaves-ok, Leaves-error, Leaves-map}
use system_apex.Boot.Single.{Mounted, activate_package_impl-Mounted}
use system_apex.Installation.{
  InstallHost, is_empty, check_rebootless, check_supports_non_staged_install,
  verify_package_non_staged_install,
}
use system_apex.Installation.Minor.{compute_package_id_minor, target_file}
use system_apex.Installation.Install.{
  unload_apex_from_init, reload, go_back, new_id, activate_new, accept_install, replace_active,
  install_checked, install_package,
}

-- A package that may be installed without a reboot.
pub record IsInstallable (h : InstallHost) (t : Trace) (apex : ApexFile) (force : Bool)
    : Type 0 where
  pub rebootless : force ≡ false → apex.manifest.supports_rebootless_update ≡ true
  pub not_shared : force ≡ false → apex.manifest.provide_shared_apex_libs ≡ false
  pub no_native_libs : force ≡ false → is_empty apex.manifest.provide_native_libs ≡ true
  pub no_shared_libs : force ≡ false → is_empty apex.manifest.require_shared_apex_libs ≡ true
  pub no_jni_libs : force ≡ false → is_empty apex.manifest.jni_libs ≡ true
  pub key : String
  pub key_known : get_public_key h.repository apex.name ≡ ok key
  pub verity : ApexVerityData
  pub signed : IsSignedBy (h.mounting.avb t) apex key verity
  pub embedded : verity.tree_size ≢ 0

check_supports_non_staged_install-IsInstallable :
    (h : InstallHost) (t : Trace) (apex : ApexFile) (force : Bool)
    → check_supports_non_staged_install h t apex force ≡ ok tt
    → IsInstallable h t apex force
unfolding check_supports_non_staged_install check_rebootless
check_supports_non_staged_install-IsInstallable h t apex force e =
    elim (Result-cases (get_public_key h.repository apex.name)) [
      | inr unknown ↦ absurd (ground arith)
      | inl (key, known) ↦ elim (Result-cases (verify_apex_verity (h.mounting.avb t) apex key)) [
        | inr bad ↦ absurd (ground arith)
        | inl (verity, verified) ↦ record {
          rebootless = λ f. ground arith;
          not_shared = λ f. ground arith;
          no_native_libs = λ f. ground arith;
          no_shared_libs = λ f. ground arith;
          no_jni_libs = λ f. ground arith;
          key = key;
          key_known = known;
          verity = verity;
          signed = verify_apex_verity-IsSignedBy (h.mounting.avb t) apex key verity verified;
          embedded = λ z. ground arith;
        }
      ]
    ]

-- A package that was installed, and how it got there.
pub record IsChecked (h : InstallHost) (package_path : String) (force : Bool) (s s' : MountState)
    (installed : ApexFile) : Type 0 where
  pub temp_apex : ApexFile
  pub opened : h.mounting.open_apex s.trace package_path ≡ ok temp_apex
  pub installable : IsInstallable h s.trace temp_apex force
  -- a version of the package was active
  pub cur : MountedApexData
  pub was_active : get_latest_mounted_apex s.mounted temp_apex.name ≡ some cur
  -- what is installed is what stands at the target
  pub minor : ℕ
  pub after : Trace
  pub in_place : h.mounting.open_apex after (target_file h temp_apex minor) ≡ ok installed
  -- and it is mounted
  pub mounted : Mounted h.mounting installed s'.mounted

-- What is installed is what stands at the target, and is mounted.
abbrev InPlace : InstallHost → ApexFile → ApexFile → MountState → Type 0
InPlace h temp_apex a s =
    (minor : ℕ) × (t : Trace) × (h.mounting.open_apex t (target_file h temp_apex minor) ≡ ok a)
    × Mounted h.mounting a s.mounted

module _ (h : InstallHost) (temp_apex cur_apex : ApexFile) where
  abbrev P : ApexFile → MountState → Type 0
  P a s = InPlace h temp_apex a s

  Leaves-activate_new :
      (path : String) (minor : ℕ) (s : MountState)
      → Leaves P (activate_new h path temp_apex minor s)
  unfolding activate_new
  Leaves-activate_new path minor s =
      let target = target_file h temp_apex minor in
      let linked = require h.kernel (link path target) "Failed to link " s.trace in
      Leaves-and_then P (linked.0, with_trace s linked.1) _
        (λ _ _.
          Leaves-and_then P (h.mounting.open_apex linked.1 target, with_trace s linked.1) _
            (λ new_apex opened.
              Leaves-and_then P
                (activate_package_impl h.mounting new_apex (new_id temp_apex minor) false
                  (with_trace s linked.1))
                (λ _ s₃. (ok new_apex, s₃))
                (λ _ done. Leaves-ok P new_apex _ (
                  minor,
                  linked.1,
                  opened,
                  activate_package_impl-Mounted h.mounting new_apex _ false _ _ (
                      ap
                        (λ (r : Result (Unit {0})). (
                          r,
                          (activate_package_impl h.mounting new_apex (new_id temp_apex minor) false
                              (with_trace s linked.1)).1,
                        ))
                        done),
                ))))

  Leaves-go_back :
      (minor : ℕ) (r : Result ApexFile × MountState)
      → Leaves P r
      → Leaves P (go_back h temp_apex cur_apex minor r)
  unfolding go_back
  Leaves-go_back minor (ok a, s) y = y
  Leaves-go_back minor (error e, s) y = Leaves-error P e _
  Leaves-go_back minor (abort, s) y = y

  Leaves-reload :
      (name : String) (r : Result ApexFile × MountState)
      → Leaves P r
      → Leaves P (reload h.kernel name r)
  unfolding reload
  Leaves-reload name (ok a, s) y = Leaves-ok P a _ (y.at a refl)
  Leaves-reload name (error e, s) y = Leaves-error P e _
  Leaves-reload name (abort, s) y = y

  Leaves-replace_active :
      (path : String) (force : Bool) (m : MountedApexData) (minor : ℕ) (s : MountState)
      → Leaves P (replace_active h path force temp_apex cur_apex m minor s)
  unfolding replace_active accept_install
  Leaves-replace_active path force m minor s =
      let unmounted = unmount_package h.mounting cur_apex true true force s in
      let activated =
        go_back h temp_apex cur_apex minor (activate_new h path temp_apex minor unmounted.1) in
      Leaves-and_then P unmounted _ (λ _ _.
        Leaves-and_then P activated (λ new_apex s₂. accept_install h cur_apex m new_apex s₂)
          (λ new_apex e.
            Leaves-ok P new_apex _ (
              (Leaves-go_back minor _ (Leaves-activate_new path minor unmounted.1)).at new_apex e)))

-- From the checks on: both that the package may be installed, and what is installed.
module _ (h : InstallHost) (fuel : ℕ) (path : String) (force : Bool) (s : MountState) where
  Leaves-install_checked :
      (temp_apex cur_apex : ApexFile) (m : MountedApexData)
      → h.mounting.open_apex s.trace path ≡ ok temp_apex
      → get_latest_mounted_apex s.mounted temp_apex.name ≡ some m
      → Leaves
          (λ b u. IsChecked h path force s u b)
          (install_checked h fuel path force temp_apex cur_apex m s)
  unfolding install_checked
  Leaves-install_checked temp_apex cur_apex m opened active =
      let Q = λ (b : ApexFile) (u : MountState). IsChecked h path force s u b in
      let verified = verify_package_non_staged_install h temp_apex force s in
      let minor = compute_package_id_minor h fuel verified.1.trace temp_apex in
      Leaves-and_then Q (check_supports_non_staged_install h s.trace temp_apex force, s) _
        (λ _ supported. Leaves-and_then Q verified _ (λ _ _.
          Leaves-and_then Q (minor, verified.1) _
            (λ n _.
              let unloaded = unload_apex_from_init h.kernel temp_apex.name verified.1.trace in
              Leaves-and_then Q (unloaded.0, with_trace verified.1 unloaded.1) _
                (λ _ _.
                  Leaves-map (InPlace h temp_apex) Q _
                    (λ a put. record {
                      temp_apex = temp_apex;
                      opened = opened;
                      installable =
                          check_supports_non_staged_install-IsInstallable h s.trace temp_apex force
                            supported;
                      cur = m;
                      was_active = active;
                      minor = put.0;
                      after = put.1;
                      in_place = put.2;
                      mounted = put.3;
                    })
                    (Leaves-reload h temp_apex cur_apex temp_apex.name _ (
                      Leaves-replace_active h temp_apex cur_apex path force m n
                        (with_trace verified.1 unloaded.1)))))))

-- A package that `InstallPackage` has installed was opened at the path; unless the installation
-- was forced it supports an update without a reboot, provides no shared libraries of its own or
-- native ones, and requires no shared or JNI libraries; its file carries a signature with the key
-- that the repository has for its name, and has a hash tree of its own; a version of the package
-- was active; and what is returned is the package that was at the target in the active directory,
-- for which there is afterwards a mount of its name that is not temporary, of its own file or of
-- one that has, when opened, its version.
pub install_package-IsChecked :
    (h : InstallHost) (fuel : ℕ) (path : String) (force : Bool) (s s' : MountState) (a : ApexFile)
    → install_package h fuel path force s ≡ (ok a, s')
    → IsChecked h path force s s' a
unfolding install_package
install_package-IsChecked h fuel path force s s' a e =
    let Q = λ (b : ApexFile) (u : MountState). IsChecked h path force s u b in
    subst (λ u. IsChecked h path force s u a) (ap (λ (r : Result ApexFile × MountState). r.1) e)
      ((Leaves-and_then Q (h.mounting.open_apex s.trace path, s) _
          (λ temp_apex opened.
            Leaves-and_then Q
              (
                or_error (get_latest_mounted_apex s.mounted temp_apex.name)
                    (append "No active version found for package " temp_apex.name),
                s,
              )
              _
              (λ m active.
                Leaves-and_then Q (h.mounting.open_apex s.trace m.full_path, s) _
                  (λ cur_apex _.
                    Leaves-install_checked h fuel path force s temp_apex cur_apex m opened (
                      or_error-eq-ok (get_latest_mounted_apex s.mounted temp_apex.name) _
                        active))))).at
        a (ap (λ (r : Result ApexFile × MountState). r.0) e))
