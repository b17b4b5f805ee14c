-- ===== src/Boot/Single.antt =====
-- apexd/apexd.cpp: what the activation of one package leaves mounted.
use system_apex.Base.{
  to_int, String, ◌≡◌, refl, sym, ◌∙◌, subst, ap, ◌⊎◌, inl, inr, Bool, true, false, not, ◌&&◌, ◌||◌,
  List, [], ◌∷◌, arith, Result, ok, Result-cases, Bool-cases, int_eq, int_eq_iff, and_then-eq-ok, ℤ,
}
use system_apex.ApexFile.{ApexFile}
use system_apex.Database.{MountedApexData, MountedApexDatabase}
use system_apex.Database.Mounts.{add_mounted_apex, mounted_apexes_of}
use system_apex.Database.Kept.{Has, Among, Among-Has, add_mounted_apex-new, add_mounted_apex-old}
use system_apex.Kernel.{Trace}
use system_apex.Mounting.{MountHost, MountState}
use system_apex.Mounting.Packages.{mount_package, get_package_mount_point}
use system_apex.Mounting.Activate.{
  version_found, bind_if_latest, activate_unless_active, activate_package_impl,
}
use system_apex.Mounting.Active.{found_of, activate_package_impl-ok}
use system_apex.Mounting.Recorded.{Yields-mount_package_impl}
use system_apex.Mounting.TempMount.{record_mount-ok}
use system_apex.Mounting.Growing.{bind_if_latest-mounted}

-- The mount is one of the file of the package, or of a file that has, when it is opened, its version.
abbrev pub IsMountOf : MountHost → ApexFile → MountedApexData → Type 0
IsMountOf h apex m =
    ((m.full_path ≡ apex.apex_path) × (m.version ≡ to_int apex.version))
    ⊎ ((t : Trace) × (other : ApexFile) × (h.open_apex t m.full_path ≡ ok other)
        × (other.version ≡ apex.version))

-- The package, or another of its name and version, is mounted, and not temporarily.
abbrev pub Mounted : MountHost → ApexFile → MountedApexDatabase → Type 0
Mounted h apex db =
    (m : MountedApexData) × Has apex.name m db × (m.is_temp_mount ≡ false) × IsMountOf h apex m

pub Mounted-add :
    (h : MountHost) (apex : ApexFile) (db db' : MountedApexDatabase) (pkg : String)
    (m : MountedApexData)
    → add_mounted_apex db pkg m ≡ ok db'
    → Mounted h apex db
    → Mounted h apex db'
Mounted-add h apex db db' pkg m e (n, here, stays, of_it) =
    (n, add_mounted_apex-old apex.name n db db' pkg m e here, stays, of_it)

-- What the search for the version has seen, where it tells that the version is mounted.
version_found-seen :
    (h : MountHost) (t : Trace) (version : ℤ) (mounts : List (MountedApexData × Bool))
    (found : Bool × Bool)
    → (version_found h t version found mounts).0 || (version_found h t version found mounts).1
      ≡ true
    → (found.0 || found.1 ≡ true)
      ⊎ ((m : MountedApexData) × Among m mounts
          × (other : ApexFile) × (h.open_apex t m.full_path ≡ ok other)
          × (other.version ≡ version))
unfolding version_found
version_found-seen h t version [] found e = inl e
version_found-seen h t version ((m, latest) ∷ rest) found e =
    elim (version_found-seen h t version rest _ e) [
      | inr (n, later, other, opened, same) ↦ inr (n, inr later, other, opened, same)
      | inl now ↦ elim (Result-cases (h.open_apex t m.full_path)) [
        | inr failed ↦ inl (ground (arith, now, failed))
        | inl (other, opened) ↦ elim (Bool-cases (int_eq other.version version)) [
          | inl same ↦ inr (m, inl refl, other, opened, (int_eq_iff other.version version).0 same)
          | inr differs ↦ inl (ground (arith, now, opened, differs))
        ]
      ]
    ]

found_of-Mounted :
    (h : MountHost) (apex : ApexFile) (s : MountState)
    → (found_of h apex s).0 || (found_of h apex s).1 ≡ true
    → Mounted h apex s.mounted
found_of-Mounted h apex s e =
    elim (version_found-seen h s.trace apex.version (mounted_apexes_of s.mounted apex.name false)
      (false, false) e) [
        | inl none_left ↦ absurd (cc)
        | inr (m, among, other, opened, same) ↦
            let entry = Among-Has s.mounted apex.name m among in
            (m, entry.0, entry.1, inr (s.trace, other, opened, same))
      ]

mount_package-Mounted :
    (h : MountHost) (apex : ApexFile) (mount_point device_name : String) (reuse : Bool)
    (s s' : MountState) (m : MountedApexData)
    → mount_package h apex mount_point device_name reuse false s ≡ (ok m, s')
    → Mounted h apex s'.mounted
unfolding mount_package
mount_package-Mounted h apex mount_point device_name reuse s s' m e =
    let facts = record_mount-ok apex.name s s' _ m e in
    let described = (Yields-mount_package_impl h _ apex s.trace).at m facts.0 in
    (
      m,
      add_mounted_apex-new s.mounted s'.mounted apex.name m facts.1,
      described.temporary,
      inl (described.path_of, described.version_of),
    )

-- A package that has been activated is mounted: itself, or another of its name and version.
pub activate_package_impl-Mounted :
    (h : MountHost) (apex : ApexFile) (device_name : String) (reuse_device : Bool)
    (s s' : MountState)
    → activate_package_impl h apex device_name reuse_device s ≡ (ok tt, s')
    → Mounted h apex s'.mounted
unfolding activate_unless_active
activate_package_impl-Mounted h apex device_name reuse_device s s' e =
    let found = found_of h apex s in
    let rest = activate_package_impl-ok h apex device_name reuse_device s s' e in
    let carried = λ (db : MountedApexDatabase) (same : db ≡ s'.mounted) (is : Mounted h apex db).
      subst (λ x. Mounted h apex x) same is in
    elim (Bool-cases (found.1 && not apex.manifest.provide_shared_apex_libs)) [
      | inl active ↦ carried s.mounted (ground arith) (found_of-Mounted h apex s (ground arith))
      | inr inactive ↦ elim (Bool-cases found.0) [
        | inl mounted ↦
            let bound : (bind_if_latest h apex s).1 ≡ s' = ground arith in
            carried s.mounted
              (sym (bind_if_latest-mounted h apex s) ∙ ap (λ (x : MountState). x.mounted) bound)
              (found_of-Mounted h apex s (ground arith))
        | inr absent ↦
            let mount_it =
              mount_package h apex (get_package_mount_point apex.manifest) device_name reuse_device
                false s in
            let chain =
              and_then-eq-ok mount_it
                (λ (_ : MountedApexData) (s₁ : MountState). bind_if_latest h apex s₁) {s = s'}
                (ground arith) in
            carried mount_it.1.mounted
              (sym (bind_if_latest-mounted h apex mount_it.1)
                ∙ ap (λ (r : Result (Unit {0}) × MountState). r.1.mounted) chain.2)
              (mount_package-Mounted h apex _ device_name reuse_device s mount_it.1 chain.0
                (ap (λ (r : Result MountedApexData). (r, mount_it.1)) chain.1))
      ]
    ]
