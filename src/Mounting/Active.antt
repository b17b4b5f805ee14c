-- ===== src/Mounting/Active.antt =====
-- apexd/apexd.cpp: what an activated package shows.
use system_apex.Base.{
  String, ◌≡◌, refl, subst, ap, ◌⊎◌, inl, inr, Bool, true, false, Option, none, some, List, [], ◌∷◌,
  ℤ, int_eq, int_eq_iff, Result-cases, Result, ok, error, abort, arith, Bool-cases, Option-cases,
  if◌then◌else◌, and_then-eq-ok, in_context, find, ◌==◌, eq_refl,
}
use system_apex.ApexFile.{ApexFile}
use system_apex.Database.{MountedApexData, MountedApexDatabase}
use system_apex.Database.Mounts.{
  mounts_of, last_mount, do_if_latest, mounted_apexes_of, get_latest_mounted_apex, of_kind,
  mark_rest,
}
use system_apex.Database.Latest.{mounted_apexes_of-cases}
use system_apex.Kernel.{Kernel, Trace, bind_mount, umount, require}
use system_apex.Mounting.{MountHost, MountState}
use system_apex.Mounting.Packages.{
  get_package_mount_point, get_active_mount_point, mount_package, with_trace,
}
use system_apex.Mounting.Activate.{
  clear_target, bind_mount_to, is_valid_package_name, version_found, verify_shim, bind_if_latest,
  activate_unless_active, activate_package_impl,
}

-- The directory that a bind mount shows at a path.
unfoldable pub shows : String → Trace → Option String
shows target [] = none
shows target ((bind_mount source at, true) ∷ t) =
    let before = shows target t in if at == target then some source else before
shows target ((umount at detach, done) ∷ t) =
    let before = shows target t in if at == target then none else before
shows target (c ∷ t) = shows target t

bind_mount_to-shows :
    (k : Kernel) (target source : String) (t t' : Trace)
    → bind_mount_to k target source t ≡ (ok tt, t')
    → shows target t' ≡ some source
unfolding bind_mount_to require shows
bind_mount_to-shows k target source t t' e =
    let rest = and_then-eq-ok (clear_target k target t) _ e in
    ground (arith, eq_refl target, rest.2)

-- Whether the package is the latest of its name in the database.
unfoldable pub is_latest : MountedApexDatabase → ApexFile → Bool
is_latest db apex = elim (last_mount (mounts_of (find db.mounted_apexes apex.name))) [
  | none ↦ false
  | some m ↦ m.full_path == apex.apex_path
]

do_if_latest-ok :
    (db : MountedApexDatabase) (apex : ApexFile) (handler : Trace → Result (Unit {0}) × Trace)
    (t t' : Trace)
    → do_if_latest db apex.name apex.apex_path handler t ≡ (ok tt, t')
    → is_latest db apex ≡ true
    → handler t ≡ (ok tt, t')
unfolding do_if_latest is_latest
do_if_latest-ok db apex handler t t' e l = elim (Option-cases (find db.mounted_apexes apex.name)) [
  | inl missing ↦ absurd (ground arith)
  | inr (ms, found) ↦ elim (Option-cases (last_mount ms)) [
    | inl empty ↦ absurd (ground arith)
    | inr (m, last) ↦ ground arith
  ]
]

in_context-eq-ok : (c : String) (r : Result (Unit {0})) → in_context c r ≡ ok tt → r ≡ ok tt
in_context-eq-ok c (ok u) h = refl
in_context-eq-ok c (error e) h = cc
in_context-eq-ok c abort h = cc

-- The package's path shows the package, if it is the latest of its name.
abbrev pub Visible : ApexFile → MountState → Type 0
Visible apex s =
    is_latest s.mounted apex ≡ true
    → shows (get_active_mount_point apex.manifest) s.trace
      ≡ some (get_package_mount_point apex.manifest)

bind_if_latest-Visible :
    (h : MountHost) (apex : ApexFile) (s s' : MountState)
    → apex.manifest.provide_shared_apex_libs ≡ false
    → bind_if_latest h apex s ≡ (ok tt, s')
    → Visible apex s'
unfolding bind_if_latest
bind_if_latest-Visible h apex s s' own e =
    let target = get_active_mount_point apex.manifest in
    let source = get_package_mount_point apex.manifest in
    let bound =
      do_if_latest s.mounted apex.name apex.apex_path (bind_mount_to h.kernel target source)
        s.trace in
    let done : bound.0 ≡ ok tt =
      in_context-eq-ok "Failed to update package " bound.0 (ground arith) in
    let after : with_trace s bound.1 ≡ s' = ground arith in
    subst (λ x. Visible apex x) after
      (λ latest. bind_mount_to-shows h.kernel target source s.trace bound.1 (
        do_if_latest-ok s.mounted apex (bind_mount_to h.kernel target source) s.trace bound.1
          (ap (λ (r : Result (Unit {0})). (r, bound.1)) done) latest))

-- Whether the version is mounted, and the latest, as the activation sees it.
abbrev pub found_of : MountHost → ApexFile → MountState → Bool × Bool
found_of h apex s =
    version_found h s.trace apex.version (false, false)
      (mounted_apexes_of s.mounted apex.name false)

pub activate_package_impl-ok :
    (h : MountHost) (apex : ApexFile) (device_name : String) (reuse_device : Bool)
    (s s' : MountState)
    → activate_package_impl h apex device_name reuse_device s ≡ (ok tt, s')
    → activate_unless_active h apex device_name reuse_device (found_of h apex s) s ≡ (ok tt, s')
unfolding activate_package_impl
activate_package_impl-ok h apex device_name reuse_device s s' e =
    elim (Bool-cases (is_valid_package_name apex.name)) [
      | inl valid ↦
          let next = λ (_ : Unit {0}) (s₁ : MountState).
            activate_unless_active h apex device_name reuse_device (found_of h apex s₁) s₁ in
          (and_then-eq-ok (verify_shim h s.trace apex, s) next (ground arith)).2
      | inr banned ↦ absurd (ground arith)
    ]

-- The latest mount of the package is one of a file that has, when it is opened, its version.
abbrev pub LatestIs : MountHost → ApexFile → MountState → Type 0
LatestIs h apex s =
    (m : MountedApexData) × (get_latest_mounted_apex s.mounted apex.name ≡ some m)
    × (other : ApexFile) × (h.open_apex s.trace m.full_path ≡ ok other)
    × (other.version ≡ apex.version)

version_found-rest :
    (h : MountHost) (t : Trace) (version : ℤ) (found : Bool × Bool) (ms : List MountedApexData)
    → (version_found h t version found (of_kind false (mark_rest ms))).1 ≡ true
    → found.1 ≡ true
unfolding version_found of_kind
version_found-rest h t version found [] e = e
version_found-rest h t version found (m ∷ ms) e = elim (Bool-cases m.is_temp_mount) [
  | inl temporary ↦ version_found-rest h t version found ms (ground arith)
  | inr stays ↦ elim (Result-cases (h.open_apex t m.full_path)) [
    | inr failed ↦ ground (arith, failed, stays, version_found-rest h t version found ms)
    | inl (other, opened) ↦ elim (Bool-cases (int_eq other.version version)) [
      | inl same ↦
          absurd
            (ground (arith, same, opened, stays, version_found-rest h t version (true, false) ms))
      | inr differs ↦
          ground (arith, differs, opened, stays, version_found-rest h t version found ms)
    ]
  ]
]

version_found-first :
    (h : MountHost) (t : Trace) (version : ℤ) (m : MountedApexData) (ms : List MountedApexData)
    → (version_found h t version (false, false) ((m, true) ∷ of_kind false (mark_rest ms))).1 ≡ true
    → (other : ApexFile) × (h.open_apex t m.full_path ≡ ok other) × (other.version ≡ version)
unfolding version_found
version_found-first h t version m ms e =
    let now = version_found-rest h t version _ ms e in
    elim (Result-cases (h.open_apex t m.full_path)) [
      | inr failed ↦ absurd (ground (arith, failed, now))
      | inl (other, opened) ↦ elim (Bool-cases (int_eq other.version version)) [
        | inl same ↦ (other, opened, (int_eq_iff other.version version).0 same)
        | inr differs ↦ absurd (ground (arith, opened, differs, now))
      ]
    ]

found_of-LatestIs :
    (h : MountHost) (apex : ApexFile) (s : MountState)
    → (found_of h apex s).1 ≡ true
    → LatestIs h apex s
found_of-LatestIs h apex s e =
    let (ms, marks) = mounted_apexes_of-cases s.mounted apex.name in
    elim marks [
      | inl unmarked ↦ absurd (
          ground
            (arith, version_found-rest h s.trace apex.version (false, false) ms (rw unmarked at e)))
      | inr (m, marked, latest) ↦
          let first = version_found-first h s.trace apex.version m ms (rw marked at e) in
          (m, latest, first.0, first.1, first.2)
    ]

-- A package that has been activated, and is not one of shared libraries: either nothing has
-- changed, and the latest mount of its name was already one of a file that has, when it is opened,
-- its version; or, if it is the latest of its name after that, the path of the package shows the
-- directory at which its image is mounted.
pub activate_package_impl-Visible :
    (h : MountHost) (apex : ApexFile) (device_name : String) (reuse_device : Bool)
    (s s' : MountState)
    → apex.manifest.provide_shared_apex_libs ≡ false
    → activate_package_impl h apex device_name reuse_device s ≡ (ok tt, s')
    → ((s' ≡ s) × LatestIs h apex s) ⊎ Visible apex s'
unfolding activate_unless_active
activate_package_impl-Visible h apex device_name reuse_device s s' own e =
    let found = found_of h apex s in
    let rest = activate_package_impl-ok h apex device_name reuse_device s s' e in
    elim (Bool-cases found.1) [
      | inl active ↦ inl (ground arith, found_of-LatestIs h apex s active)
      | inr inactive ↦ elim (Bool-cases found.0) [
        | inl mounted ↦ inr (bind_if_latest-Visible h apex s s' own (ground arith))
        | inr absent ↦
            let mount_it =
              mount_package h apex (get_package_mount_point apex.manifest) device_name reuse_device
                false s in
            let next = λ (_ : MountedApexData) (s₁ : MountState). bind_if_latest h apex s₁ in
            let chain = and_then-eq-ok mount_it next (ground arith) in
            inr (bind_if_latest-Visible h apex mount_it.1 s' own chain.2)
      ]
    ]
