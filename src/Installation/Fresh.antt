-- ===== src/Installation/Fresh.antt =====
-- apexd/apexd.cpp: the minor that `ComputePackageIdMinor` finds is new, and it finds one.
use system_apex.Base.{
  ℕ, zero, suc, ◌+◌, ◌≤◌, ◌<◌, ◌%◌, ◌^◌, ap, String, ◌≡◌, ◌≢◌, refl, Bool, false, none, some, List,
  [], ◌∷◌, ok, abort, arith, All, ◌⊎◌, inl, inr, Bool-cases, Option-cases, Result-cases,
}
use system_apex.ApexFile.{ApexFile}
use system_apex.Kernel.{Trace}
use system_apex.Installation.{InstallHost}
use system_apex.Installation.Minor.{
  DeviceMinor, minor_of, raise_minor, scan_devices, skip_existing, file_exists_at,
  compute_package_id_minor,
}

DeviceMinor-cases :
    (k : DeviceMinor)
    → (k ≡ DeviceMinor.foreign)
      ⊎ (k ≡ DeviceMinor.without_minor)
      ⊎ ((m : ℕ) × (k ≡ DeviceMinor.with_minor m))
      ⊎ (k ≡ DeviceMinor.unexpected)
DeviceMinor-cases DeviceMinor.foreign = inl refl
DeviceMinor-cases DeviceMinor.without_minor = inr (inl refl)
DeviceMinor-cases (DeviceMinor.with_minor m) = inr (inr (inl (m, refl)))
DeviceMinor-cases DeviceMinor.unexpected = inr (inr (inr refl))

-- How many devices have a name that begins as the package's.
abbrev own : DeviceMinor → ℕ
own DeviceMinor.foreign = 0
own _ = 1

unfoldable pub count_own : String → List String → ℕ
count_own name [] = 0
count_own name (d ∷ ds) = own (minor_of name d) + count_own name ds

-- The minor of a device is below a number, where it has one that fits.
abbrev pub MinorBelow : String → ℕ → String → Type 0
MinorBelow name n d = (m : ℕ) → minor_of name d ≡ DeviceMinor.with_minor m → m + 1 < 2 ^ 64 → m < n

raise_minor_mono : (next minor : ℕ) → next ≤ raise_minor next minor
unfolding raise_minor
raise_minor_mono next minor = ground arith

raise_minor-above : (next minor : ℕ) → minor + 1 < 2 ^ 64 → minor < raise_minor next minor
unfolding raise_minor
raise_minor-above next minor h = ground arith

raise_minor-fits : (next minor : ℕ) → next < 2 ^ 64 → raise_minor next minor < 2 ^ 64
unfolding raise_minor
raise_minor-fits next minor h = ground arith

-- What a scan has found.
record Scanned (name : String) (ds : List String) (devices next devices' next' : ℕ) : Type 0 where
  counted : devices' ≡ devices + count_own name ds
  raised : next ≤ next'
  fits : next < 2 ^ 64 → next' < 2 ^ 64
  below : All (MinorBelow name next') ds

scan_devices-Scanned :
    (name : String) (ds : List String) (devices next devices' next' : ℕ)
    → scan_devices name ds devices next ≡ ok (devices', next')
    → Scanned name ds devices next devices' next'
unfolding scan_devices count_own
scan_devices-Scanned name [] devices next devices' next' e = record {
  counted = ground arith;
  raised = ground arith;
  fits = λ l. ground arith;
  below = tt;
}
scan_devices-Scanned name (d ∷ ds) devices next devices' next' e =
    elim (DeviceMinor-cases (minor_of name d)) [
      | inl other ↦
          let ih = scan_devices-Scanned name ds devices next devices' next' (ground arith) in
          record {
            counted = ground (arith, ih.counted);
            raised = ih.raised;
            fits = ih.fits;
            below = (λ m h fits. ground arith, ih.below);
          }
      | inr (inl plain) ↦
          let ih = scan_devices-Scanned name ds (suc devices) next devices' next' (ground arith) in
          record {
            counted = ground (arith, ih.counted);
            raised = ih.raised;
            fits = ih.fits;
            below = (λ m h fits. ground arith, ih.below);
          }
      | inr (inr (inl (minor, numbered))) ↦
          let ih =
            scan_devices-Scanned name ds (suc devices) (raise_minor next minor) devices' next'
              (ground arith) in
          record {
            counted = ground (arith, ih.counted);
            raised = omega (arith, ih.raised, raise_minor_mono next minor);
            fits = λ l. ih.fits (raise_minor-fits next minor l);
            below = (
              λ m h fits.
                  let same : m ≡ minor = ground arith in
                  rw same
                    (omega (arith, ih.raised, raise_minor-above next minor (rw same at fits))),
              ih.below,
            );
          }
      | inr (inr (inr bad)) ↦ absurd (ground arith)
    ]

scan_devices-ne-abort :
    (name : String) (ds : List String) (devices next : ℕ)
    → scan_devices name ds devices next ≢ abort
unfolding scan_devices
scan_devices-ne-abort name [] devices next = λ e. absurd (ground arith)
scan_devices-ne-abort name (d ∷ ds) devices next =
    λ e. grind (arith, DeviceMinor-cases, scan_devices-ne-abort name ds)

-- The loop does not wrap where no file has the last minor.
skip_existing-fresh :
    (exists : ℕ → Bool) (last : ℕ)
    → last + 1 ≡ 2 ^ 64
    → exists last ≡ false
    → (fuel minor n : ℕ) → minor < 2 ^ 64
    → skip_existing exists fuel minor ≡ some n
    → (exists n ≡ false) × (minor ≤ n)
unfolding skip_existing
skip_existing-fresh exists last is_last free zero minor n fits e = absurd (ground arith)
skip_existing-fresh exists last is_last free (suc fuel) minor n fits e =
    elim (Bool-cases (exists minor)) [
      | inr absent ↦ ground arith
      | inl there ↦
          let differs : minor ≢ last = λ same. absurd (ground (arith, ap exists same)) in
          let next : (minor + 1) % 2 ^ 64 ≡ minor + 1 = omega arith in
          let found =
            skip_existing-fresh exists last is_last free fuel ((minor + 1) % 2 ^ 64) n (omega arith)
              (ground arith) in
          (found.0, omega (arith, found.1))
    ]

skip_existing-total :
    (exists : ℕ → Bool) (bound : ℕ)
    → bound < 2 ^ 64
    → ((m : ℕ) → bound ≤ m → exists m ≡ false)
    → (fuel minor : ℕ) → bound < fuel + minor
    → 0 < fuel
    → skip_existing exists fuel minor ≢ none
unfolding skip_existing
skip_existing-total exists bound fits gone zero minor enough some' = absurd (omega arith)
skip_existing-total exists bound fits gone (suc zero) minor enough some' =
    ground (arith, gone minor)
skip_existing-total exists bound fits gone (suc (suc fuel)) minor enough some' =
    elim (Nat-below bound minor) [
      | inl past ↦ ground (arith, gone minor past)
      | inr before ↦
          let next : (minor + 1) % 2 ^ 64 ≡ minor + 1 = omega arith in
          let rest =
            skip_existing-total exists bound fits gone (suc fuel) ((minor + 1) % 2 ^ 64)
              (rw next (omega arith)) (omega arith) in
          ground (arith, rest)
    ]
  where
    Nat-below : (a b : ℕ) → (a ≤ b) ⊎ (b < a)
    Nat-below a b = omega arith

All-MinorBelow_mono :
    (name : String) (n n' : ℕ) (ds : List String)
    → n ≤ n'
    → All (MinorBelow name n) ds
    → All (MinorBelow name n') ds
All-MinorBelow_mono name n n' [] h k = tt
All-MinorBelow_mono name n n' (d ∷ ds) h k = (
  λ m e fits. let lt : m < n = k.0 m e fits in omega arith,
  All-MinorBelow_mono name n n' ds h k.1,
)

-- What `ComputePackageIdMinor` has found.
pub record IsFresh (h : InstallHost) (t : Trace) (apex : ApexFile) (ds : List String) (n : ℕ)
    : Type 0 where
  -- no file has the minor, and no device of the package has it or a greater one
  pub no_file : file_exists_at h t apex n ≡ false
  pub no_device : All (MinorBelow apex.name n) ds
  -- the package has at most three devices
  pub few : count_own apex.name ds ≤ 3

-- Where no file has the last minor that a `size_t` counts to, 2^64 - 1: a minor that
-- `ComputePackageIdMinor` returns is that of no file of the package and version in the active
-- directory, and greater than that of each device whose name begins with the package's; there are
-- at most three of these. Devices of minor 2^64 - 1, to which no 1 can be added, are left aside.
pub compute_package_id_minor-IsFresh :
    (h : InstallHost) (fuel : ℕ) (t : Trace) (apex : ApexFile) (ds : List String) (n last : ℕ)
    → last + 1 ≡ 2 ^ 64
    → file_exists_at h t apex last ≡ false
    → h.dm_devices t ≡ some ds
    → compute_package_id_minor h fuel t apex ≡ ok n
    → IsFresh h t apex ds n
unfolding compute_package_id_minor
compute_package_id_minor-IsFresh h fuel t apex ds n last is_last free listed e =
    elim (Result-cases (scan_devices apex.name ds 0 1)) [
      | inr failed ↦ absurd (ground arith)
      | inl (found, scanned) ↦
          let sc = scan_devices-Scanned apex.name ds 0 1 found.0 found.1 scanned in
          let exists = file_exists_at h t apex in
          elim (Option-cases (skip_existing exists fuel found.1)) [
            | inl forever ↦ absurd (ground arith)
            | inr (m, skipped) ↦
                let fresh =
                  skip_existing-fresh exists last is_last free fuel found.1 m
                    (sc.fits (omega arith)) skipped in
                let same : m ≡ n = ground arith in
                rw (← same) (record {
                  no_file = fresh.0;
                  no_device = All-MinorBelow_mono apex.name found.1 m ds fresh.1 sc.below;
                  few = ground (arith, sc.counted);
                })
          ]
    ]

-- Where the active directory has no file of the package and version from some minor of 64 bits on,
-- and the loop may run once more than that, `ComputePackageIdMinor` returns.
pub compute_package_id_minor-returns :
    (h : InstallHost) (fuel bound : ℕ) (t : Trace) (apex : ApexFile)
    → bound < 2 ^ 64
    → ((m : ℕ) → bound ≤ m → file_exists_at h t apex m ≡ false)
    → bound < fuel
    → compute_package_id_minor h fuel t apex ≢ abort
unfolding compute_package_id_minor
compute_package_id_minor-returns h fuel bound t apex fits gone enough ends =
    elim (Option-cases (h.dm_devices t)) [
      | inl unknown ↦ absurd (ground arith)
      | inr (ds, listed) ↦ elim (Result-cases (scan_devices apex.name ds 0 1)) [
        | inr failed ↦ ground (arith, scan_devices-ne-abort apex.name ds 0 1)
        | inl (found, scanned) ↦ ground (
          arith,
          skip_existing-total (file_exists_at h t apex) bound fits gone fuel found.1
              (omega (arith, enough)) (omega (arith, enough)),
        )
      ]
    ]
