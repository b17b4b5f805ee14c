-- ===== src/Installation/Minor.antt =====
-- apexd/apexd.cpp: `ComputePackageIdMinor`.
use Prim.Native.String.{◌++◌ as append}
use system_apex.Base.{
  ℕ, zero, suc, ◌+◌, ◌%◌, ◌^◌, String, Bool, Option, none, some, List, [], ◌∷◌, Result, ok, error,
  abort, if◌then◌else◌, ltb, ◌>>=◌, or_error,
}
use system_apex.Text.{strip_prefix, has_char, last_piece, split, to_text, parse_uint}
use system_apex.ApexFile.{ApexFile, get_package_id}
use system_apex.Kernel.{Trace}
use system_apex.Installation.{InstallHost}

-- What a device says of the minor numbers in use.
pub data DeviceMinor : Type 0 where
  -- the device is not one of the package
  foreign : DeviceMinor
  -- it is, with no minor, or with one, or with a name that is not understood
  without_minor : DeviceMinor
  with_minor : ℕ → DeviceMinor
  unexpected : DeviceMinor

-- What follows the name of the package is searched for the last underscore.
unfoldable pub minor_of : String → String → DeviceMinor
minor_of name dm_name = elim (strip_prefix name dm_name) [
  | none ↦ DeviceMinor.foreign
  | some rest ↦
      if has_char rest b'_'
      then (elim (parse_uint (last_piece (split rest b'_'))) [
        | none ↦ DeviceMinor.unexpected
        | some minor ↦ DeviceMinor.with_minor minor
      ])
      else DeviceMinor.without_minor
]

-- `minor + 1` is a `size_t`.
unfoldable pub raise_minor : ℕ → ℕ → ℕ
raise_minor next minor = let above = (minor + 1) % 2 ^ 64 in if ltb next above then above else next

-- The loop over the devices: how many there are, and the next minor.
unfoldable pub scan_devices : String → List String → ℕ → ℕ → Result (ℕ × ℕ)
scan_devices name [] devices next = ok (devices, next)
scan_devices name (d ∷ ds) devices next = elim (minor_of name d) [
  | DeviceMinor.foreign ↦ scan_devices name ds devices next
  | DeviceMinor.without_minor ↦ scan_devices name ds (suc devices) next
  | DeviceMinor.with_minor minor ↦ scan_devices name ds (suc devices) (raise_minor next minor)
  | DeviceMinor.unexpected ↦ error (append "Unexpected dm device name " d)
]

unfoldable pub target_file : InstallHost → ApexFile → ℕ → String
target_file h apex minor = append h.active_apex_data_dir (
    append "/"
      (append (get_package_id apex.manifest) (append "_" (append (to_text minor) ".apex"))))

-- The first minor whose file is not there, as a `size_t`; `none` without fuel.
unfoldable pub skip_existing : (ℕ → Bool) → ℕ → ℕ → Option ℕ
skip_existing exists zero minor = none
skip_existing exists (suc fuel) minor =
    let rest = skip_existing exists fuel ((minor + 1) % 2 ^ 64) in
    if exists minor then rest else some minor

abbrev pub file_exists_at : InstallHost → Trace → ApexFile → ℕ → Bool
file_exists_at h t apex minor = h.kernel.can_access t (target_file h apex minor)

-- Where the fuel is used up, the loop goes on.
abbrev pub or_forever : Option ℕ → Result ℕ
or_forever none = abort
or_forever (some n) = ok n

unfoldable pub compute_package_id_minor : InstallHost → ℕ → Trace → ApexFile → Result ℕ
compute_package_id_minor h fuel t apex = do
  devices ← or_error (h.dm_devices t) "Failed to list dm devices"
  found ← scan_devices apex.name devices 0 1
  if ltb 3 found.0
      then error "There are too many dm block devices associated with package "
      else or_forever (skip_existing (file_exists_at h t apex) fuel found.1)
