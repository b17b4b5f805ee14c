-- ===== src/Boot/Batch.antt =====
-- apexd/apexd.cpp: the activation of many packages. One worker takes the queue, as on eng builds; the
-- activations of several workers come in another order.
use Prim.Native.String.{◌++◌ as append}
use system_apex.Base.{
  ℕ, zero, suc, String, Bool, true, false, not, List, [], ◌∷◌, Result, ok, error, abort,
  if◌then◌else◌, and_then, int_eq, ltb_ℤ,
}
use system_apex.Text.{to_text}
use system_apex.ApexFile.{ApexFile, get_package_id}
use system_apex.Repository.{ApexFileRepository}
use system_apex.Repository.Queries.{is_pre_installed_apex}
use system_apex.Mounting.{MountHost, MountState}
use system_apex.Mounting.Packages.{get_package_mount_point}
use system_apex.Mounting.Activate.{activate_package_impl}
use system_apex.Boot.{BootHost}

pub data ActivationMode : Type 0 where
  bootstrap_mode boot_mode ota_chroot_mode vm_mode : ActivationMode

abbrev pub is_boot_mode : ActivationMode → Bool
is_boot_mode ActivationMode.boot_mode = true
is_boot_mode _ = false

abbrev pub is_ota_chroot_mode : ActivationMode → Bool
is_ota_chroot_mode ActivationMode.ota_chroot_mode = true
is_ota_chroot_mode _ = false

unfoldable pub device_name_of : ActivationMode → ApexFile → String
device_name_of mode apex =
    let device_name = if is_boot_mode mode then apex.name else get_package_id apex.manifest in
    if is_ota_chroot_mode mode then append device_name ".chroot" else device_name

abbrev pub activation_error : ActivationMode → ApexFile → String → String
activation_error mode apex e =
    append "Failed to activate "
      (append apex.apex_path (append "(" (append (device_name_of mode apex) (append "): " e))))

-- The outcome of each package of the queue; a failed CHECK ends the process.
unfoldable pub activate_apex_worker :
    MountHost
    → ActivationMode
    → List ApexFile
    → MountState
    → Result (List (Result ApexFile)) × MountState
activate_apex_worker h mode [] s = (ok [], s)
activate_apex_worker h mode (apex ∷ rest) s =
    let res = activate_package_impl h apex (device_name_of mode apex) (is_boot_mode mode) s in
    let later = activate_apex_worker h mode rest res.1 in
    elim res.0 [
      | abort ↦ (abort, res.1)
      | ok u ↦ and_then later (λ outcomes s₂. (ok (ok apex ∷ outcomes), s₂))
      | error e ↦
          and_then later (λ outcomes s₂. (ok (error (activation_error mode apex e) ∷ outcomes), s₂))
    ]

-- How many failed, with the message of the first, and the packages of shared libraries among those
-- that did not.
pub record Tally : Type 0 where
  pub activated_cnt : ℕ
  pub failed_cnt : ℕ
  pub error_message : String
  pub activated_sharedlibs_apexes : List ApexFile

abbrev pub first_message : ℕ → String → String → String
first_message zero before e = e
first_message (suc n) before e = before

unfoldable pub add_failure : String → Tally → Tally
add_failure e c = record c {
  failed_cnt = suc c.failed_cnt;
  error_message = first_message c.failed_cnt c.error_message e;
}

unfoldable pub count_outcomes : List (Result ApexFile) → Tally → Tally
count_outcomes [] c = c
count_outcomes (ok apex ∷ rest) c = count_outcomes rest (record c {
  activated_cnt = suc c.activated_cnt;
  activated_sharedlibs_apexes =
      if apex.manifest.provide_shared_apex_libs
      then apex ∷ c.activated_sharedlibs_apexes
      else c.activated_sharedlibs_apexes;
})
count_outcomes (error e ∷ rest) c = count_outcomes rest (add_failure e c)
count_outcomes (abort ∷ rest) c = count_outcomes rest c

-- `cmp`: the higher version first; of one version, the updated package first.
unfoldable pub contributes_before : ApexFileRepository → ApexFile → ApexFile → Bool
contributes_before r a b =
    if not (int_eq a.version b.version)
    then ltb_ℤ b.version a.version
    else not (is_pre_installed_apex r a)

unfoldable pub insert_by : ApexFileRepository → ApexFile → List ApexFile → List ApexFile
insert_by r a [] = a ∷ []
insert_by r a (b ∷ rest) =
    let later = insert_by r a rest in if contributes_before r a b then a ∷ b ∷ rest else b ∷ later

-- `std::sort`, as an insertion sort.
unfoldable pub sort_by : ApexFileRepository → List ApexFile → List ApexFile
sort_by r [] = []
sort_by r (a ∷ rest) = insert_by r a (sort_by r rest)

unfoldable pub contribute_each : BootHost → MountState → List ApexFile → Tally → Tally
contribute_each b s [] c = c
contribute_each b s (apex ∷ rest) c =
    contribute_each b s rest
      (elim (b.contribute_to_shared_libs s.trace (get_package_mount_point apex.manifest)) [
        | ok u ↦ c
        | error e ↦ add_failure e c
        | abort ↦ c
      ])

unfoldable pub no_outcomes : Tally
no_outcomes = record {
  activated_cnt = 0;
  failed_cnt = 0;
  error_message = "";
  activated_sharedlibs_apexes = [];
}

unfoldable pub final_tally : BootHost → List (Result ApexFile) → MountState → Tally
final_tally b outcomes s =
    let c = count_outcomes outcomes no_outcomes in
    contribute_each b s (sort_by b.mounting.repository c.activated_sharedlibs_apexes) c

abbrev pub verdict : Tally → ℕ → Result (Unit {0})
verdict c zero = ok tt
verdict c (suc n) = error (
    append "Failed to activate "
      (append (to_text (suc n)) (append " APEX packages. One of the errors: " c.error_message)))

unfoldable pub activate_apex_packages :
    BootHost → ActivationMode → List ApexFile → MountState → Result (Unit {0}) × MountState
activate_apex_packages b mode apexes s =
    and_then (activate_apex_worker b.mounting mode apexes s)
      (λ outcomes s₁. let c = final_tally b outcomes s₁ in (verdict c c.failed_cnt, s₁))
