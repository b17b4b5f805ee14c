-- ===== src/Boot/Activated.antt =====
-- apexd/apexd.cpp: what the activation of many packages leaves mounted.
use system_apex.Base.{
  String, ◌≡◌, refl, subst, inl, inr, Bool, true, false, List, [], ◌∷◌, arith, Result, ok, error,
  abort, Result-cases, and_then-eq-ok, All, all,
}
use system_apex.ApexFile.{ApexFile}
use system_apex.Database.{MountedApexData, MountedApexDatabase}
use system_apex.Database.Mounts.{add_mounted_apex}
use system_apex.Mounting.{MountHost, MountState}
use system_apex.Mounting.Activate.{activate_package_impl}
use system_apex.Mounting.Growing.{activate_package_impl-keeps}
use system_apex.Boot.{BootHost}
use system_apex.Boot.Batch.{
  ActivationMode, device_name_of, is_boot_mode, activate_apex_worker, Tally, count_outcomes,
  add_failure, contribute_each, final_tally, no_outcomes, activate_apex_packages,
}
use system_apex.Boot.Single.{Mounted, Mounted-add, activate_package_impl-Mounted}

worker-keeps :
    (P : MountedApexDatabase → Type 0)
    (adds : (db db' : MountedApexDatabase) (pkg : String) (m : MountedApexData)
      → add_mounted_apex db pkg m ≡ ok db'
      → P db
      → P db')
    (h : MountHost) (mode : ActivationMode) (apexes : List ApexFile) (s : MountState)
    → P s.mounted
    → P (activate_apex_worker h mode apexes s).1.mounted
unfolding activate_apex_worker
worker-keeps P adds h mode [] s p = p
worker-keeps P adds h mode (apex ∷ rest) s p =
    let res = activate_package_impl h apex (device_name_of mode apex) (is_boot_mode mode) s in
    let first : P res.1.mounted =
      activate_package_impl-keeps P adds h apex (device_name_of mode apex) (is_boot_mode mode) s
        p in
    let later : P (activate_apex_worker h mode rest res.1).1.mounted =
      worker-keeps P adds h mode rest res.1 first in
    grind (arith, first, later)

-- An outcome that is no failure.
abbrev pub succeeded : Result ApexFile → Bool
succeeded (error e) = false
succeeded _ = true

-- What a package adds to the outcomes of a worker that came to its end.
worker-cases :
    (h : MountHost) (mode : ActivationMode) (apex : ApexFile) (rest : List ApexFile)
    (s s' : MountState) (outcomes : List (Result ApexFile))
    → activate_apex_worker h mode (apex ∷ rest) s ≡ (ok outcomes, s')
    → all succeeded outcomes ≡ true
    → (res : Result (Unit {0}) × MountState) × (later : List (Result ApexFile))
      × (activate_package_impl h apex (device_name_of mode apex) (is_boot_mode mode) s
          ≡ (ok tt, res.1))
      × (activate_apex_worker h mode rest res.1 ≡ (ok later, s'))
      × (all succeeded later ≡ true)
unfolding activate_apex_worker
worker-cases h mode apex rest s s' outcomes e good =
    let res = activate_package_impl h apex (device_name_of mode apex) (is_boot_mode mode) s in
    let later = activate_apex_worker h mode rest res.1 in
    elim (Result-cases later.0) [
      | inl (outs, ended) ↦ elim (Result-cases res.0) [
        | inl (u, done) ↦ (res, outs, ground (arith, done), ground arith, ground arith)
        | inr failed ↦ absurd (ground arith)
      ]
      | inr aborted ↦ absurd (ground arith)
    ]

worker-Mounted :
    (h : MountHost) (mode : ActivationMode) (apexes : List ApexFile) (s s' : MountState)
    (outcomes : List (Result ApexFile))
    → activate_apex_worker h mode apexes s ≡ (ok outcomes, s')
    → all succeeded outcomes ≡ true
    → All (λ (apex : ApexFile). Mounted h apex s'.mounted) apexes
worker-Mounted h mode [] s s' outcomes e good = tt
worker-Mounted h mode (apex ∷ rest) s s' outcomes e good =
    let (res, later, now, then', fine) = worker-cases h mode apex rest s s' outcomes e good in
    let here =
      activate_package_impl-Mounted h apex (device_name_of mode apex) (is_boot_mode mode) s res.1
        now in
    let kept = worker-keeps (λ db. Mounted h apex db) (Mounted-add h apex) h mode rest res.1 here in
    (
      subst (λ (r : Result (List (Result ApexFile)) × MountState). Mounted h apex r.1.mounted) then'
          kept,
      worker-Mounted h mode rest res.1 s' later then' fine,
    )

-- Where no failure is counted, there was none.
count_outcomes-none :
    (outcomes : List (Result ApexFile)) (c : Tally)
    → (count_outcomes outcomes c).failed_cnt ≡ 0
    → (c.failed_cnt ≡ 0) × (all succeeded outcomes ≡ true)
unfolding count_outcomes add_failure
count_outcomes-none [] c e = (e, refl)
count_outcomes-none (ok apex ∷ rest) c e = count_outcomes-none rest _ e
count_outcomes-none (abort ∷ rest) c e = count_outcomes-none rest _ e
count_outcomes-none (error m ∷ rest) c e =
    absurd (omega (arith, (count_outcomes-none rest (add_failure m c) e).0))

contribute_each-none :
    (b : BootHost) (s : MountState) (apexes : List ApexFile) (c : Tally)
    → (contribute_each b s apexes c).failed_cnt ≡ 0
    → c.failed_cnt ≡ 0
unfolding contribute_each add_failure
contribute_each-none b s [] c e = e
contribute_each-none b s (apex ∷ rest) c e = ground (arith, contribute_each-none b s rest _ e)

-- Where the activation of many packages tells of success, each of them is mounted: there is a
-- mount of its name that is not temporary, of its own file or of one that has, when it is opened,
-- its version. No activation that comes later undoes one that came before.
pub activate_apex_packages-Mounted :
    (b : BootHost) (mode : ActivationMode) (apexes : List ApexFile) (s s' : MountState)
    → activate_apex_packages b mode apexes s ≡ (ok tt, s')
    → All (λ (apex : ApexFile). Mounted b.mounting apex s'.mounted) apexes
unfolding activate_apex_packages final_tally
activate_apex_packages-Mounted b mode apexes s s' e =
    let chain = and_then-eq-ok (activate_apex_worker b.mounting mode apexes s) _ {s = s'} e in
    let worked = (activate_apex_worker b.mounting mode apexes s) in
    let tally = final_tally b chain.0 worked.1 in
    let counted : tally.failed_cnt ≡ 0 = ground arith in
    let good =
      count_outcomes-none chain.0 no_outcomes (contribute_each-none b worked.1 _ _ counted) in
    worker-Mounted b.mounting mode apexes s s' chain.0 (ground arith) good.1
