-- ===== src/Mounting/Growing.antt =====
-- apexd/apexd.cpp: an activation only adds to the database, so that it keeps what each addition keeps.
use system_apex.Base.{String, ◌≡◌, sym, subst, ap, inl, inr, Bool, ok, Result, Result-cases, arith}
use system_apex.ApexFile.{ApexFile}
use system_apex.Database.{MountedApexData, MountedApexDatabase}
use system_apex.Database.Mounts.{add_mounted_apex}
use system_apex.Kernel.{Trace}
use system_apex.Mounting.{MountHost, MountState}
use system_apex.Mounting.Packages.{record_mount, mount_package}
use system_apex.Mounting.Activate.{bind_if_latest, activate_unless_active, activate_package_impl}
use system_apex.Mounting.TempMount.{record_mount-ok, record_mount_failed}

pub bind_if_latest-mounted :
    (h : MountHost) (apex : ApexFile) (s : MountState)
    → (bind_if_latest h apex s).1.mounted ≡ s.mounted
unfolding bind_if_latest
bind_if_latest-mounted h apex s = ground arith

module _ (P : MountedApexDatabase → Type 0)
    (adds : (db db' : MountedApexDatabase) (pkg : String) (m : MountedApexData)
      → add_mounted_apex db pkg m ≡ ok db'
      → P db
      → P db') where
  pub record_mount-keeps :
      (name : String) (s : MountState) (x : Result MountedApexData × Trace)
      → P s.mounted
      → P (record_mount name s x).1.mounted
  record_mount-keeps name s x o = elim (Result-cases (record_mount name s x).0) [
    | inl (m, done) ↦
        let after = (record_mount name s x).1 in
        adds s.mounted after.mounted name m
          (record_mount-ok name s after x m
            (ap (λ (r : Result MountedApexData). (r, after)) done)).1
          o
    | inr failed ↦ subst P (sym (record_mount_failed name s x failed)) o
  ]

  bind_if_latest-keeps :
      (h : MountHost) (apex : ApexFile) (s : MountState)
      → P s.mounted
      → P (bind_if_latest h apex s).1.mounted
  bind_if_latest-keeps h apex s o = subst P (sym (bind_if_latest-mounted h apex s)) o

  pub activate_package_impl-keeps :
      (h : MountHost) (apex : ApexFile) (device_name : String) (reuse_device : Bool)
      (s : MountState)
      → P s.mounted
      → P (activate_package_impl h apex device_name reuse_device s).1.mounted
  unfolding activate_package_impl activate_unless_active mount_package
  activate_package_impl-keeps h apex device_name reuse_device s o =
      grind (arith, o, bind_if_latest-keeps, record_mount-keeps)
