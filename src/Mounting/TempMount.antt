-- ===== src/Mounting/TempMount.antt =====
-- apexd/apexd.cpp: what a temporary mount holds and records.
use system_apex.Base.{
  String, ◌≡◌, refl, true, false, [], Result, ok, error, abort, arith, and_then, is_ok,
}
use system_apex.ApexFile.{ApexFile}
use system_apex.Database.{MountedApexData}
use system_apex.Database.Mounts.{add_mounted_apex}
use system_apex.Kernel.{Trace, unlink}
use system_apex.Kernel.Held.{creates, Within-refl, Within-plain}
use system_apex.Kernel.Keeping.{
  Keeping, owns_all, Keeping-and_then, Keeping-if, Keeping-require, Keeping-trans,
}
use system_apex.Kernel.Yielding.{Yields, Yields-and_then, Yields-error}
use system_apex.Mounting.{MountHost, MountRequest, MountState}
use system_apex.Mounting.Image.{mount_package_impl}
use system_apex.Mounting.NoLeak.{owned_by, Keeping-mount_package_impl}
use system_apex.Mounting.Recorded.{Describes, Yields-mount_package_impl}
use system_apex.Mounting.Packages.{
  record_mount, discard_hash_tree, temp_request, remove_old_hash_tree,
  verify_and_temp_mount_package, with_trace,
}

-- A mount that is recorded, and one that is not.
pub record_mount-ok :
    (name : String) (s s' : MountState) (x : Result MountedApexData × Trace) (m : MountedApexData)
    → record_mount name s x ≡ (ok m, s')
    → (x.0 ≡ ok m) × (add_mounted_apex s.mounted name m ≡ ok s'.mounted)
unfolding record_mount
record_mount-ok name s s' (ok n, t) m e = ground (arith)
record_mount-ok name s s' (error e', t) m e = absurd (ground arith)
record_mount-ok name s s' (abort, t) m e = absurd (ground arith)

pub record_mount_failed :
    (name : String) (s : MountState) (x : Result MountedApexData × Trace)
    → is_ok (record_mount name s x).0 ≡ false
    → (record_mount name s x).1.mounted ≡ s.mounted
unfolding record_mount
record_mount_failed name s (ok n, t) e = ground arith
record_mount_failed name s (error e', t) e = refl
record_mount_failed name s (abort, t) e = refl

-- What is held is what is returned, in the state as in the trace.
abbrev pub KeepingState : Trace → Result MountedApexData × MountState → Type 0
KeepingState t r = Keeping owned_by [] t (r.0, r.1.trace)

KeepingState-record_mount :
    (name : String) (t : Trace) (s : MountState) (x : Result MountedApexData × Trace)
    → Keeping owned_by [] t x
    → KeepingState t (record_mount name s x)
unfolding record_mount
KeepingState-record_mount name t s (ok m, t') k =
    elim (add_mounted_apex s.mounted name m)
      as (λ a.
        let r : Result MountedApexData × MountState = elim a [
          | ok db ↦ (ok m, record { trace = t'; mounted = db })
          | error e ↦ (abort, with_trace s t')
          | abort ↦ (abort, with_trace s t')
        ] in
        Keeping owned_by [] t (r.0, r.1.trace)) [ ok db ↦ k | error e ↦ tt | abort ↦ tt ]
KeepingState-record_mount name t s (error e, t') k = k
KeepingState-record_mount name t s (abort, t') k = tt

Keeping-discard_hash_tree :
    (h : MountHost) (file : String) (t : Trace) (r : Result MountedApexData × Trace)
    → Keeping owned_by [] t r
    → Keeping owned_by [] t (discard_hash_tree h file r)
unfolding discard_hash_tree creates
Keeping-discard_hash_tree h file t (ok m, t') k = k
Keeping-discard_hash_tree h file t (error e, t') k =
    Within-plain [] t t' (unlink file) (h.kernel.succeeds t' (unlink file)) refl k
Keeping-discard_hash_tree h file t (abort, t') k = k

pub KeepingState-temp_mount :
    (h : MountHost) (apex : ApexFile) (mount_point : String) (s : MountState)
    → KeepingState s.trace (verify_and_temp_mount_package h apex mount_point s)
unfolding verify_and_temp_mount_package remove_old_hash_tree creates
KeepingState-temp_mount h apex mount_point s =
    let k = h.kernel in
    let r = temp_request h apex mount_point in
    KeepingState-record_mount apex.name s.trace s _ (
      Keeping-and_then (owns_all []) owned_by [] s.trace
        (remove_old_hash_tree h r.hashtree_file s.trace)
        (λ _ t. discard_hash_tree h r.hashtree_file (mount_package_impl h r apex t))
        (Keeping-if (owns_all []) [] s.trace (k.can_access s.trace r.hashtree_file) _ _
          (λ _.
            Keeping-require k [] s.trace s.trace (unlink r.hashtree_file) _ refl
              (Within-refl [] s.trace))
          (λ _. Within-refl [] s.trace))
        (λ _ t₁ w₁.
          Keeping-discard_hash_tree h r.hashtree_file s.trace _
            (Keeping-trans owned_by s.trace t₁ _ w₁ (Keeping-mount_package_impl h r apex t₁))))

-- The mount that a successful temporary mount has recorded.
pub record Recorded (apex : ApexFile) (s s' : MountState) (m : MountedApexData) : Type 0 where
  pub added : add_mounted_apex s.mounted apex.name m ≡ ok s'.mounted
  pub path_of : m.full_path ≡ apex.apex_path
  pub temporary : m.is_temp_mount ≡ true

Yields-discard_hash_tree :
    (h : MountHost) (file : String) (r : MountRequest) (apex : ApexFile)
    (x : Result MountedApexData × Trace)
    → Yields (Describes r apex) x
    → Yields (Describes r apex) (discard_hash_tree h file x)
unfolding discard_hash_tree
Yields-discard_hash_tree h file r apex (ok m, t') y = y
Yields-discard_hash_tree h file r apex (error e, t') y = Yields-error (Describes r apex) e _
Yields-discard_hash_tree h file r apex (abort, t') y = y

pub temp_mount-Recorded :
    (h : MountHost) (apex : ApexFile) (mount_point : String) (s s' : MountState)
    (m : MountedApexData)
    → verify_and_temp_mount_package h apex mount_point s ≡ (ok m, s')
    → Recorded apex s s' m
unfolding verify_and_temp_mount_package
temp_mount-Recorded h apex mount_point s s' m e =
    let r = temp_request h apex mount_point in
    let old = remove_old_hash_tree h r.hashtree_file s.trace in
    let rest = λ (_ : Unit {0}) (t : Trace).
      discard_hash_tree h r.hashtree_file (mount_package_impl h r apex t) in
    let x : Result MountedApexData × Trace = and_then old rest in
    let facts = record_mount-ok apex.name s s' x m e in
    let asked : Describes r apex m =
      (Yields-and_then (Describes r apex) old rest (λ _ t _.
          Yields-discard_hash_tree h r.hashtree_file r apex _
            (Yields-mount_package_impl h r apex t))).at
        m facts.0 in
    record {
      added = facts.1;
      path_of = asked.path_of;
      temporary = unfold temp_request in asked.temporary;
    }

pub temp_mount_failed :
    (h : MountHost) (apex : ApexFile) (mount_point : String) (s : MountState)
    → is_ok (verify_and_temp_mount_package h apex mount_point s).0 ≡ false
    → (verify_and_temp_mount_package h apex mount_point s).1.mounted ≡ s.mounted
unfolding verify_and_temp_mount_package
temp_mount_failed h apex mount_point s e = record_mount_failed apex.name s _ e
