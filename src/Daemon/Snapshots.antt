-- ===== src/Daemon/Snapshots.antt =====
-- apexd/apexd.cpp: the snapshots that a restore took of what it overwrote, when a revert restores
-- them and when a success deletes them.
use Prim.Native.String.{◌++◌ as append}
use system_apex.Base.{ℕ, String, true, List, [], ◌∷◌, Result, ok, error, abort, if◌then◌else◌}
use system_apex.Text.{to_text}
use system_apex.Session.State.{ApexSession}
use system_apex.Daemon.{SnapshotCall, Apexd, Host}

-- `StringPrintf("%s/%s/%d%s", base_dir, kApexSnapshotSubDir, id, kPreRestoreSuffix)`.
abbrev pre_restore_snapshot_path : String → ℕ → String
pre_restore_snapshot_path base id =
    append base (append "/apexrollback/" (append (to_text id) "-prerestore"))

abbrev pub called : Apexd → SnapshotCall → Apexd
called d c = record d { snapshot_calls = c ∷ d.snapshot_calls }

unfoldable pub restore_names : String → ℕ → List String → Apexd → Apexd
restore_names base id [] d = d
restore_names base id (name ∷ rest) d =
    restore_names base id rest (called d (SnapshotCall.restore_data_directory base id name true))

-- `RestorePreRestoreSnapshotsIfPresent`: a restore that fails is logged.
unfoldable pub restore_pre_restore_snapshots_if_present :
    Host → String → ApexSession → Apexd → Apexd
restore_pre_restore_snapshots_if_present host base s d =
    if host.can_access (pre_restore_snapshot_path base s.rollback_id)
    then restore_names base s.rollback_id s.apex_names d
    else d

unfoldable pub restore_in_dirs : Host → List String → ApexSession → Apexd → Apexd
restore_in_dirs host [] s d = d
restore_in_dirs host (dir ∷ rest) s d =
    restore_in_dirs host rest s (restore_pre_restore_snapshots_if_present host dir s d)

-- `RestoreDePreRestoreSnapshotsIfPresent`: where the user directories cannot be read, the access to
-- the result that is not there ends the process.
unfoldable pub restore_de_pre_restore_snapshots_if_present :
    Host → ApexSession → Apexd → Result (Unit {0}) × Apexd
restore_de_pre_restore_snapshots_if_present host s d =
    let d' = restore_pre_restore_snapshots_if_present host "/data/misc" s d in
    elim host.de_user_dirs [
      | ok dirs ↦ (ok tt, restore_in_dirs host dirs s d')
      | error e ↦ (abort, d')
      | abort ↦ (abort, d')
    ]

unfoldable pub delete_in_dirs : List String → ApexSession → Apexd → Apexd
delete_in_dirs [] s d = d
delete_in_dirs (dir ∷ rest) s d =
    delete_in_dirs rest s
      (called d (SnapshotCall.delete_dir (pre_restore_snapshot_path dir s.rollback_id)))

-- `DeleteDePreRestoreSnapshots`, with the same access.
unfoldable pub delete_de_pre_restore_snapshots :
    Host → ApexSession → Apexd → Result (Unit {0}) × Apexd
delete_de_pre_restore_snapshots host s d =
    let d' =
      called d (SnapshotCall.delete_dir (pre_restore_snapshot_path "/data/misc" s.rollback_id)) in
    elim host.de_user_dirs [
      | ok dirs ↦ (ok tt, delete_in_dirs dirs s d')
      | error e ↦ (abort, d')
      | abort ↦ (abort, d')
    ]
