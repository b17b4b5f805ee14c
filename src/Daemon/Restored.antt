-- ===== src/Daemon/Restored.antt =====
-- What a restoration of the active packages leaves in their directory.
use Prim.Native.String.{◌++◌ as append}
use text.Mathlib.TextLemmas.{append_assoc, append_cancel_left}
use text.Mathlib.TextPositions.{starts_with_of_prefix}
use system_apex.Base.{
  ℕ, String, true, false, none, some, [], ◌∷◌, Dict, find, ok, any, if◌then◌else◌, eq_iff, ◌==◌,
  ◌≡◌, refl, sym, ap, ◌∙◌, arith, inl, inr, Bool-cases, Option-cases,
}
use system_apex.Text.{strip_prefix, strip_prefix-append, strip_prefix-eq-some}
use system_apex.FileSystem.{
  FileSystem, FileIo, move_below, remove_below, is_below, delete_dir_content, rename_dir,
}
use system_apex.Daemon.{Host}
use system_apex.Daemon.Backup.{restore_active_packages}

-- A file of a directory.
abbrev pub below : String → String → String
below dir rest = append dir (append "/" rest)

below-append : (dir rest : String) → below dir rest ≡ append (append dir "/") rest
below-append dir rest = sym (append_assoc dir "/" rest)

is_below-below : (dir rest : String) → is_below dir (below dir rest) ≡ true
unfolding is_below
is_below-below dir rest =
    starts_with_of_prefix (append dir "/") (below dir rest) (rest, append_assoc dir "/" rest)

below_inj : (dir a b : String) → below dir a ≡ below dir b → a ≡ b
below_inj dir a b h =
    append_cancel_left (append dir "/") a b (sym (below-append dir a) ∙ h ∙ below-append dir b)

other_than-below :
    (dir path rest : String) → is_below dir path ≡ false → (path == below dir rest) ≡ false
other_than-below dir path rest h = elim (Bool-cases (path == below dir rest)) [
  | inl e ↦
      let same : path ≡ below dir rest = (eq_iff path (below dir rest)).0 e in
      absurd (grind (arith, h, same, is_below-below dir rest))
  | inr e ↦ e
]

strip_prefix-below :
    (dir rest : String) → strip_prefix (append dir "/") (below dir rest) ≡ some rest
strip_prefix-below dir rest =
    ap (strip_prefix (append dir "/")) (below-append dir rest)
    ∙ strip_prefix-append (append dir "/") rest

elsewhere-below :
    (dir path rest : String)
    → strip_prefix (append dir "/") path ≡ none
    → (path == below dir rest) ≡ false
elsewhere-below dir path rest h = elim (Bool-cases (path == below dir rest)) [
  | inl e ↦
      let same : path ≡ below dir rest = (eq_iff path (below dir rest)).0 e in
      absurd (grind (arith, h, same, strip_prefix-below dir rest))
  | inr e ↦ e
]

find-move_below :
    (from to rest : String) (files : Dict ℕ)
    → any (λ e. is_below to e.0) files ≡ false
    → find (move_below from to files) (below to rest) ≡ find files (below from rest)
unfolding move_below find
find-move_below from to rest [] h = refl
find-move_below from to rest ((path, n) ∷ files) h =
    let ih = find-move_below from to rest files (ground arith) in
    elim (Option-cases (strip_prefix (append from "/") path)) [
      | inl e ↦
          let not_here : (path == below to rest) ≡ false =
            other_than-below to path rest (ground arith) in
          let not_there : (path == below from rest) ≡ false = elsewhere-below from path rest e in
          grind (arith, e, ih, not_here, not_there)
      | inr (u, e) ↦
          let was : path ≡ below from u =
            strip_prefix-eq-some (append from "/") path e ∙ sym (below-append from u) in
          grind (
            arith,
            e,
            ih,
            was,
            eq_iff (below to u) (below to rest),
            eq_iff path (below from rest),
            below_inj to u rest,
            below_inj from u rest,
          )
    ]

find-remove_below :
    (io : FileIo) (dir : String) (files : Dict ℕ) (path : String)
    → (remove_below io dir files).0 ≡ ok tt
    → find (remove_below io dir files).1 path
      ≡ (if is_below dir path then none else find files path)
unfolding remove_below find
find-remove_below io dir [] path h = ground arith
find-remove_below io dir ((p, n) ∷ files) path h =
    grind (arith, find-remove_below io dir files path, eq_iff p path)

-- A restoration that succeeds leaves in the directory of active packages just the files of the
-- backup, each under its name and with its contents, where the backup lies outside that directory.
pub restore_active_packages-restores :
    (host : Host) (fs : FileSystem) (rest : String)
    → is_below host.active_apex_data_dir (below host.apex_backup_dir rest) ≡ false
    → (restore_active_packages host fs).0 ≡ ok tt
    → find (restore_active_packages host fs).1.files (below host.active_apex_data_dir rest)
      ≡ find fs.files (below host.apex_backup_dir rest)
unfolding restore_active_packages delete_dir_content rename_dir
restore_active_packages-restores host fs rest out h =
    let active = host.active_apex_data_dir in
    let left = (remove_below host.file_io active fs.files).1 in
    grind (
      arith,
      h,
      out,
      find-move_below host.apex_backup_dir active rest left,
      find-remove_below host.file_io active fs.files (below host.apex_backup_dir rest),
    )
