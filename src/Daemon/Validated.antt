-- ===== src/Daemon/Validated.antt =====
-- What the processing of a compressed APEX gives, and what it leaves where it fails.
use system_apex.Base.{
  String, Bool, false, none, some, find, Result, ok, error, abort, if◌then◌else◌, int_eq_iff,
  eq_iff, arith, Option-cases, Result-cases, Bool-cases, inl, inr, ◌≡◌, find-erase, eq_refl,
}
use system_apex.FileSystem.{FileSystem, remove_file_if_exists, unlink, rename, delete_dir_content}
use system_apex.ApexFile.{ApexFile}
use system_apex.ApexFile.Verity.{Avb, verify_apex_verity, ApexVerityData}
use system_apex.ApexFile.Genuine.{IsSignedBy, verify_apex_verity-IsSignedBy}
use system_apex.Daemon.{Apexd, Host}
use text.Mathlib.Text.{starts_with}
use system_apex.Daemon.Backup.{open_apex}
use system_apex.Daemon.Decompress.{
  Decompressor, validate_decompressed_apex, open_and_validate_decompressed_apex, reuse_decompressed,
  rename_ota, reuse_ota, decompress_and_validate, keep_if_ok, decompress_anew,
  process_compressed_apex, decompressed_path, decompress,
}

-- An APEX is the original of a compressed one: the key and the version are the same, and the root
-- digest of its hash tree, signed with that key, is the one that the compressed APEX tells.
pub record IsOriginalOf (avb : Avb) (capex apex : ApexFile) : Type 0 where
  pub same_key : capex.apex_pubkey ≡ apex.apex_pubkey
  pub same_version : capex.version ≡ apex.version
  pub verity : ApexVerityData
  pub signed : IsSignedBy avb apex apex.apex_pubkey verity
  pub same_digest : capex.manifest.original_apex_digest ≡ verity.root_digest

validate_decompressed_apex-IsOriginalOf :
    (avb : Avb) (capex apex : ApexFile)
    → validate_decompressed_apex avb capex apex ≡ ok tt
    → IsOriginalOf avb capex apex
unfolding validate_decompressed_apex
validate_decompressed_apex-IsOriginalOf avb capex apex h =
    elim (Result-cases (verify_apex_verity avb apex apex.apex_pubkey)) [
      | inr bad ↦ absurd (ground arith)
      | inl (v, good) ↦ record {
        same_key = ground (arith, eq_iff capex.apex_pubkey apex.apex_pubkey);
        same_version = ground (arith, int_eq_iff capex.version apex.version);
        verity = v;
        signed = verify_apex_verity-IsSignedBy avb apex apex.apex_pubkey v good;
        same_digest = ground (arith, eq_iff capex.manifest.original_apex_digest v.root_digest);
      }
    ]

module _ (host : Host) (dec : Decompressor) (capex apex : ApexFile) where
  -- The APEX is one of the files: it opens from a path of them, and it is accepted.
  pub record IsAccepted (fs : FileSystem) : Type 0 where
    pub path : String
    pub opened : open_apex host fs path ≡ ok apex
    pub accepted : validate_decompressed_apex (dec.avb fs) capex apex ≡ ok tt

  open_and_validate-IsAccepted :
      (fs : FileSystem) (path : String)
      → open_and_validate_decompressed_apex host dec fs capex path ≡ ok apex
      → IsAccepted fs
  unfolding open_and_validate_decompressed_apex
  open_and_validate-IsAccepted fs path h = elim (Result-cases (open_apex host fs path)) [
    | inr bad ↦ absurd (ground arith)
    | inl (a, opened) ↦ (elim (Result-cases (validate_decompressed_apex (dec.avb fs) capex a)) [
      | inr bad ↦ absurd (ground arith)
      | inl (_, good) ↦ (elim (Option-cases (dec.getfilecon path)) [
        | inl none' ↦ absurd (ground arith)
        | inr (ctx, there) ↦ (elim (Bool-cases (starts_with ctx dec.active_apex_selinux_ctx)) [
          | inl right ↦
              let same : a ≡ apex = ground arith in
              rw (← same) (record { path = path; opened = opened; accepted = good })
          | inr wrong ↦ absurd (ground arith)
        ])
      ])
    ])
  ]

  reuse_decompressed-IsAccepted :
      (chroot : Bool) (fs : FileSystem)
      → (reuse_decompressed host dec chroot capex fs).0 ≡ some apex
      → IsAccepted (reuse_decompressed host dec chroot capex fs).1
  unfolding reuse_decompressed
  reuse_decompressed-IsAccepted chroot fs h = grind (
    arith,
    open_and_validate-IsAccepted fs (decompressed_path host dec capex ".decompressed.apex"),
  )

  rename_ota-IsAccepted :
      (fs : FileSystem)
      → (rename_ota host dec capex fs).0 ≡ some apex
      → IsAccepted (rename_ota host dec capex fs).1
  unfolding rename_ota
  rename_ota-IsAccepted fs h =
      let path = decompressed_path host dec capex ".decompressed.apex" in
      let renamed =
        (rename host.file_io fs (decompressed_path host dec capex ".ota.apex") path).1 in
      grind (arith, open_and_validate-IsAccepted renamed path)

  reuse_ota-IsAccepted :
      (chroot : Bool) (fs : FileSystem)
      → (reuse_ota host dec chroot capex fs).0 ≡ some apex
      → IsAccepted (reuse_ota host dec chroot capex fs).1
  unfolding reuse_ota
  reuse_ota-IsAccepted chroot fs h = grind (
    arith,
    open_and_validate-IsAccepted fs (decompressed_path host dec capex ".ota.apex"),
    rename_ota-IsAccepted fs,
  )

  decompress_and_validate-IsAccepted :
      (dest : String) (fs : FileSystem)
      → (decompress_and_validate host dec capex dest fs).0 ≡ ok apex
      → IsAccepted (decompress_and_validate host dec capex dest fs).1
  unfolding decompress_and_validate
  decompress_and_validate-IsAccepted dest fs h =
      grind (arith, open_and_validate-IsAccepted (decompress host dec capex dest fs).1 dest)

  decompress_anew-IsAccepted :
      (chroot : Bool) (fs : FileSystem)
      → (decompress_anew host dec chroot capex fs).0 ≡ ok apex
      → IsAccepted (decompress_anew host dec chroot capex fs).1
  unfolding decompress_anew keep_if_ok
  decompress_anew-IsAccepted chroot fs h =
      let dest =
        decompressed_path host dec capex (if chroot then ".ota.apex" else ".decompressed.apex") in
      let freed = (delete_dir_content host.file_io fs dec.ota_reserved_dir).1 in
      grind (arith, decompress_and_validate-IsAccepted dest freed)

  -- The APEX that the processing of a compressed APEX gives, whether it was reused, renamed or
  -- decompressed, opens from one of the files as they are afterwards, and is the original of that
  -- compressed APEX by those files: the key and the version are the same, and the root digest, in
  -- what the file at the path of the APEX holds signed with that key, is the one that the
  -- compressed APEX tells.
  pub process_compressed_apex-IsOriginalOf :
      (chroot : Bool) (d : Apexd)
      → (process_compressed_apex host dec chroot capex d).0 ≡ ok apex
      → let after = (process_compressed_apex host dec chroot capex d).1.fs in
        ((path : String) × (open_apex host after path ≡ ok apex))
        × IsOriginalOf (dec.avb after) capex apex
  unfolding process_compressed_apex
  process_compressed_apex-IsOriginalOf chroot d h =
      let accepted : IsAccepted (process_compressed_apex host dec chroot capex d).1.fs = grind (
        arith,
        reuse_decompressed-IsAccepted chroot d.fs,
        reuse_ota-IsAccepted chroot (reuse_decompressed host dec chroot capex d.fs).1,
        decompress_anew-IsAccepted chroot
            (reuse_ota host dec chroot capex (reuse_decompressed host dec chroot capex d.fs).1).1,
      ) in
      (
        (accepted.path, accepted.opened),
        validate_decompressed_apex-IsOriginalOf _ capex apex accepted.accepted,
      )

module _ (host : Host) (dec : Decompressor) (capex : ApexFile) where
  keep_if_ok-cleans :
      (dest : String) (r : Result ApexFile) (fs : FileSystem) (e : String)
      → host.file_io.unlink_fails dest ≡ false
      → (keep_if_ok host dec dest (r, fs)).0 ≡ error e
      → find (keep_if_ok host dec dest (r, fs)).1.files dest ≡ none
  unfolding keep_if_ok remove_file_if_exists unlink
  keep_if_ok-cleans dest (ok a) fs e u h = cc
  keep_if_ok-cleans dest (error e') fs e u h =
      ground (arith, find-erase fs.files dest dest, eq_refl dest)
  keep_if_ok-cleans dest abort fs e u h = cc

  decompress_anew-cleans :
      (chroot : Bool) (fs : FileSystem) (e : String)
      → host.file_io.unlink_fails
          (decompressed_path host dec capex (if chroot then ".ota.apex" else ".decompressed.apex"))
        ≡ false
      → (decompress_anew host dec chroot capex fs).0 ≡ error e
      → find
          (decompress_anew host dec chroot capex fs).1.files
          (decompressed_path host dec capex (if chroot then ".ota.apex" else ".decompressed.apex"))
        ≡ none
  unfolding decompress_anew
  decompress_anew-cleans chroot fs e u h =
      let dest =
        decompressed_path host dec capex (if chroot then ".ota.apex" else ".decompressed.apex") in
      let freed = (delete_dir_content host.file_io fs dec.ota_reserved_dir).1 in
      let done = decompress_and_validate host dec capex dest freed in
      keep_if_ok-cleans dest done.0 done.1 e u h

  -- Where the processing fails, nothing is left at the path that it decompresses to, provided that
  -- an existing file there can be unlinked.
  pub process_compressed_apex-cleans :
      (chroot : Bool) (d : Apexd) (e : String)
      → host.file_io.unlink_fails
          (decompressed_path host dec capex (if chroot then ".ota.apex" else ".decompressed.apex"))
        ≡ false
      → (process_compressed_apex host dec chroot capex d).0 ≡ error e
      → find
          (process_compressed_apex host dec chroot capex d).1.fs.files
          (decompressed_path host dec capex (if chroot then ".ota.apex" else ".decompressed.apex"))
        ≡ none
  unfolding process_compressed_apex decompress_anew
  process_compressed_apex-cleans chroot d e u h =
      let left =
        (reuse_ota host dec chroot capex (reuse_decompressed host dec chroot capex d.fs).1).1 in
      grind (arith, decompress_anew-cleans chroot left)
