-- ===== src/Daemon/Decompress.antt =====
-- apexd/apexd.cpp and apexd/apex_file.cpp: the decompression of compressed APEXes.
use Prim.Native.String.{◌++◌ as append}
use text.Mathlib.Text.{starts_with}
use system_apex.Base.{
  ℕ, String, Bool, not, ◌&&◌, ◌||◌, Option, none, some, List, [], ◌∷◌, assign, Result, ok, error,
  abort, guard, or_error, ◌>>=◌, ◌>>◌, if◌then◌else◌, and_then, in_context, is_ok, ◌==◌, int_eq,
}
use system_apex.FileSystem.{
  FileSystem, file_exists, path_exists, rename, remove_file_if_exists, delete_dir_content,
}
use system_apex.ApexFile.{ApexFile, get_package_id}
use system_apex.ApexFile.Verity.{Avb, verify_apex_verity}
use system_apex.Daemon.{Apexd, Host}
use system_apex.Daemon.Backup.{open_apex}

-- What decompression asks of the system.
pub record Decompressor : Type 0 where
  pub decompression_dir : String
  pub ota_reserved_dir : String
  pub active_apex_selinux_ctx : String
  -- the contents of the entry `original_apex` of a compressed APEX, where it can be extracted
  pub extract : ApexFile → Option ℕ
  -- open(2) of a new file, or the extraction into it, fails
  pub write_fails : String → Bool
  pub getfilecon : String → Option String
  pub restorecon_fails : String → Bool
  -- libavb, with the files as they are
  pub avb : FileSystem → Avb

unfoldable pub validate_decompressed_apex : Avb → ApexFile → ApexFile → Result (Unit {0})
validate_decompressed_apex avb capex apex = do
  guard (capex.apex_pubkey == apex.apex_pubkey)
      "Public key of compressed APEX is different than original APEX for "
  guard (int_eq capex.version apex.version)
      "Compressed APEX has different version than decompressed APEX "
  elim (verify_apex_verity avb apex apex.apex_pubkey) [
    | ok data' ↦
        guard (capex.manifest.original_apex_digest == data'.root_digest)
          "Root digest does not match with expected root digest"
    | error e ↦ error "Root digest does not match with expected root digest"
    | abort ↦ abort
  ]

module _ (host : Host) (dec : Decompressor) where
  unfoldable pub open_and_validate_decompressed_apex :
      FileSystem → ApexFile → String → Result ApexFile
  open_and_validate_decompressed_apex fs capex path = do
    apex ← in_context "Failed to open decompressed APEX: " (open_apex host fs path)
    validate_decompressed_apex (dec.avb fs) capex apex
    ctx ← or_error (dec.getfilecon path) (append "Failed to getfilecon " path)
    guard (starts_with ctx dec.active_apex_selinux_ctx) (append path " has wrong SELinux context ")
    ok apex

  -- `ApexFile::Decompress`: the destination must not exist; what a failed extraction wrote is removed.
  unfoldable pub decompress : ApexFile → String → FileSystem → Result (Unit {0}) × FileSystem
  decompress capex dest fs =
      if not capex.is_compressed
      then (error "Cannot decompress an uncompressed APEX", fs)
      else (elim (dec.extract capex) [
        | none ↦ (error "Failed to open compressed APEX", fs)
        | some contents ↦
            if file_exists fs dest || dec.write_fails dest
            then (error (append "Could not decompress to file " dest), fs)
            else (ok tt, record fs { files = assign fs.files dest contents })
      ])

  abbrev pub decompressed_path : ApexFile → String → String
  decompressed_path capex suffix =
      append dec.decompression_dir (append "/" (append (get_package_id capex.manifest) suffix))

  -- The file that is there is reused if it is valid; if not, it is removed, except in the OTA chroot.
  unfoldable pub reuse_decompressed : Bool → ApexFile → FileSystem → Option ApexFile × FileSystem
  reuse_decompressed is_ota_chroot capex fs =
      let path = decompressed_path capex ".decompressed.apex" in
      if path_exists host.file_io fs path
      then (elim (open_and_validate_decompressed_apex fs capex path) [
        | ok apex ↦ (some apex, fs)
        | error e ↦ (none, if is_ota_chroot then fs else remove_file_if_exists host.file_io fs path)
        | abort ↦ (none, fs)
      ])
      else (none, fs)

  -- The rename of a valid OTA APEX on boot: a file that is not valid under its new name is removed.
  unfoldable pub rename_ota : ApexFile → FileSystem → Option ApexFile × FileSystem
  rename_ota capex fs =
      let ota = decompressed_path capex ".ota.apex" in
      let path = decompressed_path capex ".decompressed.apex" in
      let renamed = rename host.file_io fs ota path in
      if is_ok (open_and_validate_decompressed_apex fs capex ota) && renamed.0
      then (elim (open_and_validate_decompressed_apex renamed.1 capex path) [
        | ok apex ↦ (some apex, renamed.1)
        | error e ↦ (none, remove_file_if_exists host.file_io renamed.1 path)
        | abort ↦ (none, renamed.1)
      ])
      else (none, fs)

  unfoldable pub reuse_ota : Bool → ApexFile → FileSystem → Option ApexFile × FileSystem
  reuse_ota is_ota_chroot capex fs =
      let ota = decompressed_path capex ".ota.apex" in
      if not (path_exists host.file_io fs ota)
      then (none, fs)
      else if not is_ota_chroot
      then rename_ota capex fs
      else (elim (open_and_validate_decompressed_apex fs capex ota) [
        | ok apex ↦ (some apex, fs)
        | error e ↦ (none, remove_file_if_exists host.file_io fs ota)
        | abort ↦ (none, fs)
      ])

  -- The decompression itself, and the checks of what it wrote.
  unfoldable pub decompress_and_validate :
      ApexFile → String → FileSystem → Result ApexFile × FileSystem
  decompress_and_validate capex dest fs =
      and_then
        (
          in_context "Failed to decompress : " (decompress capex dest fs).0,
          (decompress capex dest fs).1,
        )
        (λ _ fs₁.
          if dec.restorecon_fails dest
          then (error (append "Failed to restorecon " dest), fs₁)
          else (
            in_context "Failed to decompress CAPEX: "
                (open_and_validate_decompressed_apex fs₁ capex dest),
            fs₁,
          ))

  -- The scope guard: the destination goes unless all has succeeded.
  unfoldable pub keep_if_ok : String → Result ApexFile × FileSystem → Result ApexFile × FileSystem
  keep_if_ok dest (ok apex, fs) = (ok apex, fs)
  keep_if_ok dest (error e, fs) = (error e, remove_file_if_exists host.file_io fs dest)
  keep_if_ok dest (abort, fs) = (abort, fs)

  -- Where there was no way to avoid decompression; the space reserved for it is freed first.
  unfoldable pub decompress_anew : Bool → ApexFile → FileSystem → Result ApexFile × FileSystem
  decompress_anew is_ota_chroot capex fs =
      let dest =
        decompressed_path capex (if is_ota_chroot then ".ota.apex" else ".decompressed.apex") in
      let freed = (delete_dir_content host.file_io fs dec.ota_reserved_dir).1 in
      keep_if_ok dest (decompress_and_validate capex dest freed)

  -- `ProcessCompressedApex` of one APEX.
  unfoldable pub process_compressed_apex : Bool → ApexFile → Apexd → Result ApexFile × Apexd
  process_compressed_apex is_ota_chroot capex d =
      let reused = reuse_decompressed is_ota_chroot capex d.fs in
      elim reused.0 [
        | some apex ↦ (ok apex, record d { fs = reused.1 })
        | none ↦
            let ota = reuse_ota is_ota_chroot capex reused.1 in
            elim ota.0 [
              | some apex ↦ (ok apex, record d { fs = ota.1 })
              | none ↦
                  let done = decompress_anew is_ota_chroot capex ota.1 in
                  and_then (done.0, record d { fs = done.1 })
                    (λ apex d₁. (
                      ok apex,
                      record d₁ { changed_active_apexes = apex.name ∷ d₁.changed_active_apexes },
                    ))
            ]
      ]

  -- `ProcessCompressedApex` of a list: APEXes that are not compressed are passed over, failures
  -- logged.
  unfoldable pub process_compressed_apexes : Bool → List ApexFile → Apexd → List ApexFile × Apexd
  process_compressed_apexes is_ota_chroot [] d = ([], d)
  process_compressed_apexes is_ota_chroot (capex ∷ rest) d =
      let done = process_compressed_apex is_ota_chroot capex d in
      let d' = if capex.is_compressed then done.1 else d in
      let later = process_compressed_apexes is_ota_chroot rest d' in
      if not capex.is_compressed
      then later
      else (elim done.0 [ ok apex ↦ (apex ∷ later.0, later.1) | error e ↦ later | abort ↦ later ])
