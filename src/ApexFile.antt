-- ===== src/ApexFile.antt =====
-- apexd/apex_manifest.cpp and apexd/apex_file.{h,cpp}: the manifest, and `ApexFile::Open`.
pub mod Opened
pub mod Verity
pub mod Genuine
use Prim.Native.String.{◌++◌ as append}
use system_apex.Base.{
  ℕ, zero, suc, ◌+◌, ◌%◌, ◌^◌, String, Bool, true, false, ◌&&◌, Option, none, some, List, [], ◌∷◌,
  ◌==◌, nat_eq, if◌then◌else◌, ℤ, pos, int_eq, Result, ok, error, abort, ◌>>=◌, ◌>>◌, guard,
  or_error, is_some, not,
}
use system_apex.Text.{int_to_text}

-- proto/apex_manifest.proto: the fields that the daemon reads.
pub record ApexManifest : Type 0 where
  pub name : String
  pub version : ℤ
  pub version_name : String
  pub provide_native_libs : List String
  pub require_shared_apex_libs : List String
  pub jni_libs : List String
  pub provide_shared_apex_libs : Bool
  pub original_apex_digest : String
  pub supports_rebootless_update : Bool
  pub vndk_version : String
  pub no_code : Bool
  pub vendor_bootstrap : Bool

pub record ApexFile : Type 0 where
  pub apex_path : String
  pub image_offset : Option ℕ
  pub image_size : Option ℕ
  pub manifest : ApexManifest
  pub open manifest use {name, version}
  pub apex_pubkey : String
  pub fs_type : Option String
  pub is_compressed : Bool

-- The bytes of a package as open(2), read(2) and libziparchive see them.
pub record Package : Type 0 where
  -- The file can be opened; it is a zip archive.
  pub readable : Bool
  pub is_archive : Bool
  -- The entries: absent, or with what they hold. A manifest or a key may fail to be extracted.
  pub original_apex : Option ℕ
  pub payload_image : Option (ℕ × ℕ)
  pub manifest_entry : Option (Option String)
  pub pubkey_entry : Option (Option String)
  -- `ReadFullyAtOffset` of an offset and a length.
  pub read_at : ℕ → ℕ → Option (List ℕ)

-- `ParseFromString` of the generated protobuf code, and `Realpath`.
pub record Decoders : Type 0 where
  pub parse_proto : String → Option ApexManifest
  pub realpath : String → Option String

-- `GetPackageId`.
unfoldable pub get_package_id : ApexManifest → String
get_package_id m = append m.name (append "@" (int_to_text m.version))

unfoldable pub parse_manifest : Decoders → String → Result ApexManifest
parse_manifest d content = do
  m ← or_error (d.parse_proto content) "Can't parse APEX manifest."
  guard (not (m.name == "")) "Missing required field \"name\" from APEX manifest."
  guard (not (int_eq m.version (pos 0))) "Missing required field \"version\" from APEX manifest."
  ok m

pub record FsMagic : Type 0 where
  pub type_name : String
  pub offset : ℕ
  pub magic : List ℕ

abbrev pub fs_types : List FsMagic
fs_types =
    record { type_name = "f2fs"; offset = 1024; magic = 0x10 ∷ 0x20 ∷ 0xf5 ∷ 0xf2 ∷ [] }
    ∷ record { type_name = "ext4"; offset = 1024 + 0x38; magic = 0o123 ∷ 0o357 ∷ [] }
    ∷ record { type_name = "erofs"; offset = 1024; magic = 0xe2 ∷ 0xe1 ∷ 0xf5 ∷ 0xe0 ∷ [] }
    ∷ []

bytes_len : List ℕ → ℕ
bytes_len [] = 0
bytes_len (b ∷ bs) = suc (bytes_len bs)

-- `memcmp(a, b, len) == 0`.
unfoldable pub bytes_eq : List ℕ → List ℕ → Bool
bytes_eq [] [] = true
bytes_eq (a ∷ as') (b ∷ bs) = nat_eq a b && bytes_eq as' bs
bytes_eq _ _ = false

-- The loop over `kFsType`. The sum of the offsets is an `uint32_t`.
unfoldable pub retrieve_fs_type : Package → ℕ → List FsMagic → Result String
unfolding bytes_len bytes_eq
retrieve_fs_type p image_offset [] = error "Couldn't find filesystem magic"
retrieve_fs_type p image_offset (fs ∷ rest) =
    let later = retrieve_fs_type p image_offset rest in
    elim (p.read_at ((image_offset + fs.offset) % 2 ^ 32) (bytes_len fs.magic)) [
      | none ↦ error "Couldn't read filesystem magic"
      | some buf ↦ if bytes_eq buf fs.magic then ok fs.type_name else later
    ]

abbrev pub Image : Type 0
Image = Option ℕ × Option ℕ × Option String

-- Offset, size and file system of the mountable image: none of a compressed package.
unfoldable pub locate_image : Package → String → Result Image
locate_image p path = if is_some p.original_apex then ok (none, none, none) else do
  (offset, size) ← or_error p.payload_image (append "Could not find entry in package " path)
  fs ← retrieve_fs_type p offset fs_types
  ok (some offset, some size, some fs)

unfoldable pub read_pubkey : Package → String → Result String
read_pubkey p path = elim p.pubkey_entry [
  | none ↦ ok ""
  | some extracted ↦ or_error extracted (append "Failed to extract public key from package " path)
]

-- `ApexFile::Open` of a path at which the package `p` stands.
unfoldable pub open_package : Decoders → String → Package → Result ApexFile
open_package d path p = do
  guard p.readable (append "Failed to open package " path)
  guard p.is_archive (append "Failed to open package " path)
  image ← locate_image p path
  entry ← or_error p.manifest_entry (append "Could not find entry \"apex_manifest.pb\" in " path)
  content ← or_error entry (append "Failed to extract manifest from package " path)
  pubkey ← read_pubkey p path
  m ← parse_manifest d content
  guard (not (is_some p.original_apex && m.provide_shared_apex_libs))
      "Apex providing sharedlibs shouldn't be compressed"
  real ← or_error (d.realpath path) (append "can't get realpath of " path)
  ok (record {
    apex_path = real;
    image_offset = image.0;
    image_size = image.1;
    manifest = m;
    apex_pubkey = pubkey;
    fs_type = image.2;
    is_compressed = is_some p.original_apex;
  })
