-- ===== src/ApexFile/Verity.antt =====
-- The AVB part of apexd/apex_file.cpp: `VerifyApexVerity` and the checks that it is made of.
-- libavb and the bytes of the file are parameters.
use Prim.Native.String.{◌++◌ as append}
use system_apex.Base.{
  ℕ, ◌+◌, ◌-◌, ◌*◌, ◌%◌, ◌^◌, String, Bool, not, ◌&&◌, ◌||◌, nat_eq, Option, none, some, List, [],
  ◌∷◌, ◌==◌, ltb, leb, if◌then◌else◌, pos, negsuc, int_eq, to_int, Result, ok, error, ◌>>=◌, ◌>>◌,
  guard, or_error,
}
use system_apex.ApexFile.{ApexFile}

abbrev pub vb_meta_max_size : ℕ
vb_meta_max_size = 64 * 1024

-- libavb's constants.
abbrev pub avb_footer_size : ℕ
avb_footer_size = 64

pub record AvbFooter : Type 0 where
  pub vbmeta_offset : ℕ
  pub vbmeta_size : ℕ

pub data AvbVbMetaVerifyResult : Type 0 where
  verify_ok ok_not_signed invalid_vbmeta_header unsupported_version : AvbVbMetaVerifyResult
  hash_mismatch signature_mismatch other : AvbVbMetaVerifyResult

pub data Tag : Type 0 where
  hashtree_tag other_tag : Tag

-- `AvbHashtreeDescriptor` in host byte order, with the text that trails it.
pub record HashtreeDescriptor : Type 0 where
  pub dm_verity_version : ℕ
  pub image_size : ℕ
  pub tree_offset : ℕ
  pub data_block_size : ℕ
  pub hash_block_size : ℕ
  pub hash_algorithm : String
  pub tree_size : ℕ
  pub salt : String
  pub root_digest : String

-- A descriptor of vbmeta: its position, its header if that validates, and its body read as a hash
-- tree descriptor if that validates.
pub record AvbDescriptor : Type 0 where
  pub position : ℕ
  pub header : Option Tag
  pub body : Option HashtreeDescriptor

-- libavb, and the file that open(2) of a path gives.
pub record Avb : Type 0 where
  pub footer_validate : String → Option AvbFooter
  pub vbmeta_image_verify : String → AvbVbMetaVerifyResult × String
  pub descriptor_get_all : String → List AvbDescriptor
  pub hashtree_descriptor_size : ℕ
  -- read(2) at an offset, of a length, from the file at a path
  pub open_file : String → Option (ℕ → ℕ → Option String)

pub record ApexVerityData : Type 0 where
  pub desc : HashtreeDescriptor
  pub open desc use {tree_size, root_digest, salt}

abbrev pub File : Type 0
File = ℕ → ℕ → Option String

-- The sum is a `size_t`; lseek takes an `off_t`, and its answer is stored in an `int`.
unfoldable pub get_avb_footer : Avb → ApexFile → File → Result AvbFooter
get_avb_footer avb apex fd = do
  size ← or_error apex.image_size "Cannot check avb footer without image offset and size"
  offset ← or_error apex.image_offset "Cannot check avb footer without image offset and size"
  let at = (size + offset + 2 ^ 64 - avb_footer_size) % 2 ^ 64
  guard (ltb at (2 ^ 63) && not (int_eq (to_int (pos at)) (negsuc 0))) "Couldn't seek to AVB footer"
  footer_data ← or_error (fd at avb_footer_size) "Couldn't read AVB footer"
  or_error (avb.footer_validate footer_data) "AVB footer verification failed."

-- `CompareKeys`: length and memcmp.
unfoldable pub compare_keys : String → String → Bool
compare_keys key public_key_content = public_key_content == key

unfoldable pub signature_result : AvbVbMetaVerifyResult → String → String → Result String
signature_result verify_ok path pk = ok pk
signature_result ok_not_signed path pk = error (append "Error verifying " path)
signature_result hash_mismatch path pk = error (append "Error verifying " path)
signature_result signature_mismatch path pk = error (append "Error verifying " path)
signature_result invalid_vbmeta_header path pk =
    error (append "Error verifying " (append path ": invalid vbmeta header"))
signature_result unsupported_version path pk =
    error (append "Error verifying " (append path ": unsupported version"))
signature_result other path pk = error "Unknown vmbeta_image_verify return value"

-- The public key that vbmeta is signed with.
unfoldable pub verify_vb_meta_signature : Avb → ApexFile → String → Result String
verify_vb_meta_signature avb apex vbmeta =
    let (res, pk) = avb.vbmeta_image_verify vbmeta in signature_result res apex.apex_path pk

-- The vbmeta that was read, if it is signed by `public_key`. The offset is an `off_t`: nothing is read
-- at a negative one.
unfoldable pub verify_vb_meta : Avb → ApexFile → File → AvbFooter → String → Result String
verify_vb_meta avb apex fd footer public_key = do
  guard (leb footer.vbmeta_size vb_meta_max_size) "VbMeta size in footer exceeds kVbMetaMaxSize."
  image_offset ← or_error apex.image_offset "Cannot check VbMeta size without image offset"
  let offset = (image_offset + footer.vbmeta_offset) % 2 ^ 64
  guard (nat_eq footer.vbmeta_size 0 || ltb offset (2 ^ 63)) "Couldn't read AVB meta-data"
  vbmeta ← or_error (fd offset footer.vbmeta_size) "Couldn't read AVB meta-data"
  key ← verify_vb_meta_signature avb apex vbmeta
  guard (compare_keys key public_key) "public key doesn't match the pre-installed one"
  ok vbmeta

-- The loop of `FindDescriptor`.
unfoldable pub find_descriptor : ℕ → ℕ → List AvbDescriptor → Result AvbDescriptor
find_descriptor vbmeta_size size_of [] = error "Couldn't find any AVB hashtree descriptors."
find_descriptor vbmeta_size size_of (desc ∷ rest) =
    let later = find_descriptor vbmeta_size size_of rest in
    elim desc.header [
      | none ↦ error "Couldn't validate AvbDescriptor."
      | some other_tag ↦ later
      | some hashtree_tag ↦
          if ltb vbmeta_size (desc.position + size_of)
          then error "Invalid length for AvbHashtreeDescriptor"
          else ok desc
    ]

unfoldable pub verify_descriptor : AvbDescriptor → Result HashtreeDescriptor
verify_descriptor desc = or_error desc.body "Couldn't validate AvbDescriptor."

unfoldable pub verify_apex_verity : Avb → ApexFile → String → Result ApexVerityData
verify_apex_verity avb apex public_key = do
  guard (not apex.is_compressed) "Cannot verify ApexVerity of compressed APEX"
  fd ← or_error (avb.open_file apex.apex_path) (append "Failed to open " apex.apex_path)
  footer ← get_avb_footer avb apex fd
  vbmeta_data ← verify_vb_meta avb apex fd footer public_key
  descriptor ←
      find_descriptor footer.vbmeta_size avb.hashtree_descriptor_size
        (avb.descriptor_get_all vbmeta_data)
  verified ← verify_descriptor descriptor
  ok (record { desc = verified })
