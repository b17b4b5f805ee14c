-- ===== src/Examples/Packages.antt =====
-- One package, opened and verified.
use system_apex.Base.{true, none, some, [], ◌∷◌, refl, pos, to_int}
use system_apex.ApexFile.{
  Package, Decoders, open_package, locate_image, read_pubkey, parse_manifest, retrieve_fs_type,
  bytes_eq,
}
use system_apex.ApexFile.Opened.{IsWellFormed, open_package-IsWellFormed}
use system_apex.ApexFile.Verity.{
  Avb, HashtreeDescriptor, Tag, verify_apex_verity, get_avb_footer, verify_vb_meta,
  verify_vb_meta_signature, signature_result, compare_keys, find_descriptor, verify_descriptor,
  verify_ok,
}
use system_apex.ApexFile.Genuine.{IsSignedBy, verify_apex_verity-IsSignedBy}
use system_apex.Examples.{manifest_of, system_tz}

abbrev decoders : Decoders
decoders = record { parse_proto = λ s. some (manifest_of "tz" (pos 1)); realpath = λ p. some p }

-- Its image starts with the magic bytes of ext4.
abbrev pub package_tz : Package
package_tz = record {
  readable = true;
  is_archive = true;
  original_apex = none;
  payload_image = some (4096, 8192);
  manifest_entry = some (some "manifest");
  pubkey_entry = some (some "key");
  read_at = λ offset length. some (0o123 ∷ 0o357 ∷ []);
}

open_package-IsWellFormed_example :
    IsWellFormed decoders "/system/apex/tz.apex" package_tz system_tz
unfolding open_package locate_image read_pubkey parse_manifest retrieve_fs_type bytes_eq
open_package-IsWellFormed_example =
    open_package-IsWellFormed decoders "/system/apex/tz.apex" package_tz system_tz refl

abbrev hashtree : HashtreeDescriptor
hashtree = record {
  dm_verity_version = 1;
  image_size = 4096;
  tree_offset = 4096;
  data_block_size = 4096;
  hash_block_size = 4096;
  hash_algorithm = "sha256";
  tree_size = 4096;
  salt = "00";
  root_digest = "d1";
}

abbrev pub avb_of_tz : Avb
avb_of_tz = record {
  footer_validate = λ s. some (record { vbmeta_offset = 4096; vbmeta_size = 256 });
  vbmeta_image_verify = λ s. (verify_ok, "key");
  descriptor_get_all =
      λ s. record { position = 0; header = some Tag.hashtree_tag; body = some hashtree } ∷ [];
  hashtree_descriptor_size = 180;
  open_file = λ path. some (λ offset length. some "vbmeta");
}

verify_apex_verity-IsSignedBy_example :
    IsSignedBy avb_of_tz system_tz "key" (record { desc = hashtree })
unfolding verify_apex_verity get_avb_footer verify_vb_meta verify_vb_meta_signature signature_result
    compare_keys find_descriptor verify_descriptor to_int
verify_apex_verity-IsSignedBy_example =
    verify_apex_verity-IsSignedBy avb_of_tz system_tz "key" (record { desc = hashtree }) refl
