-- ===== src/ApexFile/Opened.antt =====
-- What `ApexFile::Open` promises of a package that it accepts.
use system_apex.Base.{
  ℕ, String, ◌≡◌, ◌≢◌, Bool, true, false, inl, inr, Option, none, some, pos, ok, arith, eq_iff,
  int_eq_iff, is_some, Bool-cases,
}
use system_apex.ApexFile.{
  ApexManifest, ApexFile, Package, Decoders, Image, parse_manifest, locate_image, open_package,
}

parse_manifest-valid :
    (d : Decoders) (content : String) (m : ApexManifest)
    → parse_manifest d content ≡ ok m
    → (d.parse_proto content ≡ some m) × (m.name ≢ "") × (m.version ≢ pos 0)
unfolding parse_manifest
parse_manifest-valid d content m h = ground (arith, eq_iff m.name "", int_eq_iff m.version (pos 0))

-- A compressed package has no image; any other has one, and a file system that was recognised.
abbrev pub ImageFits : Bool → Option ℕ → Option ℕ → Option String → Type 0
ImageFits true offset size fs = (offset ≡ none) × (size ≡ none) × (fs ≡ none)
ImageFits false offset size fs =
    (is_some offset ≡ true) × (is_some size ≡ true) × (is_some fs ≡ true)

pub record IsWellFormed (d : Decoders) (path : String) (p : Package) (a : ApexFile) : Type 0 where
  pub named : a.name ≢ ""
  pub versioned : a.version ≢ pos 0
  pub real : d.realpath path ≡ some a.apex_path
  pub compressed : a.is_compressed ≡ is_some p.original_apex
  pub plain_libs : a.is_compressed ≡ true → a.manifest.provide_shared_apex_libs ≡ false
  pub image : ImageFits a.is_compressed a.image_offset a.image_size a.fs_type

locate_image-fits :
    (p : Package) (path : String) (i : Image)
    → locate_image p path ≡ ok i
    → ImageFits (is_some p.original_apex) i.0 i.1 i.2
unfolding locate_image
locate_image-fits p path i h = elim (Bool-cases (is_some p.original_apex)) [
  | inl e ↦ rw e (ground arith)
  | inr e ↦ rw e (ground arith)
]

-- A package that opens has a name and a version other than 0, stands under its real path, is
-- compressed just if it holds an original APEX, provides no shared libraries if it is compressed,
-- and has an image with offset, size and file system just if it is not.
pub open_package-IsWellFormed :
    (d : Decoders) (path : String) (p : Package) (a : ApexFile)
    → open_package d path p ≡ ok a
    → IsWellFormed d path p a
unfolding open_package
open_package-IsWellFormed d path p a h = grind (arith, locate_image-fits, parse_manifest-valid)
