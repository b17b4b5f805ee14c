-- ===== src/ApexFile/Genuine.antt =====
-- What `VerifyApexVerity` establishes of the package that it accepts.

use system_apex.Base.{
  ℕ, ◌+◌, ◌-◌, ◌%◌, ◌^◌, ◌≤◌, ◌≡◌, refl, String, false, Option, none, some, List, [], ◌∷◌, Result,
  ok, error, abort, arith, inl, inr, eq_iff, Option-cases, Result-cases,
}
use system_apex.ApexFile.{ApexFile}
use system_apex.ApexFile.Verity.{
  Avb, AvbFooter, AvbDescriptor, Tag, other_tag, hashtree_tag, verify_ok, ApexVerityData, File,
  vb_meta_max_size, avb_footer_size, verify_apex_verity, verify_vb_meta, find_descriptor,
  verify_descriptor, get_avb_footer, verify_vb_meta_signature, signature_result, compare_keys,
}

-- `d` is the first hash tree descriptor: the ones before it validate and are of another kind.
pub data FirstHashtree (d : AvbDescriptor) : List AvbDescriptor → Type 0 where
  here : (ds : List AvbDescriptor) → d.header ≡ some hashtree_tag → FirstHashtree d (d ∷ ds)
  later :
      (e : AvbDescriptor) (ds : List AvbDescriptor)
      → e.header ≡ some other_tag
      → FirstHashtree d ds
      → FirstHashtree d (e ∷ ds)

find_descriptor-first :
    (n s : ℕ) (ds : List AvbDescriptor) (d : AvbDescriptor)
    → find_descriptor n s ds ≡ ok d
    → FirstHashtree d ds × (d.position + s ≤ n)
unfolding find_descriptor
find_descriptor-first n s [] d h = cc
find_descriptor-first n s (x ∷ xs) d h = by_header (find_descriptor-first n s xs d) x.header refl
  where
    by_header :
        (find_descriptor n s xs ≡ ok d → FirstHashtree d xs × (d.position + s ≤ n))
        → (o : Option Tag) → x.header ≡ o
        → FirstHashtree d (x ∷ xs) × (d.position + s ≤ n)
    by_header rest none e = cc (rw e at h)
    by_header rest (some other_tag) e = let r = rest (ground arith) in (later x xs e r.0, r.1)
    by_header rest (some hashtree_tag) e =
        let same : x ≡ d = ground arith in
        let fits : x.position + s ≤ n = ground arith in rw (← same) (here xs e, fits)

-- The footer is the one that the file holds where the image ends, and libavb accepts it.
pub record HasFooter (avb : Avb) (apex : ApexFile) (fd : File) (footer : AvbFooter) : Type 0 where
  pub size : ℕ
  pub offset : ℕ
  pub image_size : apex.image_size ≡ some size
  pub image_offset : apex.image_offset ≡ some offset
  pub footer_data : String
  pub footer_read :
      fd ((size + offset + 2 ^ 64 - avb_footer_size) % 2 ^ 64) avb_footer_size ≡ some footer_data
  pub valid : avb.footer_validate footer_data ≡ some footer

get_avb_footer-HasFooter :
    (avb : Avb) (apex : ApexFile) (fd : File) (footer : AvbFooter)
    → get_avb_footer avb apex fd ≡ ok footer
    → HasFooter avb apex fd footer
unfolding get_avb_footer
get_avb_footer-HasFooter avb apex fd footer h = elim (Option-cases apex.image_size) [
  | inl none' ↦ absurd (ground arith)
  | inr (size, sized) ↦ elim (Option-cases apex.image_offset) [
    | inl none' ↦ absurd (ground arith)
    | inr (offset, placed) ↦
        elim (Option-cases
          (fd ((size + offset + 2 ^ 64 - avb_footer_size) % 2 ^ 64) avb_footer_size)) [
            | inl none' ↦ absurd (ground arith)
            | inr (bytes, there) ↦ record {
              size = size;
              offset = offset;
              image_size = sized;
              image_offset = placed;
              footer_data = bytes;
              footer_read = there;
              valid = ground arith;
            }
          ]
  ]
]

-- vbmeta is what the file holds at the offset of the footer within the image, in the footer's size.
abbrev pub IsVbMetaOf : File → AvbFooter → ℕ → String → Type 0
IsVbMetaOf fd footer offset vbmeta =
    (fd ((offset + footer.vbmeta_offset) % 2 ^ 64) footer.vbmeta_size ≡ some vbmeta)
    × (footer.vbmeta_size ≤ vb_meta_max_size)

verify_vb_meta-signed :
    (avb : Avb) (apex : ApexFile) (fd : File) (footer : AvbFooter) (offset : ℕ)
    (key vbmeta : String)
    → apex.image_offset ≡ some offset
    → verify_vb_meta avb apex fd footer key ≡ ok vbmeta
    → (avb.vbmeta_image_verify vbmeta ≡ (verify_ok, key)) × IsVbMetaOf fd footer offset vbmeta
unfolding verify_vb_meta verify_vb_meta_signature signature_result compare_keys
verify_vb_meta-signed avb apex fd footer offset key vbmeta placed h =
    ground (arith, eq_iff key (avb.vbmeta_image_verify vbmeta).1)

-- The package is signed by the key: the vbmeta that its file holds, where the footer at the end of
-- the image tells, carries a valid signature by that very key, and the hash tree data come from the
-- first hash tree descriptor of the signed bytes, which ends within them.
pub record IsSignedBy (avb : Avb) (apex : ApexFile) (key : String) (d : ApexVerityData)
    : Type 0 where
  pub plain : apex.is_compressed ≡ false
  pub fd : File
  pub opened : avb.open_file apex.apex_path ≡ some fd
  pub footer : AvbFooter
  pub has_footer : HasFooter avb apex fd footer
  pub vbmeta : String
  pub within : IsVbMetaOf fd footer has_footer.offset vbmeta
  pub signed : avb.vbmeta_image_verify vbmeta ≡ (verify_ok, key)
  pub descriptor : AvbDescriptor
  pub first : FirstHashtree descriptor (avb.descriptor_get_all vbmeta)
  pub fits : descriptor.position + avb.hashtree_descriptor_size ≤ footer.vbmeta_size
  pub body : descriptor.body ≡ some d.desc

-- Where the verification of a package against a key succeeds, the package is not compressed; the
-- file at its path holds a valid footer where the image ends; what the file holds at the offset
-- that the footer tells carries a valid signature by that very key; and the data that are returned
-- come from the first hash tree descriptor of these signed bytes, which ends within them.
pub verify_apex_verity-IsSignedBy :
    (avb : Avb) (apex : ApexFile) (key : String) (d : ApexVerityData)
    → verify_apex_verity avb apex key ≡ ok d
    → IsSignedBy avb apex key d
unfolding verify_apex_verity verify_descriptor
verify_apex_verity-IsSignedBy avb apex key d h =
    elim (Option-cases (avb.open_file apex.apex_path)) [
      | inl closed ↦ absurd (ground arith)
      | inr (fd, opened) ↦ elim (Result-cases (get_avb_footer avb apex fd)) [
        | inr bad ↦ absurd (ground arith)
        | inl (footer, found) ↦ elim (Result-cases (verify_vb_meta avb apex fd footer key)) [
          | inr bad ↦ absurd (ground arith)
          | inl (vbmeta, good) ↦
              from_descriptor footer vbmeta opened found good
                (find_descriptor footer.vbmeta_size avb.hashtree_descriptor_size
                  (avb.descriptor_get_all vbmeta))
                refl
        ]
      ]
    ]
  where
    from_descriptor :
        {fd : File} (footer : AvbFooter) (vbmeta : String)
        → avb.open_file apex.apex_path ≡ some fd
        → get_avb_footer avb apex fd ≡ ok footer
        → verify_vb_meta avb apex fd footer key ≡ ok vbmeta
        → (r : Result AvbDescriptor)
        → find_descriptor footer.vbmeta_size avb.hashtree_descriptor_size
            (avb.descriptor_get_all vbmeta)
          ≡ r
        → IsSignedBy avb apex key d
    from_descriptor footer vbmeta opened found good (error e) chosen = absurd (ground arith)
    from_descriptor footer vbmeta opened found good abort chosen = absurd (ground arith)
    from_descriptor {fd} footer vbmeta opened found good (ok desc) chosen =
        let has = get_avb_footer-HasFooter avb apex fd footer found in
        let (signed, within) =
          verify_vb_meta-signed avb apex fd footer has.offset key vbmeta has.image_offset good in
        let (first, fits) = find_descriptor-first _ _ _ desc chosen in
        record {
          plain = ground arith;
          fd = fd;
          opened = opened;
          footer = footer;
          has_footer = has;
          vbmeta = vbmeta;
          within = within;
          signed = signed;
          descriptor = desc;
          first = first;
          fits = fits;
          body = ground arith;
        }
