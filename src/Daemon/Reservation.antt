-- ===== src/Daemon/Reservation.antt =====
-- apexd/apexd.cpp: the space that an update reserves for the decompression of its APEXes.
use system_apex.Base.{
  String, Bool, true, false, not, none, some, List, [], ◌∷◌, ◌≡◌, sym, ◌∙◌, find, Result, ok, ◌>>=◌,
  if◌then◌else◌, ℤ, pos, ltb_ℤ, int_eq, ◌+ℤ◌, +ℤ_assoc, arith, ◌||◌, keep_if, Bool-cases, inl, inr,
  ap,
}
use system_apex.ApexFile.{ApexFile}
use system_apex.Repository.{ApexFileRepository}
use system_apex.Repository.Queries.{
  has_pre_installed_version, has_data_version, get_data_apex, get_pre_installed_apex,
}
use system_apex.Activation.Select.{select_between}
use system_apex.Activation.Chosen.{Pair, select_between-rule}

-- `ShouldAllocateSpaceForDecompression`.
unfoldable pub should_allocate_space_for_decompression :
    String → ℤ → ApexFileRepository → Result Bool
should_allocate_space_for_decompression name version r =
    if not (has_pre_installed_version r name)
    then ok true
    else if not (has_data_version r name)
    then (get_pre_installed_apex r name >>= λ pre_installed.
        if not pre_installed.is_compressed
        then ok true
        else (get_pre_installed_apex r name >>= λ it. ok (not (int_eq version it.version))))
    else (get_data_apex r name >>= λ data_apex. ok (ltb_ℤ data_apex.version version))

-- `CalculateSizeForCompressedApex`, whose loop starts from a sum.
unfoldable pub calculate_size_for_compressed_apex :
    List (String × ℤ × ℤ) → ApexFileRepository → ℤ → Result ℤ
calculate_size_for_compressed_apex [] r result = ok result
calculate_size_for_compressed_apex ((name, version, size) ∷ rest) r result =
    should_allocate_space_for_decompression name version r >>= λ b.
    if b
    then calculate_size_for_compressed_apex rest r (result +ℤ size)
    else calculate_size_for_compressed_apex rest r result

-- Whether space is reserved, as a value: the decision never fails.
abbrev pub reserves : ApexFileRepository → String × ℤ × ℤ → Bool
reserves r (name, version, size) = elim (find r.pre_installed_store name) [
  | none ↦ true
  | some p ↦ elim (find r.data_store name) [
    | none ↦ not p.is_compressed || not (int_eq version p.version)
    | some d ↦ ltb_ℤ d.version version
  ]
]

abbrev pub total_size : List (String × ℤ × ℤ) → ℤ
total_size [] = pos 0
total_size ((name, version, size) ∷ rest) = size +ℤ total_size rest

should_allocate-reserves :
    (name : String) (version size : ℤ) (r : ApexFileRepository)
    → should_allocate_space_for_decompression name version r ≡ ok (reserves r (name, version, size))
unfolding should_allocate_space_for_decompression has_pre_installed_version has_data_version
    get_data_apex get_pre_installed_apex
should_allocate-reserves name version size r = ground arith

-- The calculation never fails, and adds to the sum that it starts from the sizes of just those
-- APEXes whose package has no pre-installed version, or whose version is higher than that of the
-- data APEX, or which replace, with no data APEX there, a pre-installed APEX that is not
-- compressed or has another version.
pub calculate_size-total :
    (apexes : List (String × ℤ × ℤ)) (r : ApexFileRepository) (result : ℤ)
    → calculate_size_for_compressed_apex apexes r result
      ≡ ok (result +ℤ total_size (keep_if (reserves r) apexes))
unfolding calculate_size_for_compressed_apex
calculate_size-total [] r result = ground arith
calculate_size-total ((name, version, size) ∷ rest) r result =
    let tail = total_size (keep_if (reserves r) rest) in
    rw (should_allocate-reserves name version size r)
      (elim (Bool-cases (reserves r (name, version, size))) [
        | inl e ↦
            rw (e)
              (calculate_size-total rest r (result +ℤ size) ∙ ap ok (+ℤ_assoc result size tail))
        | inr e ↦ rw (e) (calculate_size-total rest r result)
      ])

-- For a package with a pre-installed and a data APEX `d`, whose versions fit an `int` and which
-- provides no shared libraries, space is reserved for the compressed APEX `p` of an update just
-- where, once the update is installed, the selection for activation takes `p` and not `d`.
pub should_allocate-select_between :
    (r after : ApexFileRepository) (name : String) (p d : ApexFile)
    → has_pre_installed_version r name ≡ true
    → find r.data_store name ≡ some d
    → Pair after p d
    → p.manifest.provide_shared_apex_libs ≡ false
    → d.manifest.provide_shared_apex_libs ≡ false
    → (reserved : Bool) × (should_allocate_space_for_decompression name p.version r ≡ ok reserved)
      × (select_between after p d ≡ (if reserved then p ∷ [] else d ∷ []))
unfolding should_allocate_space_for_decompression has_data_version get_data_apex
should_allocate-select_between r after name p d pre on_data pair np nd = (
  ltb_ℤ d.version p.version,
  ground arith,
  select_between-rule after p d pair (np ∙ sym nd) ∙ ground arith,
)
