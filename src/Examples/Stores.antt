-- ===== src/Examples/Stores.antt =====
-- The repository and the selection for activation at a package with two versions.
use system_apex.Base.{
  true, [], ◌∷◌, ◌≡◌, refl, inl, find, assign, pos, is_ok, ok, ◌^◌, arith, to_int, Bool,
  if◌then◌else◌,
}
use system_apex.Text.{ends_with}
use system_apex.Repository.Queries.{
  has_pre_installed_version, is_pre_installed_apex, get_public_key, all_apex_files_by_name,
  is_decompressed_apex, group_by_name, values, get_pre_installed_apex_files, get_data_apex_files,
}
use system_apex.Repository.Data.{add_data_apex, acceptable}
use system_apex.Repository.Scan.{add_pre_installed_apex}
use system_apex.Repository.Trust.{AllTrusted, add_data_apex-AllTrusted}
use system_apex.Repository.Keyed.{StoresKeyed, add_pre_installed_apex-StoresKeyed}
use system_apex.Repository.Highest.{AtLeast, add_data_apex-highest}
use system_apex.Repository.Grouping.{named}
use system_apex.Activation.Select.{
  select_apex_for_activation, select_between, select_group, select_apex,
}
use system_apex.Activation.Chosen.{
  Pair, choice, select_apex_for_activation-total, select_apex_for_activation-named,
  select_between-rule, select_between-narrowed,
}
use system_apex.Daemon.Reservation.{
  should_allocate_space_for_decompression, should_allocate-select_between,
}
use system_apex.Examples.{
  apex_at, system_tz, data_tz, newer_tz, no_apexes, factory_repo, repo, updated_repo, device,
}

nothing-AllTrusted : AllTrusted factory_repo
unfolding find
nothing-AllTrusted = record { at = λ name a h. cc }

pub repo-StoresKeyed : StoresKeyed repo
unfolding find
repo-StoresKeyed = record { pre = (refl, refl, tt); data_apexes = (refl, refl, tt) }

nothing-StoresKeyed : StoresKeyed no_apexes
nothing-StoresKeyed = record { pre = tt; data_apexes = tt }

add_data_apex-AllTrusted_example :
    AllTrusted (add_data_apex device factory_repo "/data/apex/active").1
add_data_apex-AllTrusted_example =
    add_data_apex-AllTrusted device factory_repo "/data/apex/active" nothing-AllTrusted

add_data_apex-highest_example :
    AtLeast (find (add_data_apex device factory_repo "/data/apex/active").1.data_store "tz") (pos 2)
unfolding acceptable has_pre_installed_version get_public_key find ends_with
add_data_apex-highest_example =
    add_data_apex-highest device factory_repo "/data/apex/active"
      ("/data/apex/active/tz@2.apex" ∷ []) "/data/apex/active/tz@2.apex" data_tz refl refl
      (inl refl) refl refl

add_pre_installed_apex-StoresKeyed_example :
    StoresKeyed (add_pre_installed_apex device no_apexes ("/system/apex" ∷ [])).1
add_pre_installed_apex-StoresKeyed_example =
    add_pre_installed_apex-StoresKeyed device no_apexes ("/system/apex" ∷ []) nothing-StoresKeyed

select_apex_for_activation-total_example :
    is_ok (select_apex_for_activation (all_apex_files_by_name repo) repo) ≡ true
select_apex_for_activation-total_example = select_apex_for_activation-total repo repo-StoresKeyed

select_apex_for_activation-named_example :
    named "tz" (data_tz ∷ [])
    ≡ choice repo (find repo.pre_installed_store "tz") (find repo.data_store "tz")
unfolding select_apex_for_activation all_apex_files_by_name group_by_name values
    get_pre_installed_apex_files get_data_apex_files select_group select_between select_apex
    has_pre_installed_version is_pre_installed_apex is_decompressed_apex to_int find assign
select_apex_for_activation-named_example =
    select_apex_for_activation-named repo "tz" (data_tz ∷ []) repo-StoresKeyed refl

tz-Pair : Pair repo system_tz data_tz
unfolding is_pre_installed_apex is_decompressed_apex find
tz-Pair = record { pre = refl; on_data = refl; p_fits = ground arith; d_fits = ground arith }

updated-Pair : Pair updated_repo newer_tz data_tz
unfolding is_pre_installed_apex is_decompressed_apex find
updated-Pair = record { pre = refl; on_data = refl; p_fits = ground arith; d_fits = ground arith }

select_between-rule_example : select_between repo system_tz data_tz ≡ data_tz ∷ []
select_between-rule_example = select_between-rule repo system_tz data_tz tz-Pair refl

-- Two APEXes of the version 2 ^ 31.
select_between-narrowed_example :
    select_between repo
      (apex_at "/system/apex/tz.apex" "tz" (pos (2 ^ 31)))
      (apex_at "/data/apex/active/tz.apex" "tz" (pos (2 ^ 31)))
    ≡ apex_at "/system/apex/tz.apex" "tz" (pos (2 ^ 31))
      ∷ apex_at "/data/apex/active/tz.apex" "tz" (pos (2 ^ 31))
      ∷ []
select_between-narrowed_example =
    select_between-narrowed repo (apex_at "/system/apex/tz.apex" "tz" (pos (2 ^ 31)))
      (apex_at "/data/apex/active/tz.apex" "tz" (pos (2 ^ 31))) (2 ^ 31) (ground arith) refl refl
      refl refl

should_allocate-select_between_example :
    (reserved : Bool) × (should_allocate_space_for_decompression "tz" (pos 3) repo ≡ ok reserved)
    × (select_between updated_repo newer_tz data_tz
        ≡ (if reserved then newer_tz ∷ [] else data_tz ∷ []))
unfolding has_pre_installed_version find
should_allocate-select_between_example =
    should_allocate-select_between repo updated_repo "tz" newer_tz data_tz refl refl updated-Pair
      refl refl
