-- ===== src/Base/Dicts.antt =====
-- `std::map` and `std::unordered_map` with text keys, as association lists; the first entry counts.
use Prim.Native.String.{String}
use mathlib.Core.Path.{◌≡◌, refl}
use mathlib.Core.List.{List, [], ◌∷◌}
use mathlib.Core.Option.{Option, none, some}
use native.Mathlib.Omega.{arith}
use text.Mathlib.Text.{◌==◌}
use text.Mathlib.TextEquality.{eq_iff}
use system_apex.Base.Tests.{if◌then◌else◌}

abbrev pub Dict {ℓ} : Type ℓ → Type ℓ
Dict V = List (String × V)

module _ {ℓ} {V : Type ℓ} where
  -- `find`; `none` is `end()`.
  unfoldable pub find : Dict V → String → Option V
  find [] k = none
  find ((j, v) ∷ m) k = if j == k then some v else find m k

  -- `m[k] = v`.
  unfoldable pub assign : Dict V → String → V → Dict V
  assign [] k v = (k, v) ∷ []
  assign ((j, w) ∷ m) k v = if j == k then (k, v) ∷ m else (j, w) ∷ assign m k v

  -- `emplace`, which does not overwrite.
  unfoldable pub emplace : Dict V → String → V → Dict V
  emplace [] k v = (k, v) ∷ []
  emplace ((j, w) ∷ m) k v = if j == k then (j, w) ∷ m else (j, w) ∷ emplace m k v

  unfoldable pub erase : Dict V → String → Dict V
  erase [] k = []
  erase ((j, w) ∷ m) k = let rest = erase m k in if j == k then rest else (j, w) ∷ rest

  pub find-assign :
      (m : Dict V) (k j : String) (v : V)
      → find (assign m k v) j ≡ (if k == j then some v else find m j)
  unfolding find assign
  find-assign [] k j v = refl
  find-assign ((i, w) ∷ m) k j v =
      ground (arith, eq_iff k j, eq_iff i k, eq_iff i j, find-assign m k j v)

  -- what `emplace` leaves at its key
  abbrev pub or_new : Option V → V → Option V
  or_new none v = some v
  or_new (some w) v = some w

  pub find-emplace :
      (m : Dict V) (k j : String) (v : V)
      → find (emplace m k v) j ≡ (if k == j then or_new (find m k) v else find m j)
  unfolding find emplace
  find-emplace [] k j v = refl
  find-emplace ((i, w) ∷ m) k j v =
      ground (arith, eq_iff k j, eq_iff i k, eq_iff i j, find-emplace m k j v)

  pub find-erase :
      (m : Dict V) (k j : String) → find (erase m k) j ≡ (if k == j then none else find m j)
  unfolding find erase
  find-erase [] k j = ground arith
  find-erase ((i, w) ∷ m) k j = ground (arith, eq_iff k j, eq_iff i k, eq_iff i j, find-erase m k j)

pub ruleset dict_laws = (find-assign, find-emplace, find-erase)
