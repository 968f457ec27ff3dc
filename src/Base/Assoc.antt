-- ===== src/Base/Assoc.antt =====
-- `std::map` and `std::unordered_map` as association lists: `m[k] = v`, `m.find(k)`, `m.erase(k)`.
use mathlib.Core.Path.{◌≡◌, refl}
use mathlib.Core.Option.{Option, none, some}
use mathlib.Core.List.{List, [], ◌∷◌}
use native.Mathlib.Omega.{arith}
use hardware_driver.Base.Tests.{Eq, if◌then◌else◌}

module _ {ℓ κ} {K : Type ℓ} {V : Type κ} ⦃e : Eq K⦄ where
  unfoldable pub find : K → List (K × V) → Option V
  find k [] = none
  find k ((j, v) ∷ m) = if e.is_equal j k then some v else find k m

  unfoldable pub assign : K → V → List (K × V) → List (K × V)
  assign k v [] = (k, v) ∷ []
  assign k v ((j, w) ∷ m) = if e.is_equal j k then (k, v) ∷ m else (j, w) ∷ assign k v m

  unfoldable pub erase : K → List (K × V) → List (K × V)
  erase k [] = []
  erase k ((j, v) ∷ m) = if e.is_equal j k then erase k m else (j, v) ∷ erase k m

module _ {ℓ κ} {K : Type ℓ} {V : Type κ} ⦃e : Eq K⦄ where
  -- Reading after a write.
  pub find-assign :
      (k j : K) (v : V) (m : List (K × V))
      → find j (assign k v m) ≡ (if e.is_equal k j then some v else find j m)
  unfolding find assign
  find-assign k j v [] = refl
  find-assign k j v ((i, w) ∷ m) =
      ground
        (arith, e.is_equal_iff k j, e.is_equal_iff i k, e.is_equal_iff i j, find-assign k j v m)

  pub find-erase :
      (k j : K) (m : List (K × V))
      → find j (erase k m) ≡ (if e.is_equal k j then none else find j m)
  unfolding find erase
  find-erase k j [] = ground arith
  find-erase k j ((i, w) ∷ m) =
      ground (arith, e.is_equal_iff k j, e.is_equal_iff i k, e.is_equal_iff i j, find-erase k j m)

  pub find-assign_self : (k : K) (v : V) (m : List (K × V)) → find k (assign k v m) ≡ some v
  find-assign_self k v m = ground (arith, find-assign k k v m, e.is_equal_iff k k)
