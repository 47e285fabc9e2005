-- ===== src/Base/Map/Laws.antt =====
-- What a map answers after an assignment or an erasure.
use kknf.Base.Tests.{if◌then◌else◌}
use kknf.Base.Map.{Order, Map, same, same-eq, find, assign, erase}
use mathlib.Core.Path.{◌≡◌, refl}
use mathlib.Core.List.{[], ◌∷◌}
use mathlib.Core.Option.{none, some}
use native.Mathlib.Omega.{arith}

module _ {ℓ κ} {K : Type ℓ} ⦃o : Order K⦄ {V : Type κ} where
  pub find-assign :
      (j k : K) (v : V) (m : Map K V)
      → find j (assign k v m) ≡ (if same j k then some v else find j m)
  unfolding find assign
  find-assign j k v [] = refl
  find-assign j k v ((i, w) ∷ m) = ground (
    arith,
    find-assign j k v m,
    same-eq j k,
    same-eq j i,
    o.lt_connex k i,
    o.lt_irrefl k,
    o.lt_irrefl i,
  )

  pub find-erase :
      (j k : K) (m : Map K V) → find j (erase k m) ≡ (if same j k then none else find j m)
  unfolding find erase
  find-erase j k [] = ground arith
  find-erase j k ((i, w) ∷ m) =
      ground (
        arith,
        find-erase j k m,
        same-eq j k,
        same-eq j i,
        same-eq k i,
        o.lt_irrefl k,
        o.lt_irrefl i,
      )
