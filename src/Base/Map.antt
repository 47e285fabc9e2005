-- ===== src/Base/Map.antt =====
-- std::map: an association list in the order of the keys, which are told apart by `operator<`
-- alone, as the standard's equivalence !(a < b) && !(b < a) says.
pub mod Laws
use kknf.Base.Tests.{ltb, if◌then◌else◌}
use Prim.Native.Nat.{ℕ}
use mathlib.Core.Path.{◌≡◌}
use mathlib.Core.Bool.{Bool, true, false}
use mathlib.Core.List.{List, [], ◌∷◌}
use mathlib.Core.Option.{Option, none, some}
use native.Mathlib.Omega.{arith}

-- A comparison that a map may use.
pub record Order {ℓ} (K : Type ℓ) : Type ℓ where
  pub lt : K → K → Bool
  pub lt_irrefl : (a : K) → lt a a ≡ false
  pub lt_trans : (a b c : K) → lt a b ≡ true → lt b c ≡ true → lt a c ≡ true
  pub lt_connex : (a b : K) → lt a b ≡ false → lt b a ≡ false → a ≡ b

-- The keys with the values, the least key first.
abbrev pub Map {ℓ κ} : Type ℓ → Type κ → Type (ℓ ⊔ κ)
Map K V = List (K × V)

module _ {ℓ} {K : Type ℓ} ⦃o : Order K⦄ where
  -- The standard's equivalence of keys.
  abbrev pub same : K → K → Bool
  same a b = if o.lt a b then false else if o.lt b a then false else true

  pub same-eq : (a b : K) → same a b ≡ true → a ≡ b
  same-eq a b h = ground (arith, o.lt_connex a b)

  pub same_refl : (a : K) → same a a ≡ true
  same_refl a = rw (o.lt_irrefl a)

  module _ {κ} {V : Type κ} where
    -- `find`, without the iterator.
    unfoldable pub find : K → Map K V → Option V
    find k [] = none
    find k ((j, v) ∷ m) = if same k j then some v else find k m

    -- `m[k] = v`, and `insert` where the key is new.
    unfoldable pub assign : K → V → Map K V → Map K V
    assign k v [] = (k, v) ∷ []
    assign k v ((j, w) ∷ m) =
        if o.lt k j
        then (k, v) ∷ (j, w) ∷ m
        else if o.lt j k
        then (j, w) ∷ assign k v m
        else (k, v) ∷ m

    unfoldable pub erase : K → Map K V → Map K V
    erase k [] = []
    erase k ((j, v) ∷ m) = let rest = erase k m in if same k j then rest else (j, v) ∷ rest

pub ltb_irrefl : (a : ℕ) → ltb a a ≡ false
ltb_irrefl a = ground arith

pub ltb_trans : (a b c : ℕ) → ltb a b ≡ true → ltb b c ≡ true → ltb a c ≡ true
ltb_trans a b c h g = ground arith

pub ltb_connex : (a b : ℕ) → ltb a b ≡ false → ltb b a ≡ false → a ≡ b
ltb_connex a b h g = ground arith

-- Maps from numbers.
instance abbrev pub number_order : Order ℕ
number_order = record {
  lt = ltb;
  lt_irrefl = ltb_irrefl;
  lt_trans = ltb_trans;
  lt_connex = ltb_connex;
}
