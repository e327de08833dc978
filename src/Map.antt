-- ===== src/Map.antt =====
-- The maps of the program, std::collections::HashMap, as association lists. The order in which
-- the program's maps list their values is not fixed; no theorem depends on it.
pub mod Laws
use moqt_minimal.Prelude.{Bool, true, false, Option, none, some, List, [], ◌∷◌, ◌≡◌, ◌↔◌}
use moqt_minimal.Prelude.{if◌then◌else◌}

-- `Eq` of a key type.
pub record Key (K : Type 0) : Type 0 where
  pub same : K → K → Bool
  pub same_iff : (a b : K) → (same a b ≡ true) ↔ (a ≡ b)

abbrev pub Map : Type 0 → Type 0 → Type 0
Map K V = List (K × V)

abbrev pub and_then : {A B : Type 0} → Option A → (A → Option B) → Option B
and_then none f = none
and_then (some a) f = f a

module _ {K V : Type 0} ⦃key : Key K⦄ where
  unfoldable pub get : K → Map K V → Option V
  get k [] = none
  get k ((j, v) ∷ m) = if key.same j k then some v else get k m

  unfoldable pub remove : K → Map K V → Map K V
  remove k [] = []
  remove k ((j, v) ∷ m) = let rest = remove k m in if key.same j k then rest else (j, v) ∷ rest

  unfoldable pub insert : K → V → Map K V → Map K V
  unfolding remove
  insert k v m = (k, v) ∷ remove k m

  -- What is done to a value through `get_mut`.
  unfoldable pub modify : K → (V → V) → Map K V → Map K V
  modify k f [] = []
  modify k f ((j, v) ∷ m) = (j, if key.same j k then f v else v) ∷ modify k f m

  -- `retain`, whose test may change the value that stays.
  unfoldable pub retain : (V → Option V) → Map K V → Map K V
  retain f [] = []
  retain f ((j, v) ∷ m) =
      let rest = retain f m in elim (f v) [ none ↦ rest | some u ↦ (j, u) ∷ rest ]

  -- `entry(k).or_insert_with(…)`, the value then changed.
  unfoldable pub upsert : K → V → (V → V) → Map K V → Map K V
  unfolding get insert modify
  upsert k fresh f m = elim (get k m) [ none ↦ insert k (f fresh) m | some v ↦ modify k f m ]

unfoldable pub values : {K V : Type 0} → Map K V → List V
values [] = []
values ((j, v) ∷ m) = v ∷ values m
