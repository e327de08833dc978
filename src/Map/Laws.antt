-- ===== src/Map/Laws.antt =====
-- What a lookup finds after each operation on a map.
use moqt_minimal.Prelude.{Option, none, some, [], ◌∷◌, ◌≡◌, refl, arith, ap, sym, ◌∙◌}
use moqt_minimal.Prelude.{if◌then◌else◌, Bool-cases, inl, inr}
use moqt_minimal.Map.{Key, Map, get, remove, insert, modify, retain, upsert, and_then}
use mathlib.Core.Option

module _ {K V : Type 0} ⦃key : Key K⦄ where
  pub get-remove :
      (i k : K) (m : Map K V) → get i (remove k m) ≡ (if key.same k i then none else get i m)
  unfolding get remove
  get-remove i k [] = ground arith
  get-remove i k ((j, v) ∷ m) =
      ground (arith, get-remove i k m, key.same_iff j i, key.same_iff j k, key.same_iff k i)

  pub get-insert :
      (i k : K) (v : V) (m : Map K V)
      → get i (insert k v m) ≡ (if key.same k i then some v else get i m)
  unfolding insert
  get-insert i k v m = unfold get in ground (arith, get-remove i k m)

  pub get-modify :
      (i k : K) (f : V → V) (m : Map K V)
      → get i (modify k f m) ≡ (if key.same k i then Option.map f (get i m) else get i m)
  unfolding get modify
  get-modify i k f [] = ground arith
  get-modify i k f ((j, v) ∷ m) =
      ground (arith, get-modify i k f m, key.same_iff j i, key.same_iff j k, key.same_iff k i)

  pub get-upsert :
      (i k : K) (fresh : V) (f : V → V) (m : Map K V)
      → get i (upsert k fresh f m) ≡ (
          if key.same k i then some (elim (get k m) [ none ↦ f fresh | some v ↦ f v ]) else get i m)
  unfolding upsert
  get-upsert i k fresh f m =
      ground (arith, get-insert i k (f fresh) m, get-modify i k f m, key.same_iff k i)

  -- No key stands twice.
  abbrev pub IsUnique : Map K V → Type 0
  IsUnique [] = Unit
  IsUnique ((j, v) ∷ m) = (get j m ≡ none) × IsUnique m

  pub remove-IsUnique : (k : K) (m : Map K V) → IsUnique m → IsUnique (remove k m)
  unfolding remove
  remove-IsUnique k [] u = tt
  remove-IsUnique k ((j, v) ∷ m) u = elim (Bool-cases (key.same j k)) [
    | inl e ↦ rw e (remove-IsUnique k m u.1)
    | inr e ↦ rw e (ground (arith, get-remove j k m), remove-IsUnique k m u.1)
  ]

  pub insert-IsUnique : (k : K) (v : V) (m : Map K V) → IsUnique m → IsUnique (insert k v m)
  unfolding insert
  insert-IsUnique k v m u =
      (ground (arith, get-remove k k m, key.same_iff k k), remove-IsUnique k m u)

  pub modify-IsUnique : (k : K) (f : V → V) (m : Map K V) → IsUnique m → IsUnique (modify k f m)
  unfolding modify
  modify-IsUnique k f [] u = tt
  modify-IsUnique k f ((j, v) ∷ m) u =
      (ground (arith, get-modify j k f m), modify-IsUnique k f m u.1)

  pub get-retain :
      (i : K) (f : V → Option V) (m : Map K V)
      → IsUnique m
      → get i (retain f m) ≡ and_then (get i m) f
  unfolding get retain
  get-retain i f [] u = refl
  get-retain i f ((j, v) ∷ m) u =
      let kept = get-retain i f m u.1 in
      elim (Bool-cases (key.same j i)) [
        | inl e ↦
            let absent : get i m ≡ none = ap (λ t. get t m) (sym ((key.same_iff j i).0 e)) ∙ u.0 in
            rw e
              (elim (f v)
                as (λ o. get i (elim o [ none ↦ retain f m | some w ↦ (j, w) ∷ retain f m ]) ≡ o) [
                  | none ↦ kept ∙ ap (λ o. and_then o f) absent
                  | some w ↦ rw e refl
                ])
        | inr e ↦
            rw e
              (elim (f v)
                as (λ o.
                  get i (elim o [ none ↦ retain f m | some w ↦ (j, w) ∷ retain f m ])
                  ≡ and_then (get i m) f) [ none ↦ kept | some w ↦ rw e kept ])
      ]

  pub retain-IsUnique : (f : V → Option V) (m : Map K V) → IsUnique m → IsUnique (retain f m)
  unfolding retain
  retain-IsUnique f [] u = tt
  retain-IsUnique f ((j, v) ∷ m) u =
      elim (f v) as (λ o. IsUnique (elim o [ none ↦ retain f m | some w ↦ (j, w) ∷ retain f m ])) [
        | none ↦ retain-IsUnique f m u.1
        | some w ↦ (get-retain j f m u.1 ∙ ap (λ o. and_then o f) u.0, retain-IsUnique f m u.1)
      ]

  pub upsert-IsUnique :
      (k : K) (fresh : V) (f : V → V) (m : Map K V) → IsUnique m → IsUnique (upsert k fresh f m)
  unfolding upsert
  upsert-IsUnique k fresh f m u =
      elim (get k m)
        as (λ o. IsUnique (elim o [ none ↦ insert k (f fresh) m | some v ↦ modify k f m ])) [
          | none ↦ insert-IsUnique k (f fresh) m u
          | some v ↦ modify-IsUnique k f m u
        ]
