-- ===== src/Wire/Object/Ids.antt =====
-- Object IDs on a subgroup and the deltas that stand for them.
use moqt_minimal.Prelude.{
  ℕ, ◌+◌, ◌-◌, ◌<◌, ◌≡◌, ◌↔◌, refl, List, [], ◌∷◌, IsU64, arith, Option, none, some,
}
use moqt_minimal.Wire.Object.{resolve_object_id}
use moqt_minimal.Prelude.{ap}

-- The receiver's running reconstruction of the IDs of a stream's objects.
pub resolve_all : Option ℕ → List ℕ → List ℕ
unfolding resolve_object_id
resolve_all prev [] = []
resolve_all prev (delta ∷ deltas) =
    let id = resolve_object_id prev delta in id ∷ resolve_all (some id) deltas

-- The deltas that a sender of ascending IDs writes (the scheme of the module's comment).
abbrev pub deltas_of : Option ℕ → List ℕ → List ℕ
deltas_of prev [] = []
deltas_of none (id ∷ ids) = id ∷ deltas_of (some id) ids
deltas_of (some prev) (id ∷ ids) = (id - prev - 1) ∷ deltas_of (some id) ids

abbrev pub Follows : Option ℕ → ℕ → Type 0
Follows none id = Unit
Follows (some prev) id = prev < id

abbrev pub StrictlyAscending : Option ℕ → List ℕ → Type 0
StrictlyAscending prev [] = Unit
StrictlyAscending prev (id ∷ ids) = Follows prev id × IsU64 id × StrictlyAscending (some id) ids

-- The IDs of a stream whose IDs are strictly ascending u64s are recovered from its deltas.
pub resolve_all-deltas_of :
    (prev : Option ℕ) (ids : List ℕ)
    → StrictlyAscending prev ids
    → resolve_all prev (deltas_of prev ids) ≡ ids
unfolding resolve_all
resolve_all-deltas_of none [] h = refl
resolve_all-deltas_of (some prev) [] h = refl
resolve_all-deltas_of none (id ∷ ids) h =
    ap (λ (t : List ℕ). id ∷ t) (resolve_all-deltas_of (some id) ids h.2)
resolve_all-deltas_of (some prev) (id ∷ ids) h =
    let e : resolve_object_id (some prev) (id - prev - 1) ≡ id =
      unfold resolve_object_id in omega arith in
    rw e (ap (λ (t : List ℕ). id ∷ t) (resolve_all-deltas_of (some id) ids h.2))

-- The ID after `prev` lies above `prev` exactly if it does not pass the u64 range; past it, the ID
-- wraps round to a value at or below `prev`.
pub resolved_id_order :
    (prev delta : ℕ)
    → IsU64 prev
    → IsU64 delta
    → (prev < resolve_object_id (some prev) delta) ↔ IsU64 (prev + delta + 1)
unfolding resolve_object_id
resolved_id_order prev delta hp hd = (λ h. omega arith, λ h. omega arith)
