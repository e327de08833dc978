-- ===== src/Relay/Keys.antt =====
-- moqt-relay/src/relay.rs: the keys of the relay's maps, compared field by field as the derived
-- `PartialEq` does.
use moqt_minimal.Prelude.{
  ℕ, Bool, true, false, ◌&&◌, List, [], ◌∷◌, ◌≡◌, ◌↔◌, arith, ◌==◌, ==_iff, ap,
}
use moqt_minimal.Map.{Key}
use moqt_minimal.Wire.TrackNamespace.{TrackNamespace}

-- A full track name; `name` holds the bytes of the String.
pub record FullTrackName : Type 0 where
  pub namespace : TrackNamespace
  pub name : List ℕ

unfoldable pub same_bytes : List ℕ → List ℕ → Bool
same_bytes [] [] = true
same_bytes [] (b ∷ bs) = false
same_bytes (a ∷ as_) [] = false
same_bytes (a ∷ as_) (b ∷ bs) = a == b && same_bytes as_ bs

pub same_bytes_iff : (xs ys : List ℕ) → (same_bytes xs ys ≡ true) ↔ (xs ≡ ys)
unfolding same_bytes
same_bytes_iff [] [] = ground arith
same_bytes_iff [] (b ∷ bs) = ground arith
same_bytes_iff (a ∷ as_) [] = ground arith
same_bytes_iff (a ∷ as_) (b ∷ bs) = ground (arith, same_bytes_iff as_ bs, ==_iff a b)

unfoldable pub same_fields : List (List ℕ) → List (List ℕ) → Bool
same_fields [] [] = true
same_fields [] (f ∷ fs) = false
same_fields (e ∷ es) [] = false
same_fields (e ∷ es) (f ∷ fs) = same_bytes e f && same_fields es fs

same_fields_iff : (xs ys : List (List ℕ)) → (same_fields xs ys ≡ true) ↔ (xs ≡ ys)
unfolding same_fields
same_fields_iff [] [] = ground arith
same_fields_iff [] (f ∷ fs) = ground arith
same_fields_iff (e ∷ es) [] = ground arith
same_fields_iff (e ∷ es) (f ∷ fs) = ground (arith, same_fields_iff es fs, same_bytes_iff e f)

abbrev pub same_namespace : TrackNamespace → TrackNamespace → Bool
same_namespace a b = same_fields a.fields b.fields

pub same_namespace_iff : (a b : TrackNamespace) → (same_namespace a b ≡ true) ↔ (a ≡ b)
same_namespace_iff a b = (
  (λ e i. record { fields = (same_fields_iff a.fields b.fields).0 e i }),
  λ e. (same_fields_iff a.fields b.fields).1 (ap (λ (t : TrackNamespace). t.fields) e),
)

abbrev pub same_track : FullTrackName → FullTrackName → Bool
same_track a b = same_namespace a.namespace b.namespace && same_bytes a.name b.name

pub same_track_iff : (a b : FullTrackName) → (same_track a b ≡ true) ↔ (a ≡ b)
same_track_iff a b =
    ground (arith, same_namespace_iff a.namespace b.namespace, same_bytes_iff a.name b.name)

instance abbrev pub session_id_key : Key ℕ
session_id_key = record { same = ◌==◌; same_iff = ==_iff }

instance abbrev pub namespace_key : Key TrackNamespace
namespace_key = record { same = same_namespace; same_iff = same_namespace_iff }

instance abbrev pub track_key : Key FullTrackName
track_key = record { same = same_track; same_iff = same_track_iff }
