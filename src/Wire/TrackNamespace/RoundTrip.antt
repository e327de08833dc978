-- ===== src/Wire/TrackNamespace/RoundTrip.antt =====
-- Namespaces: the two directions of moqt-core/src/wire/track_namespace.rs.
use moqt_minimal.Prelude.{ℕ, ◌≤◌, ◌≡◌, List, ◌++◌, length, le→leb, arith, IsU64, All}
use moqt_minimal.Buffer.{
  Writes, Writes-bind, Writes-push, Writes-ensure, Writes-pure, Reads, Reads-bind,
}
use moqt_minimal.Buffer.{Reads-last, Reads-ensure, Reads-split, Reads-pure, RoundTrips}
use moqt_minimal.Wire.Varint.{varint_bytes}
use moqt_minimal.Wire.Varint.RoundTrip.{Reads-varint, Writes-varint}
use moqt_minimal.Wire.TrackNamespace.{TrackNamespace, max_fields, encode_fields, decode_fields}
use moqt_minimal.Wire.TrackNamespace.{encode_track_namespace, decode_track_namespace}
use moqt_minimal.Prelude.{not, ◌∷◌, is_empty, [], lt→ltb, true, refl}

-- A field of at least one byte, of a length that a u64 holds.
abbrev pub IsField : List ℕ → Type 0
IsField f = (1 ≤ length f) × IsU64 (length f)

abbrev pub IsValid : TrackNamespace → Type 0
IsValid ns = (length ns.fields ≤ max_fields) × All IsField ns.fields

abbrev pub fields_bytes : List (List ℕ) → List ℕ
fields_bytes [] = []
fields_bytes (f ∷ fs) = varint_bytes (length f) ++ (f ++ fields_bytes fs)

abbrev pub namespace_bytes : TrackNamespace → List ℕ
namespace_bytes ns = varint_bytes (length ns.fields) ++ fields_bytes ns.fields

nonempty : (f : List ℕ) → 1 ≤ length f → not (is_empty f) ≡ true
nonempty [] h = absurd (omega arith)
nonempty (b ∷ bs) h = refl

Writes-fields : (fs : List (List ℕ)) → All IsField fs → Writes (encode_fields fs) (fields_bytes fs)
unfolding encode_fields
Writes-fields [] h = Writes-pure
Writes-fields (f ∷ fs) (hf, hfs) =
    Writes-bind (Writes-ensure _ _ (nonempty f hf.0))
      (Writes-bind (Writes-varint _) (Writes-bind (Writes-push f) (Writes-fields fs hfs)))

Reads-fields :
    (fs : List (List ℕ)) → All IsField fs → Reads (decode_fields (length fs)) fs (fields_bytes fs)
unfolding decode_fields
Reads-fields [] h = Reads-pure []
Reads-fields (f ∷ fs) (hf, hfs) = Reads-bind _ _ (Reads-varint (length f) hf.1) (
    Reads-bind _ _ (Reads-ensure _ _ (lt→ltb _ _ hf.0))
      (Reads-bind _ _ (Reads-split f _) (Reads-last _ _ (Reads-fields fs hfs))))

pub Writes-namespace :
    (ns : TrackNamespace) → IsValid ns → Writes (encode_track_namespace ns) (namespace_bytes ns)
unfolding encode_track_namespace
Writes-namespace ns h =
    Writes-bind (Writes-ensure _ _ (le→leb _ _ h.0))
      (Writes-bind (Writes-varint _) (Writes-fields ns.fields h.1))

pub Reads-namespace :
    (ns : TrackNamespace) → IsValid ns → Reads decode_track_namespace ns (namespace_bytes ns)
unfolding decode_track_namespace
Reads-namespace ns h = Reads-bind _ _ (Reads-varint (length ns.fields) (omega arith)) (
    Reads-bind _ _ (Reads-ensure _ _ (le→leb _ _ h.0))
      (Reads-last _ _ (Reads-fields ns.fields h.1)))

-- A namespace of at most 32 fields, none of them empty, is read back as it was written.
pub namespace_round_trip :
    (ns : TrackNamespace)
    → IsValid ns
    → RoundTrips (encode_track_namespace ns) decode_track_namespace ns
namespace_round_trip ns h = (namespace_bytes ns, Writes-namespace ns h, Reads-namespace ns h)
