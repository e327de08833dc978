-- ===== src/Wire/Object/RoundTrip.antt =====
-- Object headers: the two directions of moqt-core/src/wire/object.rs.
use moqt_minimal.Prelude.{ℕ, true, false, List, ◌++◌, IsU64, length}
use moqt_minimal.Buffer.{Writes, Writes-bind}
use moqt_minimal.Buffer.{Reads, Reads-bind, Reads-last, Reads-pure, Reads-split, Reads-eq}
use moqt_minimal.Wire.Varint.{varint_bytes}
use moqt_minimal.Wire.Varint.RoundTrip.{Reads-varint, Writes-varint}
use moqt_minimal.Wire.Object.{ObjectHeader, encode, decode, skip_properties}
use moqt_minimal.Prelude.{ap, sym, append-nil, append_assoc}

abbrev pub IsValid : ObjectHeader → Type 0
IsValid h = IsU64 h.object_id_delta × IsU64 h.payload_length

abbrev pub object_header_bytes : ObjectHeader → List ℕ
object_header_bytes h = varint_bytes h.object_id_delta ++ varint_bytes h.payload_length

pub Writes-object_header : (h : ObjectHeader) → Writes (encode h) (object_header_bytes h)
unfolding encode
Writes-object_header h = Writes-bind (Writes-varint _) (Writes-varint _)

pub Reads-object_header :
    (h : ObjectHeader) → IsValid h → Reads (decode false) h (object_header_bytes h)
unfolding decode skip_properties
Reads-object_header h v =
    Reads-eq (ap (λ (t : List ℕ). varint_bytes h.object_id_delta ++ t) (append-nil _)) (
      Reads-bind _ _ (Reads-varint _ v.0)
        (Reads-bind _ _ (Reads-varint _ v.1) (Reads-last _ _ (Reads-pure tt))))

-- With properties between the lengths and the payload, `decode` reads the same header and takes
-- the properties off the buffer with it.
pub Reads-with_properties :
    (h : ObjectHeader) (props : List ℕ)
    → IsValid h
    → IsU64 (length props)
    → Reads (decode true) h (
        varint_bytes h.object_id_delta
        ++ (varint_bytes h.payload_length ++ (varint_bytes (length props) ++ props)))
unfolding decode skip_properties
Reads-with_properties h props v hp = Reads-bind _ _ (Reads-varint _ v.0) (
    Reads-bind _ _ (Reads-varint _ v.1)
      (Reads-last _ _ (Reads-bind _ _ (Reads-varint _ hp) (Reads-last _ _ (Reads-split props _)))))

-- An object header with fields in range is read back as it was written; with properties behind it,
-- it is read back too, and the properties are skipped.
pub object_header_round_trip :
    (h : ObjectHeader) (props : List ℕ)
    → IsValid h
    → IsU64 (length props)
    → (bytes : List ℕ) × Writes (encode h) bytes
      × Reads (decode false) h bytes
      × Reads (decode true) h (bytes ++ (varint_bytes (length props) ++ props))
object_header_round_trip h props v hp = (
  object_header_bytes h,
  Writes-object_header h,
  Reads-object_header h v,
  Reads-eq (sym (append_assoc (varint_bytes h.object_id_delta) (varint_bytes h.payload_length) _))
      (Reads-with_properties h props v hp),
)
