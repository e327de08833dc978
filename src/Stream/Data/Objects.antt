-- ===== src/Stream/Data/Objects.antt =====
-- The objects of a data stream: their bytes and the loop that reads them.
use moqt_minimal.Prelude.{
  ℕ, zero, suc, ◌≡◌, ap, ◌∙◌, Bool, true, false, none, some, List, [], ◌∷◌, ◌++◌, length,
  append_assoc, IsU64, arith,
}
use moqt_minimal.Buffer.{Result, ok, err, out_of_fuel}
use moqt_minimal.Wire.Varint.{varint_bytes}
use moqt_minimal.Stream.Transport.{Transport, Pulls, Pulls-bind, Pulls-last, Pulls-pure, failed}
use moqt_minimal.Stream.Frame.{read_varint}
use moqt_minimal.Stream.Frame.RoundTrip.{Pulls-varint, Pulls-read_bytes}
use moqt_minimal.Stream.Data.{
  DataStreamReader, RawObject, read_properties, read_rest, read_object, object_read, after_delta,
}
use moqt_minimal.Prelude.{All, map, ◌<◌}

-- An object as a publisher writes it; the properties count only where the header has the flag.
pub record Object : Type 0 where
  pub delta : ℕ
  pub properties : List ℕ
  pub payload : List ℕ

pub record IsValid (o : Object) : Type 0 where
  pub delta : IsU64 o.delta
  pub properties : IsU64 (length o.properties)
  pub payload : IsU64 (length o.payload)

abbrev pub properties_bytes : Bool → List ℕ → List ℕ
properties_bytes true properties = varint_bytes (length properties) ++ properties
properties_bytes false properties = []

abbrev pub raw_header : Bool → Object → List ℕ
raw_header has_properties o =
    varint_bytes o.delta
    ++ (varint_bytes (length o.payload) ++ properties_bytes has_properties o.properties)

abbrev pub object_bytes : Bool → Object → List ℕ
object_bytes has_properties o =
    varint_bytes o.delta
    ++ (varint_bytes (length o.payload)
        ++ (properties_bytes has_properties o.properties ++ o.payload))

abbrev pub as_read : Bool → Object → RawObject
as_read has_properties o = (
  record { object_id_delta = o.delta; payload_length = length o.payload },
  o.payload,
  raw_header has_properties o,
)

abbrev pub stream_bytes : Bool → List Object → List ℕ
stream_bytes has_properties [] = []
stream_bytes has_properties (o ∷ os) =
    object_bytes has_properties o ++ stream_bytes has_properties os

module _ {R : Type 0} (t : Transport R) where
  pub Pulls-properties :
      (b : Bool) (properties : List ℕ)
      → IsU64 (length properties)
      → Pulls t
          (read_properties t b)
          (properties_bytes b properties)
          (properties_bytes b properties)
  unfolding read_properties
  Pulls-properties true properties h =
      Pulls-bind t _ _ (Pulls-varint t _ h)
        (Pulls-last t _ _ (Pulls-read_bytes t properties) (Pulls-pure t _))
  Pulls-properties false properties h = Pulls-pure t []

  Pulls-rest :
      (b : Bool) (o : Object)
      → IsValid o
      → Pulls t
          (read_rest t b o.delta (varint_bytes o.delta))
          (as_read b o)
          (varint_bytes (length o.payload) ++ (properties_bytes b o.properties ++ o.payload))
  unfolding read_rest
  Pulls-rest b o v = Pulls-bind t _ _ (Pulls-varint t _ v.payload) (
      Pulls-bind t _ _ (Pulls-properties b o.properties v.properties)
        (Pulls-last t _ _ (Pulls-read_bytes t o.payload) (Pulls-pure t _)))

  pub read_object-next :
      (b : Bool) (o : Object) (r : R) (rest : List ℕ)
      → IsValid o
      → t.pending r ≡ object_bytes b o ++ rest
      → (s : R) × (read_object t (record { stream = r; has_properties = b })
          ≡ ok (some (as_read b o), record { stream = s; has_properties = b }))
        × (t.pending s ≡ rest)
  unfolding read_object
  read_object-next b o r rest v h =
      let tail =
        varint_bytes (length o.payload) ++ (properties_bytes b o.properties ++ o.payload) in
      let (r1, e1, h1) =
        (Pulls-varint t o.delta v.delta).on r (tail ++ rest)
          (h ∙ append_assoc (varint_bytes o.delta) tail rest) in
      let (r2, e2, h2) = (Pulls-rest b o v).on r1 rest h1 in
      (
        r2,
        ap (after_delta t (record { stream = r; has_properties = b })) e1 ∙ ap (object_read t b) e2,
        h2,
      )

-- What a stream that has come to its end gives.
module _ {R : Type 0} (t : Transport R) where
  pub read_object-end :
      (reader : DataStreamReader R)
      → t.pending reader.stream ≡ []
      → read_object t reader ≡ ok (none, reader)
  unfolding read_object read_varint
  read_object-end reader h = ap (after_delta t reader) (
      failed (t.read_exact 1) _ reader.stream (t.ends reader.stream 1 (omega (arith, ap length h))))

  -- `while let Some(object) = reader.read_object().await?`.
  abbrev pub add_object : RawObject → Result (List RawObject) → Result (List RawObject)
  add_object o (ok os) = ok (o ∷ os)
  add_object o (err e) = err e

  unfoldable pub read_all : ℕ → DataStreamReader R → Result (List RawObject)
  read_all zero reader = err out_of_fuel
  read_all (suc fuel) reader = elim (read_object t reader) [
    | err e ↦ err e
    | ok (none, reader) ↦ ok []
    | ok (some o, reader) ↦ add_object o (read_all fuel reader)
  ]

  read_all-end :
      (fuel : ℕ) (reader : DataStreamReader R)
      → read_object t reader ≡ ok (none, reader)
      → read_all (suc fuel) reader ≡ ok []
  unfolding read_all
  read_all-end fuel reader h = ground arith

  read_all-next :
      (fuel : ℕ) (reader next : DataStreamReader R) (o : RawObject)
      → read_object t reader ≡ ok (some o, next)
      → read_all (suc fuel) reader ≡ add_object o (read_all fuel next)
  unfolding read_all
  read_all-next fuel reader next o h = ground arith

  -- A data stream with one object after the other is read as these objects, in order, each with
  -- its payload and the very bytes of its header, and then as ended; one round more than there
  -- are objects is enough.
  pub objects_round_trip :
      (b : Bool) (os : List Object) (r : R) (fuel : ℕ)
      → length os < fuel
      → All IsValid os
      → t.pending r ≡ stream_bytes b os
      → read_all fuel (record { stream = r; has_properties = b }) ≡ ok (map (as_read b) os)
  objects_round_trip b os r zero enough v h = absurd (omega arith)
  objects_round_trip b [] r (suc fuel) enough v h = read_all-end fuel _ (read_object-end _ h)
  objects_round_trip b (o ∷ os) r (suc fuel) enough v h =
      let (s, e, left) = read_object-next t b o r (stream_bytes b os) v.0 h in
      read_all-next fuel _ _ _ e
      ∙ ap (add_object (as_read b o)) (objects_round_trip b os s fuel (omega arith) v.1 left)
