-- ===== src/Stream/Data/Ending.antt =====
-- Where a data stream ends: after an object, inside the first number of an object, or inside its
-- payload.
use moqt_minimal.Prelude.{
  ℕ, ◌-◌, ◌<◌, ◌≡◌, ap, ◌∙◌, Bool, none, List, [], ◌∷◌, ◌++◌, length, length-append, append_assoc,
  IsU64, arith, lt→ltb,
}
use moqt_minimal.Buffer.{ok, err, stream_finished}
use moqt_minimal.Wire.Varint.{varint_bytes, varint_byte_length}
use moqt_minimal.Stream.Transport.{Transport, lift, failed, went_on}
use moqt_minimal.Stream.Frame.{read_varint, read_bytes}
use moqt_minimal.Stream.Frame.RoundTrip.{Pulls-varint, announced_length}
use moqt_minimal.Stream.Data.{
  DataStreamReader, read_object, read_properties, read_rest, object_read, after_delta,
}
use moqt_minimal.Stream.Data.Objects.{
  Object, IsValid, raw_header, properties_bytes, Pulls-properties,
}

module _ {R : Type 0} (t : Transport R) where
  short_bytes : (n : ℕ) (r : R) → length (t.pending r) < n → read_bytes t n r ≡ err stream_finished
  unfolding read_bytes
  short_bytes n r h = rw (lt→ltb 0 n (omega arith)) (t.ends r n h)

  -- Every proper prefix of an encoding, the empty one too, ends in ReadExactError.
  short_varint :
      (v : ℕ) (front : List ℕ) (x : ℕ) (back : List ℕ) (r : R)
      → IsU64 v
      → varint_bytes v ≡ front ++ (x ∷ back)
      → t.pending r ≡ front
      → read_varint t r ≡ err stream_finished
  unfolding read_varint lift
  short_varint v [] x back r h e p =
      failed (t.read_exact 1) _ r (t.ends r 1 (omega (arith, ap length p)))
  short_varint v (first ∷ more) x back r h e p =
      let (s, took, left) = t.delivers r (first ∷ []) more p in
      went_on (t.read_exact 1) _ took
      ∙ (went_on (lift (varint_byte_length first)) _ {s = s}
            (ap (λ m. lift m s) (announced_length v first (more ++ (x ∷ back)) h e))
          ∙ failed (read_bytes t _) _ s (
              short_bytes (length (first ∷ (more ++ (x ∷ back))) - 1) s
                (omega (arith, ap length left, length-append more (x ∷ back)))))

  -- `read_object` returns None, as at a regular end, when the stream ends inside the Object ID
  -- delta.
  pub read_object-truncated :
      (reader : DataStreamReader R) (v : ℕ) (front : List ℕ) (x : ℕ) (back : List ℕ)
      → IsU64 v
      → varint_bytes v ≡ front ++ (x ∷ back)
      → t.pending reader.stream ≡ front
      → read_object t reader ≡ ok (none, reader)
  unfolding read_object
  read_object-truncated reader v front x back h e p =
      ap (after_delta t reader) (short_varint v front x back reader.stream h e p)

  rest_cut :
      (b : Bool) (o : Object) (r : R) (front : List ℕ)
      → IsValid o
      → t.pending r ≡ varint_bytes (length o.payload) ++ (properties_bytes b o.properties ++ front)
      → length front < length o.payload
      → read_rest t b o.delta (varint_bytes o.delta) r ≡ err stream_finished
  unfolding read_rest
  rest_cut b o r front v p short =
      let (r1, e1, h1) = (Pulls-varint t (length o.payload) v.payload).on r _ p in
      let (r2, e2, h2) = (Pulls-properties t b o.properties v.properties).on r1 front h1 in
      went_on (read_varint t) _ e1
      ∙ (went_on (read_properties t b) _ e2
          ∙ failed (read_bytes t (length o.payload)) _ r2
              (short_bytes (length o.payload) r2 (omega (arith, ap length h2))))

  -- When the stream ends inside an object's payload, `read_object` returns an error.
  pub read_object-cut :
      (b : Bool) (o : Object) (r : R) (front : List ℕ)
      → IsValid o
      → t.pending r ≡ raw_header b o ++ front
      → length front < length o.payload
      → read_object t (record { stream = r; has_properties = b }) ≡ err stream_finished
  unfolding read_object
  read_object-cut b o r front v p short =
      let len = varint_bytes (length o.payload) in
      let props = properties_bytes b o.properties in
      let (r1, e1, h1) = (Pulls-varint t o.delta v.delta).on r (len ++ (props ++ front)) (
        p
        ∙ (append_assoc (varint_bytes o.delta) (len ++ props) front
            ∙ ap (λ (u : List ℕ). varint_bytes o.delta ++ u) (append_assoc len props front))) in
      ap (after_delta t (record { stream = r; has_properties = b })) e1
      ∙ ap (object_read t b) (rest_cut b o r1 front v h1 short)
