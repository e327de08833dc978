-- ===== src/Session/Subgroups/Payloads.antt =====
-- The payloads of a SubgroupWriter and what a reader makes of them.
use moqt_minimal.Prelude.{
  ℕ, ◌<◌, ◌≡◌, refl, sym, ap, ◌∙◌, false, List, [], ◌∷◌, ◌++◌, length, map, arith, All, IsU64,
  append-nil, append_assoc,
}
use moqt_minimal.Buffer.{ok, Writes-bind, Writes-push}
use moqt_minimal.Wire.Varint.{varint_bytes}
use moqt_minimal.Wire.Object.RoundTrip.{Writes-object_header}
use moqt_minimal.Stream.Transport.{Transport}
use moqt_minimal.Stream.Data.{encode_object}
use moqt_minimal.Stream.Data.Objects.{
  Object, IsValid, as_read, object_bytes, stream_bytes, read_all, objects_round_trip,
}
use moqt_minimal.Session.Subgroups.{
  Call, write, fin, object, SubgroupWriter, new, write_object, used, drop_writer, payload_header,
  appended,
}

abbrev pub as_object : List ℕ → Object
as_object payload = record { delta = 0; properties = []; payload = payload }

-- What comes out of the stream's other end.
unfoldable pub sent_bytes : List Call → List ℕ
sent_bytes [] = []
sent_bytes (write bytes ∷ cs) = bytes ++ sent_bytes cs
sent_bytes (fin ∷ cs) = sent_bytes cs

pub written_object :
    (payload : List ℕ)
    → appended (encode_object (payload_header payload) payload [])
      ≡ object_bytes false (as_object payload)
unfolding encode_object
written_object payload =
    ap appended
      ((Writes-bind (Writes-object_header (payload_header payload)) (Writes-push payload)).on [])
    ∙ append_assoc (varint_bytes 0) (varint_bytes (length payload)) payload

sent_bytes-append : (cs ds : List Call) → sent_bytes (cs ++ ds) ≡ sent_bytes cs ++ sent_bytes ds
unfolding sent_bytes
sent_bytes-append [] ds = refl
sent_bytes-append (write bytes ∷ cs) ds =
    ap (λ (u : List ℕ). bytes ++ u) (sent_bytes-append cs ds)
    ∙ sym (append_assoc bytes (sent_bytes cs) (sent_bytes ds))
sent_bytes-append (fin ∷ cs) ds = sent_bytes-append cs ds

module _ (w : SubgroupWriter) where
  sent_next :
      (payload : List ℕ)
      → sent_bytes (write_object payload w).calls
        ≡ sent_bytes w.calls ++ object_bytes false (as_object payload)
  unfolding write_object sent_bytes
  sent_next payload =
      sent_bytes-append w.calls _
      ∙ ap (λ (u : List ℕ). sent_bytes w.calls ++ u) (append-nil _ ∙ written_object payload)

  sent_drop : sent_bytes (drop_writer w) ≡ sent_bytes w.calls
  unfolding drop_writer sent_bytes
  sent_drop = ground (arith, sent_bytes-append w.calls (fin ∷ []), append-nil (sent_bytes w.calls))

sent_all :
    (payloads : List (List ℕ)) (w : SubgroupWriter)
    → sent_bytes (used (map object payloads) w).calls
      ≡ sent_bytes w.calls ++ stream_bytes false (map as_object payloads)
unfolding used
sent_all [] w = sym (append-nil (sent_bytes w.calls))
sent_all (p ∷ ps) w =
    sent_all ps (write_object p w)
    ∙ (ap (λ (u : List ℕ). u ++ stream_bytes false (map as_object ps)) (sent_next w p)
        ∙ append_assoc (sent_bytes w.calls) (object_bytes false (as_object p))
            (stream_bytes false (map as_object ps)))

pub objects-IsValid :
    (payloads : List (List ℕ))
    → All (λ (p : List ℕ). IsU64 (length p)) payloads
    → All IsValid (map as_object payloads)
objects-IsValid [] h = tt
objects-IsValid (p ∷ ps) h = (
  record { delta = omega arith; properties = omega arith; payload = h.0 },
  objects-IsValid ps h.1,
)

pub length-objects : (payloads : List (List ℕ)) → length (map as_object payloads) ≡ length payloads
length-objects [] = refl
length-objects (p ∷ ps) = omega (arith, length-objects ps)

none_before : (bytes : List ℕ) → sent_bytes new.calls ++ bytes ≡ bytes
unfolding new sent_bytes
none_before bytes = refl

-- The payloads that are given to a SubgroupWriter, which is then dropped, are read at the other
-- end one by one, in order, each as an object with the delta 0 and no properties; then the reader
-- sees the end.
pub payloads_round_trip :
    {R : Type 0} (t : Transport R) (payloads : List (List ℕ)) (r : R) (fuel : ℕ)
    → length payloads < fuel
    → All (λ (p : List ℕ). IsU64 (length p)) payloads
    → t.pending r ≡ sent_bytes (drop_writer (used (map object payloads) new))
    → read_all t fuel (record { stream = r; has_properties = false })
      ≡ ok (map (as_read false) (map as_object payloads))
payloads_round_trip t payloads r fuel enough h p =
    objects_round_trip t false (map as_object payloads) r fuel
      (omega (arith, length-objects payloads)) (objects-IsValid payloads h)
      (p
        ∙ (sent_drop (used (map object payloads) new)
            ∙ (sent_all payloads new ∙ none_before (stream_bytes false (map as_object payloads)))))
