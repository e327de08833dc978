-- ===== src/Session/Events/Received.antt =====
-- What a session receives: events of well-formed streams, and the payloads of a group.
use moqt_minimal.Prelude.{ℕ, ◌≡◌, ap, none, some, List, [], ◌++◌, length, map, arith, IsU64}
use moqt_minimal.Buffer.{ok}
use moqt_minimal.Wire.SubgroupHeader.{SubgroupHeader}
use moqt_minimal.Wire.SubgroupHeader.RoundTrip as Header
use moqt_minimal.Stream.Transport.{Transport}
use moqt_minimal.Stream.Data
use moqt_minimal.Stream.Data.{DataStreamReader}
use moqt_minimal.Stream.Data.Objects.{stream_bytes, read_object-next, read_object-end}
use moqt_minimal.Stream.Data.Header.{header_stream_round_trip}
use moqt_minimal.Session.Subgroups.Payloads.{as_object}
use moqt_minimal.Session.Events.{
  SubgroupReader, uni, data_stream, next_event, read_object, of_header, payload_of,
}
use moqt_minimal.Stream.Data.Objects.{object_bytes}

-- The bytes of a group: its header, and its payloads as objects.
abbrev pub group_bytes : SubgroupHeader → List (List ℕ) → List ℕ
group_bytes h payloads =
    Header.header_bytes h ++ stream_bytes h.has_properties (map as_object payloads)

-- The reader of a group whose header has been read.
abbrev pub at_stream : {R : Type 0} → SubgroupHeader → R → SubgroupReader R
at_stream h r = record {
  header = h;
  reader = record { stream = r; has_properties = h.has_properties };
}

module _ {R : Type 0} (t : Transport R) where
  -- A stream that begins with a subgroup header is a data stream event.
  pub next_event-data_stream :
      (h : SubgroupHeader) (r : R) (rest : List ℕ)
      → Header.IsValid h
      → t.pending r ≡ Header.header_bytes h ++ rest
      → (s : R) × (next_event t (uni r) ≡ ok (data_stream (at_stream h s))) × (t.pending s ≡ rest)
  unfolding next_event Data.new
  next_event-data_stream h r rest v p =
      let (s, e, left) = (header_stream_round_trip t h (Data.new r) rest v p).1 in
      (s, ap of_header e, left)

  -- An object is returned as its payload.
  pub read_object-payload :
      (h : SubgroupHeader) (payload : List ℕ) (r : R) (rest : List ℕ)
      → IsU64 (length payload)
      → t.pending r ≡ object_bytes h.has_properties (as_object payload) ++ rest
      → (s : R) × (read_object t (at_stream h r) ≡ ok (some payload, at_stream h s))
        × (t.pending s ≡ rest)
  unfolding read_object
  read_object-payload h payload r rest small p =
      let (s, e, left) =
        read_object-next t h.has_properties (as_object payload) r rest
          (record { delta = omega arith; properties = omega arith; payload = small }) p in
      (s, ap (payload_of h) e, left)

  pub read_object-none :
      (h : SubgroupHeader) (r : R)
      → t.pending r ≡ []
      → read_object t (at_stream h r) ≡ ok (none, at_stream h r)
  unfolding read_object
  read_object-none h r p = ap (payload_of h) (read_object-end t _ p)
