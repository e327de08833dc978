-- ===== src/Stream/Examples.antt =====
-- The stream readers on a stream that is a list of bytes.
use moqt_minimal.Prelude.{
  ℕ, ◌<◌, ◌≡◌, refl, true, false, none, some, List, [], ◌∷◌, ◌++◌, length, take, drop, arith, leb,
  if◌then◌else◌, length-append, take-length_append, drop-length_append, le→leb, map,
}
use moqt_minimal.Buffer.{Result, ok, err, stream_finished, Writes}
use moqt_minimal.Wire.Varint.{varint_bytes}
use moqt_minimal.Wire.SubgroupHeader
use moqt_minimal.Wire.SubgroupHeader.{SubgroupHeader}
use moqt_minimal.Wire.SubgroupHeader.RoundTrip.{header_bytes}
use moqt_minimal.Wire.Message.Frame.{message_bytes}
use moqt_minimal.Stream.Transport.{Transport, Pulls}
use moqt_minimal.Stream.Request.{encode_request, read_message, parse_request_message}
use moqt_minimal.Stream.Request.{RequestMessage, request_error}
use moqt_minimal.Stream.Request.RoundTrip.{request_round_trip, parse-unknown}
use moqt_minimal.Stream.Data.{new, read_object, read_subgroup_header}
use moqt_minimal.Stream.Data.Objects.{
  Object, stream_bytes, raw_header, as_read, read_all, objects_round_trip,
}
use moqt_minimal.Stream.Data.Header.{header_stream_round_trip}
use moqt_minimal.Stream.Data.Ending.{read_object-truncated, read_object-cut}
use moqt_minimal.Buffer.{unknown_request_type}

unfoldable pub read_list : ℕ → List ℕ → Result (List ℕ × List ℕ)
read_list n r = if leb n (length r) then ok (take n r, drop n r) else err stream_finished

pub read_list-delivers :
    (r bytes rest : List ℕ)
    → r ≡ bytes ++ rest
    → (s : List ℕ) × (read_list (length bytes) r ≡ ok (bytes, s)) × (s ≡ rest)
unfolding read_list
read_list-delivers r bytes rest h = (
  rest,
  rw
      (
        h,
        le→leb (length bytes) (length (bytes ++ rest)) (omega (arith, length-append bytes rest)),
        take-length_append bytes rest,
        drop-length_append bytes rest,
      )
      refl,
  refl,
)

pub read_list-ends : (r : List ℕ) (n : ℕ) → length r < n → read_list n r ≡ err stream_finished
unfolding read_list
read_list-ends r n h = ground arith

unfoldable pub list_stream : Transport (List ℕ)
list_stream = record {
  read_exact = read_list;
  pending = λ r. r;
  delivers = read_list-delivers;
  ends = read_list-ends;
}

abbrev refusal : RequestMessage
refusal = request_error (record {
  error_code = 0x10;
  retry_interval = 70000;
  reason_phrase = record { value = 110 ∷ 111 ∷ [] };
})

request_round_trip_example :
    (bytes : List ℕ) × Writes (encode_request refusal) bytes
    × Pulls list_stream (read_message list_stream) refusal bytes
request_round_trip_example =
    request_round_trip list_stream refusal
      (record { error_code = omega arith; retry_interval = omega arith; reason = omega arith })

parse_unknown_test : parse_request_message (message_bytes 0xff []) ≡ err unknown_request_type
parse_unknown_test =
    parse-unknown 0xff [] (omega arith) (omega arith) (omega arith) (omega arith) (omega arith)
      (omega arith) (omega arith)

abbrev two_objects : List Object
two_objects =
    record { delta = 0; properties = []; payload = 7 ∷ 8 ∷ [] }
    ∷ record { delta = 2; properties = 9 ∷ []; payload = [] }
    ∷ []

objects_round_trip_example :
    read_all list_stream 3
      (record { stream = stream_bytes true two_objects; has_properties = true })
    ≡ ok (map (as_read true) two_objects)
unfolding list_stream
objects_round_trip_example =
    objects_round_trip list_stream true two_objects (stream_bytes true two_objects) 3 (omega arith)
      (
        record { delta = omega arith; properties = omega arith; payload = omega arith },
        (record { delta = omega arith; properties = omega arith; payload = omega arith }, tt),
      )
      refl

abbrev plain_header : SubgroupHeader
plain_header = record {
  track_alias = 3;
  group_id = 10;
  has_properties = true;
  end_of_group = false;
  subgroup_id = some 4;
  publisher_priority = none;
}

header_stream_round_trip_test :
    Writes (SubgroupHeader.encode plain_header) (header_bytes plain_header)
    × ((s : List ℕ) × (read_subgroup_header list_stream
            (new (header_bytes plain_header ++ (1 ∷ [])))
          ≡ ok (
            (plain_header, header_bytes plain_header),
            record { stream = s; has_properties = true },
          ))
        × (list_stream.pending s ≡ 1 ∷ []))
unfolding list_stream
header_stream_round_trip_test =
    header_stream_round_trip list_stream plain_header (new (header_bytes plain_header ++ (1 ∷ [])))
      (1 ∷ [])
      (record {
        track_alias = omega arith;
        group_id = omega arith;
        subgroup_id = omega arith;
        publisher_priority = tt;
      })
      (unfold new in refl)

-- 15293 takes two bytes; here only the first comes.
two_bytes : varint_bytes 15293 ≡ (0xbb ∷ []) ++ (0xbd ∷ [])
unfolding varint_bytes
two_bytes = refl

read_object-truncated_example :
    read_object list_stream (new (0xbb ∷ [])) ≡ ok (none, new (0xbb ∷ []))
read_object-truncated_example =
    read_object-truncated list_stream (new (0xbb ∷ [])) 15293 (0xbb ∷ []) 0xbd [] (omega arith)
      two_bytes (unfold new list_stream in refl)

abbrev seven_eight : Object
seven_eight = record { delta = 0; properties = []; payload = 7 ∷ 8 ∷ [] }

read_object-cut_test :
    read_object list_stream
      (record { stream = raw_header false seven_eight ++ (7 ∷ []); has_properties = false })
    ≡ err stream_finished
read_object-cut_test =
    read_object-cut list_stream false seven_eight (raw_header false seven_eight ++ (7 ∷ []))
      (7 ∷ []) (record { delta = omega arith; properties = omega arith; payload = omega arith })
      (unfold list_stream in refl) (omega arith)
