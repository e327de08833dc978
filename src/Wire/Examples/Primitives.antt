-- ===== src/Wire/Examples/Primitives.antt =====
-- Primitives and data stream headers at concrete inputs.
use moqt_minimal.Prelude.{
  ℕ, ◌+◌, ◌-◌, ◌≤◌, ◌<◌, ◌≡◌, ◌≢◌, ◌↔◌, refl, true, false, none, some, List, [], ◌∷◌, ◌++◌, length,
  take, All, IsU64, arith,
}
use moqt_minimal.Buffer.{
  ok, err, RoundTrips, Writes, Reads, ◌>>=◌, push, split, pure, ensure, checked_add,
}
use moqt_minimal.Buffer.{need_bytes, invalid_code_point, unknown_parameter, out_of_fuel}
use moqt_minimal.Wire.Varint.{varint_byte_length, varint_bytes, encode_varint, decode_varint}
use moqt_minimal.Wire.Varint.RoundTrip.{varint_round_trip}
use moqt_minimal.Wire.Varint.Decode.{
  decode_varint_splits, decode_varint_truncated, decode_varint_reserved,
}
use moqt_minimal.Wire.ReasonPhrase.{ReasonPhrase, encode_reason_phrase, decode_reason_phrase}
use moqt_minimal.Wire.ReasonPhrase.RoundTrip.{reason_phrase_outcome}
use moqt_minimal.Wire.TrackNamespace.{
  TrackNamespace, encode_track_namespace, decode_track_namespace, encode_fields, decode_fields,
  max_fields,
}
use moqt_minimal.Wire.TrackNamespace.RoundTrip.{namespace_round_trip, IsValid}
use moqt_minimal.Wire.TrackNamespace.Limits.{decode_namespace-IsValid, encode_namespace_limits}
use moqt_minimal.Wire.Parameter.{
  MessageParameter, subscription_filter, largest_object, forward, next_group_start, param_type_id,
}
use moqt_minimal.Wire.Parameter.{encode_parameters, decode_parameters, param_delivery_timeout}
use moqt_minimal.Wire.Parameter.RoundTrip.{parameters_round_trip}
use moqt_minimal.Wire.Parameter.Skipped.{parameter_after_timeout}
use moqt_minimal.Wire.KeyValuePair.{
  KeyValuePair, varint, bytes, encode_key_value_pairs, decode_key_value_pairs, decode_pairs_from,
  decode_pair, decode_kv_value, decode_bytes_value,
}
use moqt_minimal.Wire.KeyValuePair.RoundTrip.{ArePairs, pairs_round_trip}
use moqt_minimal.Wire.KeyValuePair.Decode.{decode_pairs-ends, decode_pairs-ArePairs}
use moqt_minimal.Wire.SubgroupHeader
use moqt_minimal.Wire.SubgroupHeader.{SubgroupHeader}
use moqt_minimal.Wire.SubgroupHeader.RoundTrip.{header_round_trip}
use moqt_minimal.Wire.SubgroupHeader.Forwarding.{IsDecoded, decode-IsDecoded}
use moqt_minimal.Wire.Object
use moqt_minimal.Wire.Object.{ObjectHeader, resolve_object_id}
use moqt_minimal.Wire.Object.RoundTrip.{object_header_round_trip}
use moqt_minimal.Wire.Object.Ids.{resolve_all, deltas_of, resolve_all-deltas_of, resolved_id_order}

spec_example_15293 : encode_varint 15293 [] ≡ ok (tt, 0xbb ∷ 0xbd ∷ [])
unfolding encode_varint varint_bytes push
spec_example_15293 = refl

-- A form longer than needed is accepted.
spec_example_non_minimal_37 : decode_varint (0x80 ∷ 0x25 ∷ []) ≡ ok (37, [])
unfolding decode_varint
spec_example_non_minimal_37 = refl

varint_round_trip_example : RoundTrips (encode_varint 15293) decode_varint 15293
varint_round_trip_example = varint_round_trip 15293 (omega arith)

abbrev non_minimal_37 : List ℕ
non_minimal_37 = 0x80 ∷ 0x25 ∷ []

decode_varint_splits_test :
    (n : ℕ) × (varint_byte_length 0x80 ≡ ok n)
    × (1 ≤ n)
    × (0 + n ≡ length non_minimal_37)
    × (take n non_minimal_37 ++ [] ≡ non_minimal_37)
    × (length (varint_bytes 37) ≤ n)
    × IsU64 37
decode_varint_splits_test = decode_varint_splits 0x80 (0x25 ∷ []) spec_example_non_minimal_37

bytes_of_15293 : varint_bytes 15293 ≡ 0xbb ∷ 0xbd ∷ []
unfolding varint_bytes
bytes_of_15293 = refl

decode_varint_truncated_test : decode_varint (0xbb ∷ []) ≡ err need_bytes
decode_varint_truncated_test =
    decode_varint_truncated 15293 (0xbb ∷ []) 0xbd [] (omega arith) bytes_of_15293

abbrev eight_bytes : List ℕ
eight_bytes = 0 ∷ 0 ∷ 0 ∷ 0 ∷ 0 ∷ 0 ∷ 1 ∷ 2 ∷ []

decode_varint_reserved_test :
    (decode_varint (0xfc ∷ (eight_bytes ++ [])) ≡ err invalid_code_point)
    × (decode_varint (0xfd ∷ (eight_bytes ++ [])) ≡ ok (258, []))
    × (decode_varint (0xff ∷ (eight_bytes ++ [])) ≡ ok (258, []))
decode_varint_reserved_test = decode_varint_reserved eight_bytes [] (omega arith) refl

abbrev not_found : ReasonPhrase
not_found = record { value = 0x6e ∷ 0x6f ∷ [] }

reason_phrase_outcome_test :
    (bs : List ℕ) × Writes (encode_reason_phrase not_found) bs
    × (decode_reason_phrase (bs ++ (9 ∷ [])) ≡ ok (not_found, 9 ∷ []))
reason_phrase_outcome_test = reason_phrase_outcome not_found (9 ∷ []) (omega arith)

abbrev live : TrackNamespace
live = record { fields = (0x61 ∷ []) ∷ (0x62 ∷ 0x63 ∷ []) ∷ [] }

namespace_round_trip_example : RoundTrips (encode_track_namespace live) decode_track_namespace live
namespace_round_trip_example = namespace_round_trip live (omega arith)

decode_live : decode_track_namespace (2 ∷ 1 ∷ 0x61 ∷ 2 ∷ 0x62 ∷ 0x63 ∷ []) ≡ ok (live, [])
unfolding decode_track_namespace decode_fields decode_varint split ensure pure ◌>>=◌
decode_live = refl

decode_namespace-IsValid_example : IsValid live
decode_namespace-IsValid_example =
    decode_namespace-IsValid (2 ∷ 1 ∷ 0x61 ∷ 2 ∷ 0x62 ∷ 0x63 ∷ []) decode_live

encode_live : encode_track_namespace live [] ≡ ok (tt, 2 ∷ 1 ∷ 0x61 ∷ 2 ∷ 0x62 ∷ 0x63 ∷ [])
unfolding encode_track_namespace encode_fields encode_varint varint_bytes push ensure pure ◌>>=◌
encode_live = refl

encode_namespace_limits_test : (2 ≤ max_fields) × All (λ f. 1 ≤ length f) live.fields
encode_namespace_limits_test = encode_namespace_limits live [] encode_live

abbrev three_params : List MessageParameter
three_params = largest_object 3 0 ∷ forward 1 ∷ subscription_filter next_group_start ∷ []

parameters_round_trip_example :
    RoundTrips (encode_parameters three_params) decode_parameters three_params
unfolding param_type_id
parameters_round_trip_example = parameters_round_trip three_params (omega arith)

parameter_after_timeout_example :
    decode_parameters (
      varint_bytes 2
      ++ (varint_bytes param_delivery_timeout
          ++ (varint_bytes 100
              ++ (varint_bytes (param_type_id (forward 1) - param_delivery_timeout) ++ (1 ∷ [])))))
    ≡ err unknown_parameter
parameter_after_timeout_example = parameter_after_timeout 100 (forward 1) (1 ∷ []) (omega arith)

abbrev two_pairs : List KeyValuePair
two_pairs =
    record { type_id = 1; value = bytes (0x2f ∷ []) }
    ∷ record { type_id = 4; value = varint 42 }
    ∷ []

two_pairs-ArePairs : ArePairs two_pairs
two_pairs-ArePairs = omega arith

pairs_round_trip_example :
    (bs : List ℕ) × Writes (encode_key_value_pairs two_pairs) bs
    × (decode_key_value_pairs bs ≡ ok (two_pairs, []))
pairs_round_trip_example = pairs_round_trip two_pairs two_pairs-ArePairs

decode_pairs-ends_test : decode_key_value_pairs (1 ∷ 9 ∷ []) ≢ err out_of_fuel
decode_pairs-ends_test = decode_pairs-ends (1 ∷ 9 ∷ [])

decode_two_pairs : decode_key_value_pairs (1 ∷ 1 ∷ 0x2f ∷ 3 ∷ 42 ∷ []) ≡ ok (two_pairs, [])
unfolding decode_key_value_pairs decode_pairs_from decode_pair decode_kv_value decode_bytes_value
    decode_varint checked_add split ensure pure ◌>>=◌
decode_two_pairs = refl

decode_pairs-ArePairs_test : (◌≡◌ {A = List ℕ} [] []) × ArePairs two_pairs
decode_pairs-ArePairs_test = decode_pairs-ArePairs (1 ∷ 1 ∷ 0x2f ∷ 3 ∷ 42 ∷ []) decode_two_pairs

abbrev video_header : SubgroupHeader
video_header = record {
  track_alias = 3;
  group_id = 10;
  has_properties = true;
  end_of_group = false;
  subgroup_id = some 2;
  publisher_priority = some 128;
}

header_round_trip_test :
    RoundTrips (SubgroupHeader.encode video_header) SubgroupHeader.decode video_header
header_round_trip_test = header_round_trip video_header (record {
  track_alias = omega arith;
  group_id = omega arith;
  subgroup_id = omega arith;
  publisher_priority = omega arith;
})

-- Type 0x32: the subgroup ID is the first object's, and the priority is the default.
abbrev first_object_header : SubgroupHeader
first_object_header = record {
  track_alias = 3;
  group_id = 10;
  has_properties = false;
  end_of_group = false;
  subgroup_id = none;
  publisher_priority = none;
}

decode-first_object_header :
    SubgroupHeader.decode (0x32 ∷ 3 ∷ 10 ∷ []) ≡ ok (first_object_header, [])
unfolding SubgroupHeader.decode SubgroupHeader.decode_subgroup_id SubgroupHeader.decode_priority
    SubgroupHeader.is_valid_type decode_varint ensure pure ◌>>=◌
decode-first_object_header = refl

decode-IsDecoded_example :
    (t : ℕ) × (mid : List ℕ) × (decode_varint (0x32 ∷ 3 ∷ 10 ∷ []) ≡ ok (t, mid))
    × IsDecoded t first_object_header
decode-IsDecoded_example = decode-IsDecoded (0x32 ∷ 3 ∷ 10 ∷ []) decode-first_object_header

abbrev hundred_bytes : ObjectHeader
hundred_bytes = record { object_id_delta = 0; payload_length = 100 }

object_header_round_trip_test :
    (bs : List ℕ) × Writes (Object.encode hundred_bytes) bs
    × Reads (Object.decode false) hundred_bytes bs
    × Reads (Object.decode true) hundred_bytes (bs ++ (varint_bytes 2 ++ (5 ∷ 6 ∷ [])))
object_header_round_trip_test =
    object_header_round_trip hundred_bytes (5 ∷ 6 ∷ []) (omega arith) (omega arith)

resolve_all-deltas_of_example : resolve_all none (deltas_of none (0 ∷ 1 ∷ 5 ∷ [])) ≡ 0 ∷ 1 ∷ 5 ∷ []
resolve_all-deltas_of_example = resolve_all-deltas_of none (0 ∷ 1 ∷ 5 ∷ []) (omega arith)

resolved_id_order_test : (2 < resolve_object_id (some 2) 2) ↔ IsU64 (2 + 2 + 1)
resolved_id_order_test = resolved_id_order 2 2 (omega arith) (omega arith)
