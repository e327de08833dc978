-- ===== src/Wire/Examples/Messages.antt =====
-- Control messages at concrete inputs.
use moqt_minimal.Prelude.{ℕ, ◌≡◌, List, [], ◌∷◌, ◌++◌, arith}
use moqt_minimal.Buffer.{ok, RoundTrips, Writes}
use moqt_minimal.Wire.Varint.{varint_bytes}
use moqt_minimal.Wire.Message.{encode_message, decode_message}
use moqt_minimal.Wire.Message.Frame.{message_round_trip, message_cut}
use moqt_minimal.Wire.TrackNamespace.{TrackNamespace}
use moqt_minimal.Wire.Parameter.{
  subscription_filter, largest_object, next_group_start, param_type_id,
}
use moqt_minimal.Wire.KeyValuePair.{bytes}
use moqt_minimal.Wire.Setup
use moqt_minimal.Wire.Setup.{SetupMessage, path, authority, unknown, to_pair}
use moqt_minimal.Wire.Setup.RoundTrip.{setup_round_trip}
use moqt_minimal.Wire.Subscribe
use moqt_minimal.Wire.Subscribe.{SubscribeMessage}
use moqt_minimal.Wire.Subscribe.RoundTrip.{subscribe_round_trip}
use moqt_minimal.Wire.SubscribeOk
use moqt_minimal.Wire.SubscribeOk.{SubscribeOkMessage}
use moqt_minimal.Wire.SubscribeOk.RoundTrip.{subscribe_ok_round_trip}
use moqt_minimal.Wire.PublishNamespace
use moqt_minimal.Wire.PublishNamespace.{PublishNamespaceMessage}
use moqt_minimal.Wire.PublishNamespace.RoundTrip.{publish_namespace_round_trip}
use moqt_minimal.Wire.PublishDone
use moqt_minimal.Wire.PublishDone.{PublishDoneMessage, status_track_ended}
use moqt_minimal.Wire.PublishDone.RoundTrip.{publish_done_round_trip}
use moqt_minimal.Wire.RequestError
use moqt_minimal.Wire.RequestError.{RequestErrorMessage, error_does_not_exist}
use moqt_minimal.Wire.RequestError.RoundTrip.{request_error_round_trip}

message_round_trip_test : RoundTrips (encode_message 3 (7 ∷ 8 ∷ [])) decode_message (3, 7 ∷ 8 ∷ [])
message_round_trip_test = message_round_trip 3 (7 ∷ 8 ∷ []) (omega arith) (omega arith)

message_cut_example :
    (bs : List ℕ) × Writes (encode_message 3 (7 ∷ 8 ∷ [])) bs
    × (decode_message (bs ++ (9 ∷ [])) ≡ ok ((3, 7 ∷ 8 ∷ []), 9 ∷ []))
message_cut_example = message_cut 3 (7 ∷ 8 ∷ []) (9 ∷ []) (omega arith)

abbrev client_setup : SetupMessage
client_setup = record {
  setup_options = path (0x2f ∷ []) ∷ authority (0x6c ∷ 0x68 ∷ []) ∷ unknown 7 (bytes (5 ∷ [])) ∷ [];
}

setup_round_trip_test : RoundTrips (Setup.encode client_setup) Setup.decode client_setup
unfolding to_pair varint_bytes
setup_round_trip_test =
    setup_round_trip client_setup
      (record { pairs = omega arith; proper = omega arith; fits = omega arith })

abbrev example_namespace : TrackNamespace
example_namespace = record { fields = (0x65 ∷ 0x78 ∷ []) ∷ [] }

abbrev subscribe_video : SubscribeMessage
subscribe_video = record {
  request_id = 0;
  required_request_id_delta = 0;
  track_namespace = example_namespace;
  track_name = 0x76 ∷ [];
  parameters = subscription_filter next_group_start ∷ [];
}

subscribe_round_trip_test :
    RoundTrips (Subscribe.encode subscribe_video) Subscribe.decode subscribe_video
unfolding param_type_id varint_bytes
subscribe_round_trip_test = subscribe_round_trip subscribe_video (record {
  request_id = omega arith;
  delta = omega arith;
  track_namespace = omega arith;
  track_name = omega arith;
  parameters = omega arith;
  fits = omega arith;
})

abbrev alias_42 : SubscribeOkMessage
alias_42 = record {
  track_alias = 42;
  parameters = largest_object 10 5 ∷ [];
  track_properties_raw = 0x02 ∷ 0x05 ∷ [];
}

subscribe_ok_round_trip_test : RoundTrips (SubscribeOk.encode alias_42) SubscribeOk.decode alias_42
unfolding param_type_id varint_bytes
subscribe_ok_round_trip_test = subscribe_ok_round_trip alias_42 (record {
  track_alias = omega arith;
  parameters = omega arith;
  properties = omega arith;
  fits = omega arith;
})

abbrev publish_example : PublishNamespaceMessage
publish_example = record {
  request_id = 0;
  required_request_id_delta = 0;
  track_namespace = example_namespace;
}

publish_namespace_round_trip_test :
    RoundTrips (PublishNamespace.encode publish_example) PublishNamespace.decode publish_example
unfolding varint_bytes
publish_namespace_round_trip_test = publish_namespace_round_trip publish_example (record {
  request_id = omega arith;
  delta = omega arith;
  track_namespace = omega arith;
  fits = omega arith;
})

abbrev track_ended : PublishDoneMessage
track_ended = record {
  status_code = status_track_ended;
  stream_count = 5;
  reason_phrase = record { value = [] };
}

publish_done_round_trip_test :
    RoundTrips (PublishDone.encode track_ended) PublishDone.decode track_ended
publish_done_round_trip_test =
    publish_done_round_trip track_ended
      (record { status_code = omega arith; stream_count = omega arith; reason = omega arith })

abbrev no_publisher : RequestErrorMessage
no_publisher = record {
  error_code = error_does_not_exist;
  retry_interval = 0;
  reason_phrase = record { value = 0x6e ∷ 0x6f ∷ [] };
}

request_error_round_trip_test :
    RoundTrips (RequestError.encode no_publisher) RequestError.decode no_publisher
request_error_round_trip_test =
    request_error_round_trip no_publisher
      (record { error_code = omega arith; retry_interval = omega arith; reason = omega arith })
