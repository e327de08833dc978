-- ===== src/Session/Examples.antt =====
-- The session's theorems at concrete requests.
use moqt_minimal.Prelude.{ℕ, ◌≡◌, ◌≢◌, refl, false, List, [], ◌∷◌, map, arith}
use moqt_minimal.Buffer.{ok, request_rejected, Writes}
use moqt_minimal.Wire.Varint.{varint_bytes}
use moqt_minimal.Wire.TrackNamespace.{TrackNamespace}
use moqt_minimal.Stream.Examples.{list_stream}
use moqt_minimal.Stream.Transport.{Pulls}
use moqt_minimal.Stream.Request.{subscribe, publish_namespace, encode_request}
use moqt_minimal.Session.Events
use moqt_minimal.Wire.Parameter.{
  MessageParameter, param_type_id, subscription_filter, next_group_start,
}
use moqt_minimal.Stream.Data.Objects.{as_read, read_all}
use moqt_minimal.Session.RequestIds.{
  client, server, allocate, allocated, allocated-apart, allocated-distinct,
}
use moqt_minimal.Session.Requests.{
  accept, reject, send_publish_done, await_subscribe_ok, recv_publish_done,
}
use moqt_minimal.Session.Requests.Exchange.{
  answers-received, requests-received, Fails, IsEvent, publish_with, subscribe_with,
}
use moqt_minimal.Session.Subgroups.{object, close, new, used, drop_writer, fins, drop-fin_once}
use moqt_minimal.Session.Subgroups.Payloads.{as_object, sent_bytes, payloads_round_trip}
use moqt_minimal.Session.Requests.{new_subscribe, new_publish_namespace}
use moqt_minimal.Prelude.{some, ◌++◌}
use moqt_minimal.Wire.Setup.RoundTrip.{setup_bytes}
use moqt_minimal.Session.Streams.Logs.{Log, log_sink, log_lossless}
use moqt_minimal.Session.Handshake
use moqt_minimal.Session.Handshake.{MoqtSession, connect}
use moqt_minimal.Session.Handshake.Established.{
  IsSetUp, no_options, path_and_authority, connect-accept,
}

allocated-apart_example : allocated 2 client ≢ allocated 3 server
allocated-apart_example = allocated-apart 2 3

third_id : allocated 2 client ≡ 4
unfolding allocated allocate
third_id = refl

allocated-distinct_test : ◌≡◌ {A = ℕ} 2 2
allocated-distinct_test =
    allocated-distinct client 2 2 (omega arith) (omega arith) (omega arith) refl

answers-received_example :
    ((bytes : List ℕ) × Writes (encode_request (accept 5)) bytes
      × Pulls list_stream
          (await_subscribe_ok list_stream)
          (record { track_alias = 5; parameters = []; track_properties_raw = [] })
          bytes)
    × ((bytes : List ℕ) × Writes (encode_request (send_publish_done 3)) bytes
        × Pulls list_stream
            (recv_publish_done list_stream)
            (record { status_code = 0x2; stream_count = 3; reason_phrase = record { value = [] } })
            bytes)
    × ((bytes : List ℕ) × Writes (encode_request (reject 0x10 (110 ∷ 111 ∷ []))) bytes
        × Fails list_stream (await_subscribe_ok list_stream) request_rejected bytes)
answers-received_example =
    answers-received list_stream 5 3 0x10 (110 ∷ 111 ∷ []) (omega arith) (omega arith) (omega arith)
      (omega arith)

drop-fin_once_example : fins (drop_writer (used (object (7 ∷ []) ∷ close ∷ close ∷ []) new)) ≡ 1
drop-fin_once_example = drop-fin_once (object (7 ∷ []) ∷ close ∷ close ∷ [])

abbrev two_payloads : List (List ℕ)
two_payloads = (7 ∷ 8 ∷ []) ∷ [] ∷ []

payloads_round_trip_test :
    read_all list_stream 3 (record {
      stream = sent_bytes (drop_writer (used (map object two_payloads) new));
      has_properties = false;
    })
    ≡ ok (map (as_read false) (map as_object two_payloads))
payloads_round_trip_test =
    payloads_round_trip list_stream two_payloads
      (sent_bytes (drop_writer (used (map object two_payloads) new))) 3 (omega arith) (omega arith)
      (unfold list_stream in refl)

abbrev example_namespace : TrackNamespace
example_namespace = record { fields = (0x65 ∷ []) ∷ [] }

abbrev next_group : List MessageParameter
next_group = subscription_filter next_group_start ∷ []

requests-received_example :
    let (first, b) = new_publish_namespace example_namespace client in
    let (second, c) = new_subscribe example_namespace (118 ∷ []) next_group b in
    ((bytes : List ℕ) × Writes (encode_request (publish_namespace first)) bytes
      × IsEvent list_stream (Events.publish_namespace (publish_with 0 example_namespace)) bytes)
    × ((bytes : List ℕ) × Writes (encode_request (subscribe second)) bytes
        × IsEvent list_stream
            (Events.subscribe (subscribe_with 2 example_namespace (118 ∷ []) next_group))
            bytes)
    × (c.next_id ≡ 4)
unfolding varint_bytes param_type_id
requests-received_example =
    requests-received list_stream example_namespace example_namespace (118 ∷ []) next_group client
      (record {
        request_id = omega arith;
        delta = omega arith;
        track_namespace = omega arith;
        fits = omega arith;
      })
      (record {
        request_id = omega arith;
        delta = omega arith;
        track_namespace = omega arith;
        track_name = omega arith;
        parameters = omega arith;
        fits = omega arith;
      })

connect-accept_example :
    (c : MoqtSession Log (List ℕ)) × (s : MoqtSession Log (List ℕ)) × (connect log_sink list_stream
        12
        (some (setup_bytes no_options ++ []))
      ≡ ok c)
    × (Handshake.accept log_sink list_stream 12 (some (setup_bytes path_and_authority ++ []))
        ≡ ok s)
    × IsSetUp log_lossless list_stream (record { next_id = 0 }) path_and_authority no_options [] c
    × IsSetUp log_lossless list_stream (record { next_id = 1 }) no_options path_and_authority [] s
unfolding list_stream
connect-accept_example =
    connect-accept log_sink list_stream 12 12 log_lossless log_lossless
      (setup_bytes no_options ++ []) (setup_bytes path_and_authority ++ []) [] [] refl refl
