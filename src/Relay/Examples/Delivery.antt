-- ===== src/Relay/Examples/Delivery.antt =====
-- A data stream to session 12, which stays, and 11, which has gone; a session that answers unasked.
use moqt_minimal.Prelude.{ℕ, ◌≡◌, refl, sym, true, false, none, some, List, [], ◌∷◌, ◌++◌, arith}
use mathlib.Core.Path.{subst}
use moqt_minimal.Map.{get, values}
use moqt_minimal.Wire.SubgroupHeader.{SubgroupHeader}
use moqt_minimal.Wire.SubgroupHeader.RoundTrip.{header_bytes}
use moqt_minimal.Wire.RequestOk as Ok
use moqt_minimal.Stream.Examples.{list_stream}
use moqt_minimal.Stream.Request.{request_ok}
use moqt_minimal.Stream.Request.RoundTrip.{request_bytes}
use moqt_minimal.Stream.Data.{DataStreamReader}
use moqt_minimal.Stream.Data.Objects.{Object, stream_bytes}
use moqt_minimal.Session.Subgroups.{subgroup_header}
use moqt_minimal.Session.Streams.Logs.{Log, log_sink, log_lossless}
use moqt_minimal.Relay.State.{
  RelayState, find_subscriber_sessions, matching_sessions, live_sessions,
}
use moqt_minimal.Relay.State.Membership.{In, here, there}
use moqt_minimal.Relay.DataStream.{handle_data_stream}
use moqt_minimal.Relay.DataStream.Delivered.{handle_data_stream-delivered}
use moqt_minimal.Relay.Examples.{subscribed, of_publisher, video, first}

abbrev two_subscribers : RelayState
two_subscribers = record subscribed {
  subscriptions =
      (
        video,
        record of_publisher { subscribers = first ∷ record { session_id = 2; request = 31 } ∷ [] },
      )
      ∷ [];
}

abbrev header : SubgroupHeader
header = subgroup_header 5 7 0

two_sessions : find_subscriber_sessions 0 header.track_alias two_subscribers ≡ 11 ∷ 12 ∷ []
unfolding find_subscriber_sessions matching_sessions live_sessions values get subgroup_header
two_sessions = refl

is_second : In {A = ℕ} 12 (11 ∷ 12 ∷ [])
is_second = there here

abbrev objects : List Object
objects = record { delta = 0; properties = []; payload = 7 ∷ 8 ∷ [] } ∷ []

handle_data_stream-delivered_example :
    (ws : List Log) × (left : DataStreamReader (List ℕ)) × (handle_data_stream list_stream log_sink
        2 0 header
        (record { stream = stream_bytes false objects; has_properties = false })
        two_subscribers
      ≡ (none, ws, some left))
    × (left.stream ≡ [])
    × ((w : Log) × In w ws
        × (log_lossless.content w ≡ header_bytes header ++ stream_bytes false objects)
        × (log_lossless.ended w ≡ true))
unfolding list_stream
handle_data_stream-delivered_example =
    handle_data_stream-delivered log_sink 12 log_lossless list_stream 0 header false objects
      (stream_bytes false objects) 2 two_subscribers
      (subst (In {A = ℕ} 12) (sym two_sessions) is_second) (omega arith)
      (record { delta = omega arith; properties = omega arith; payload = omega arith }, tt) refl

abbrev stray : List ℕ
stray = request_bytes (request_ok Ok.request_ok)
