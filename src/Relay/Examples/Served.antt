-- ===== src/Relay/Examples/Served.antt =====
-- The task of subscriber 2 and then a data stream of publisher 0.
use moqt_minimal.Prelude.{
  ℕ, ◌≡◌, ◌≢◌, refl, true, false, none, some, sym, ap, ◌∙◌, List, [], ◌∷◌, ◌++◌, arith,
}
use moqt_minimal.Map.{get, insert, remove}
use moqt_minimal.Wire.SubgroupHeader.{SubgroupHeader}
use moqt_minimal.Wire.SubgroupHeader.RoundTrip.{header_bytes}
use moqt_minimal.Stream.Examples.{list_stream}
use moqt_minimal.Stream.Data.Objects.{Object, IsValid, stream_bytes}
use moqt_minimal.Session.Subgroups.{subgroup_header}
use moqt_minimal.Session.Streams.Logs.{log_sink, log_lossless}
use moqt_minimal.Relay.Keys.{FullTrackName, track_key, same_fields, same_bytes}
use moqt_minimal.Relay.State.{
  new, register_session, register_namespace, find_existing_subscription, find_publisher,
  find_publisher_from, with_session, pop,
}
use moqt_minimal.Relay.Subscribe
use moqt_minimal.Relay.Utf8.{is_utf8, utf8_from, following}
use moqt_minimal.Relay.World.{connected, announced, spawned, advanced}
use moqt_minimal.Relay.Subscribe.{
  advance, set_lock, is_locked, has_unsupported_filter, run, checking, ready, sent, answered,
}
use moqt_minimal.Relay.Subscribe.Served.{IsStream, Copied, established-Copied, aggregated-Copied}
use moqt_minimal.Relay.DataStream.{handle_data_stream}
use moqt_minimal.Relay.DataStream.Early.{OthersDiffer, Drained, subscribing-Drained}
use moqt_minimal.Relay.Examples.{
  asking, accepted, announced_only, subscribed, of_publisher, video, IsAdmitted-to,
  IsAdmitted-announced, found_video, no_video, find_publisher-longer, upstream_world,
  upstream_reached, is_upstream,
}

abbrev header : SubgroupHeader
header = subgroup_header 5 7 0

abbrev objects : List Object
objects = record { delta = 0; properties = []; payload = 7 ∷ 8 ∷ [] } ∷ []

object-IsValid : IsValid (record { delta = 0; properties = []; payload = 7 ∷ 8 ∷ [] })
object-IsValid = record { delta = omega arith; properties = omega arith; payload = omega arith }

abbrev stream : List ℕ
stream = header_bytes header ++ stream_bytes header.has_properties objects

stream-IsStream : IsStream list_stream 2 header objects stream
unfolding list_stream subgroup_header
stream-IsStream = record {
  well_formed = record {
    track_alias = omega arith;
    group_id = omega arith;
    subgroup_id = omega arith;
    publisher_priority = tt;
  };
  objects = (object-IsValid, tt);
  enough = omega arith;
  bytes = refl;
}

established-Copied_example :
    Copied log_sink 12 log_lossless list_stream 2 0
      (run asking checking
        (ready ∷ ready ∷ ready ∷ ready ∷ answered (some accepted) ∷ ready ∷ sent true ∷ [])
        announced_only).1
      stream
unfolding get subgroup_header
established-Copied_example =
    established-Copied log_sink 12 log_lossless list_stream asking 0 10 accepted announced_only
      header objects stream 2 IsAdmitted-announced no_video find_publisher-longer refl refl
      stream-IsStream

aggregated-Copied_example :
    Copied log_sink 12 log_lossless list_stream 2 0
      (run asking checking (ready ∷ ready ∷ ready ∷ sent true ∷ []) subscribed).1
      stream
unfolding get subgroup_header
aggregated-Copied_example =
    aggregated-Copied log_sink 12 log_lossless list_stream asking of_publisher true subscribed
      header objects stream 2 IsAdmitted-to found_video refl refl stream-IsStream

no_subscriptions : upstream_world.state.subscriptions ≡ []
unfolding connected announced new spawned advanced advance Subscribe.on_checking
    Subscribe.on_locking Subscribe.on_aggregating Subscribe.on_existing Subscribe.on_searching
    Subscribe.on_publisher register_session register_namespace set_lock is_locked insert remove get
    find_existing_subscription find_publisher find_publisher_from with_session pop
    has_unsupported_filter is_utf8 utf8_from following same_fields same_bytes
no_subscriptions = refl

none-some : {A : Type 0} {a : A} → none ≢ some a
none-some e = absurd (ground arith)

get-nil : (u : FullTrackName) → get u upstream_world.state.subscriptions ≡ none
unfolding get
get-nil u = ap (get u) no_subscriptions

no_other : OthersDiffer video 0 header.track_alias upstream_world.state
no_other u sub apart h publisher alias = none-some (sym (get-nil u) ∙ h)

subscribing-Drained_example : Drained log_sink list_stream (
    handle_data_stream list_stream log_sink 2 0 header
      (record { stream = stream_bytes false objects; has_properties = false })
      upstream_world.state)
unfolding list_stream
subscribing-Drained_example =
    subscribing-Drained log_sink list_stream header false objects (stream_bytes false objects) 2
      upstream_reached is_upstream no_other (omega arith) (object-IsValid, tt) refl
