-- ===== src/Relay/Examples.antt =====
-- The relay on a small state: publisher 0 has announced "a", subscriber 1 asks for "v" below it.
mod Streams
mod Worlds
mod Served
mod Delivery
use moqt_minimal.Prelude.{ℕ, true, false, none, some, ◌≡◌, ◌↔◌, refl, arith, [], ◌∷◌}
use moqt_minimal.Map.{get, remove, insert, values}
use moqt_minimal.Wire.Parameter.{subscription_filter, next_group_start, from_largest_object}
use moqt_minimal.Wire.TrackNamespace.{TrackNamespace}
use moqt_minimal.Wire.Subscribe.{SubscribeMessage}
use moqt_minimal.Wire.SubscribeOk.{SubscribeOkMessage}
use moqt_minimal.Relay.Keys.{FullTrackName, same_bytes, same_fields, track_key}
use moqt_minimal.Relay.State.{
  RelayState, SubscriberEntry, Subscription, retain_subscribers, remove_session,
  find_subscriber_sessions, find_publisher, find_publisher_from, with_session, pop,
}
use moqt_minimal.Relay.State.Publisher.{Search, find_publisher-Search}
use moqt_minimal.Relay.State.Removal.{
  IsForgotten, remove_session-IsForgotten, remove_session-others,
}
use moqt_minimal.Relay.State.Membership.{In, here}
use moqt_minimal.Relay.State.Receivers.{IsReceiver, find_subscriber_sessions-IsReceiver}
use moqt_minimal.Relay.Utf8.{is_utf8, utf8_from, following}
use moqt_minimal.Relay.Subscribe
use moqt_minimal.Relay.World.{
  World, Reachable, start, after, connect, announce, spawn, proceed, no_task, connected, announced,
  spawned, advanced, upstream,
}
use moqt_minimal.Relay.World.Safety.{IsSafe, Reachable-IsSafe, upstream_once, answer-recorded}
use moqt_minimal.Relay.Subscribe.{subscribing, advance}
use moqt_minimal.Relay.State.{new, register_session, register_namespace, find_existing_subscription}
use moqt_minimal.Prelude.{ap}
use moqt_minimal.Relay.Subscribe.{
  Task, Outcome, run, ready, sent, answered, checking, finished, awaiting, reject,
  forward_subscribe_ok, subscribe, is_locked, has_unsupported_filter, set_lock,
}
use moqt_minimal.Relay.Subscribe.Outcomes.{
  IsAdmitted, entry_of, run-unsupported, run-aggregated, run-refused, run-established,
}

abbrev of_a : TrackNamespace
of_a = record { fields = (97 ∷ []) ∷ [] }

abbrev of_ab : TrackNamespace
of_ab = record { fields = (97 ∷ []) ∷ (98 ∷ []) ∷ [] }

abbrev video : FullTrackName
video = record { namespace = of_ab; name = 118 ∷ [] }

abbrev accepted : SubscribeOkMessage
accepted = record { track_alias = 5; parameters = []; track_properties_raw = [] }

abbrev first : SubscriberEntry
first = record { session_id = 1; request = 30 }

abbrev of_publisher : Subscription
of_publisher = record {
  publisher_session = 0;
  publisher_track_alias = 5;
  subscribe_ok = accepted;
  subscribers = first ∷ [];
}

abbrev announced_only : RelayState
announced_only = record {
  next_session_id = 3;
  sessions = (0, 10) ∷ (1, 11) ∷ (2, 12) ∷ [];
  namespace_to_publisher = (of_a, 0) ∷ [];
  subscriptions = [];
  track_locks = [];
}

abbrev subscribed : RelayState
subscribed = record announced_only { subscriptions = (video, of_publisher) ∷ [] }

abbrev nobody : RelayState
nobody = record announced_only { namespace_to_publisher = [] }

abbrev ask : SubscribeMessage
ask = record {
  request_id = 0;
  required_request_id_delta = 0;
  track_namespace = of_ab;
  track_name = 118 ∷ [];
  parameters = subscription_filter next_group_start ∷ [];
}

abbrev asking : Task
asking = record { subscriber_session = 2; request = 40; message = ask }

abbrev asking_all : Task
asking_all = record asking {
  message = record ask { parameters = subscription_filter from_largest_object ∷ [] };
}

find_publisher-Search_example :
    Search announced_only of_ab.fields (find_publisher of_ab announced_only)
find_publisher-Search_example = find_publisher-Search of_ab announced_only

-- The namespace "a" serves "a", "b".
find_publisher-longer : find_publisher of_ab announced_only ≡ some (0, 10)
unfolding find_publisher find_publisher_from with_session pop get same_fields same_bytes
find_publisher-longer = refl

remove_session-IsForgotten_example : IsForgotten 0 (remove_session 0 subscribed)
remove_session-IsForgotten_example = remove_session-IsForgotten 0 subscribed

found_video : get video subscribed.subscriptions ≡ some of_publisher
unfolding get same_fields same_bytes
found_video = refl

remove_session-others_example :
    (get video (remove_session 2 subscribed).subscriptions
      ≡ some (record of_publisher { subscribers = retain_subscribers 2 (first ∷ []) }))
    × In first (retain_subscribers 2 (first ∷ []))
unfolding get
remove_session-others_example =
    remove_session-others 2 subscribed video {sub = of_publisher} {e = first} (refl, tt) found_video
      (omega arith) here (omega arith)

find_subscriber_sessions-IsReceiver_test :
    In 11 (find_subscriber_sessions 0 5 subscribed)
    ↔ IsReceiver 0 5 subscribed.sessions (values subscribed.subscriptions) 11
find_subscriber_sessions-IsReceiver_test = find_subscriber_sessions-IsReceiver 0 5 subscribed 11

refused_filter : has_unsupported_filter asking_all.message.parameters ≡ true
unfolding has_unsupported_filter
refused_filter = refl

run-unsupported_test :
    run asking_all checking (ready ∷ []) subscribed
    ≡ (finished, subscribed, reject 40 3 "only NextGroupStart filter is supported" ∷ [])
run-unsupported_test = run-unsupported asking_all ready [] subscribed refused_filter

IsAdmitted-to : IsAdmitted asking subscribed
unfolding has_unsupported_filter is_utf8 utf8_from following is_locked get
IsAdmitted-to = record { filter = refl; name = refl; free = refl }

run-aggregated_example :
    let o = run asking checking (ready ∷ ready ∷ ready ∷ sent true ∷ []) subscribed in
    (o.0 ≡ finished)
    × (o.2 ≡ forward_subscribe_ok 40 accepted ∷ [])
    × (get video o.1.subscriptions
        ≡ some (record of_publisher { subscribers = first ∷ entry_of asking ∷ [] }))
    × (is_locked video o.1 ≡ false)
run-aggregated_example =
    run-aggregated asking of_publisher true subscribed IsAdmitted-to found_video

IsAdmitted-nobody : IsAdmitted asking nobody
unfolding has_unsupported_filter is_utf8 utf8_from following is_locked get
IsAdmitted-nobody = record { filter = refl; name = refl; free = refl }

no_publisher : find_publisher of_ab nobody ≡ none
unfolding find_publisher find_publisher_from get pop
no_publisher = refl

no_video : get video nobody.subscriptions ≡ none
unfolding get
no_video = refl

run-refused_example :
    let o = run asking checking (ready ∷ ready ∷ ready ∷ ready ∷ sent true ∷ []) nobody in
    (o.0 ≡ finished)
    × (o.2 ≡ reject 40 0x10 "no publisher for namespace" ∷ [])
    × (o.1.subscriptions ≡ nobody.subscriptions)
    × (is_locked video o.1 ≡ false)
run-refused_example = run-refused asking true nobody IsAdmitted-nobody no_video no_publisher

IsAdmitted-announced : IsAdmitted asking announced_only
unfolding has_unsupported_filter is_utf8 utf8_from following is_locked get
IsAdmitted-announced = record { filter = refl; name = refl; free = refl }

run-established_example :
    let o =
      run asking checking
        (ready ∷ ready ∷ ready ∷ ready ∷ answered (some accepted) ∷ ready ∷ sent true ∷ [])
        announced_only in
    (o.0 ≡ awaiting video)
    × (o.2 ≡ subscribe 10 of_ab (118 ∷ []) ask.parameters ∷ forward_subscribe_ok 40 accepted ∷ [])
    × (get video o.1.subscriptions
        ≡ some (record of_publisher { subscribers = entry_of asking ∷ [] }))
    × (is_locked video o.1 ≡ false)
run-established_example =
    run-established asking 0 10 accepted announced_only IsAdmitted-announced no_video
      find_publisher-longer

-- A relay to which publisher 0 has come, and whose task 0 has its SUBSCRIBE upstream.
abbrev no_tasks : ℕ → Task
no_tasks i = asking

abbrev upstream_world : World
upstream_world = advanced 0 ready (
    advanced 0 ready (
      advanced 0 ready (
        advanced 0 ready (
          spawned 0 asking (
            announced of_a 0
              (connected 10 (record { state = new; tasks = no_tasks; phases = no_task })))))))

upstream_reached : Reachable upstream_world
unfolding connected announced new
upstream_reached =
    after
      (after
        (after
          (after
            (after (after (after (start no_tasks) (connect 10)) (announce of_a 0))
              (spawn 0 asking refl))
            (proceed 0 ready))
          (proceed 0 ready))
        (proceed 0 ready))
      (proceed 0 ready)

is_upstream : upstream_world.phases 0 ≡ subscribing video 0
unfolding connected announced new spawned advanced advance Subscribe.on_checking
    Subscribe.on_locking Subscribe.on_aggregating Subscribe.on_existing Subscribe.on_searching
    Subscribe.on_publisher register_session register_namespace set_lock is_locked insert remove get
    find_existing_subscription find_publisher find_publisher_from with_session pop
    has_unsupported_filter is_utf8 utf8_from following same_fields same_bytes
is_upstream = refl

Reachable-IsSafe_example : IsSafe upstream_world
Reachable-IsSafe_example = Reachable-IsSafe upstream_reached

goes_upstream : upstream (upstream_world.phases 0) ≡ some video
unfolding upstream
goes_upstream = ap upstream is_upstream

upstream_once_test : ◌≡◌ {A = ℕ} 0 0
upstream_once_test = upstream_once {i = 0} {j = 0} upstream_reached goes_upstream goes_upstream

answer-recorded_example :
    (get video upstream_world.state.subscriptions ≡ none)
    × (get video (advanced 0 (answered (some accepted)) upstream_world).state.subscriptions
        ≡ some (record {
          publisher_session = 0;
          publisher_track_alias = 5;
          subscribe_ok = accepted;
          subscribers =
              record {
                session_id = (upstream_world.tasks 0).subscriber_session;
                request = (upstream_world.tasks 0).request;
              }
              ∷ [];
        }))
answer-recorded_example = answer-recorded accepted upstream_reached is_upstream
