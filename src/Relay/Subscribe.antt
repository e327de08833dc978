-- ===== src/Relay/Subscribe.antt =====
-- moqt-relay/src/relay.rs, handle_subscribe: one task for each SUBSCRIBE. A phase is a point
-- between two accesses to the shared state, so that other tasks may run there.
pub mod Outcomes
pub mod Served
use Prim.Native.String.{String}
use moqt_minimal.Prelude.{
  ℕ, Bool, true, false, not, ◌||◌, Option, none, some, List, [], ◌∷◌, ◌++◌, if◌then◌else◌, map,
}
use moqt_minimal.Map.{get, insert}
use moqt_minimal.Wire.Parameter.{
  SubscriptionFilter, next_group_start, from_largest_object, largest_object, forward,
  subscription_filter, absolute_start, absolute_range, MessageParameter,
}
use moqt_minimal.Wire.TrackNamespace.{TrackNamespace}
use moqt_minimal.Wire.Subscribe.{SubscribeMessage}
use moqt_minimal.Wire.SubscribeOk.{SubscribeOkMessage}
use moqt_minimal.Wire.PublishDone.{PublishDoneMessage}
use moqt_minimal.Wire.RequestError.{error_not_supported, error_does_not_exist}
use moqt_minimal.Relay.Keys.{FullTrackName, track_key}
use moqt_minimal.Relay.Utf8.{is_utf8}
use moqt_minimal.Relay.State.{
  RelayState, SessionId, SessionRef, RequestRef, Subscription, find_publisher, add_subscriber,
  find_existing_subscription, push_to_existing, find_subscriber_requests,
}
use moqt_minimal.Wire.Parameter.{forward, subscription_filter}

-- What the task sends: an answer to a subscriber, or SUBSCRIBE to a publisher's session.
pub data Effect : Type 0 where
  reject : RequestRef → ℕ → String → Effect
  forward_subscribe_ok : RequestRef → SubscribeOkMessage → Effect
  subscribe : SessionRef → TrackNamespace → List ℕ → List MessageParameter → Effect
  forward_publish_done : RequestRef → PublishDoneMessage → Effect

-- What an awaited call returns: the outcome of a write, the answer to SUBSCRIBE, PUBLISH_DONE; an
-- error is `false` or `none`. `ready` is the taking of a lock.
pub data Input : Type 0 where
  ready : Input
  sent : Bool → Input
  answered : Option SubscribeOkMessage → Input
  published : Option PublishDoneMessage → Input

-- The guard of the track's lock is held from `aggregating` to `recorded`.
pub data Phase : Type 0 where
  idle checking finished : Phase
  locking aggregating searching rejecting : FullTrackName → Phase
  answering : FullTrackName → SubscribeOkMessage → Phase
  subscribing : FullTrackName → SessionId → Phase
  recorded confirming : FullTrackName → SubscribeOkMessage → Phase
  awaiting : FullTrackName → Phase

pub record Task : Type 0 where
  pub subscriber_session : SessionId
  pub request : RequestRef
  pub message : SubscribeMessage

abbrev pub Outcome : Type 0
Outcome = Phase × RelayState × List Effect

-- `parameters.iter().any(…)`.
unfoldable pub has_unsupported_filter : List MessageParameter → Bool
has_unsupported_filter [] = false
has_unsupported_filter (largest_object g o ∷ ps) = has_unsupported_filter ps
has_unsupported_filter (forward v ∷ ps) = has_unsupported_filter ps
has_unsupported_filter (subscription_filter next_group_start ∷ ps) = has_unsupported_filter ps
has_unsupported_filter (subscription_filter from_largest_object ∷ ps) = true
has_unsupported_filter (subscription_filter (absolute_start g o) ∷ ps) = true
has_unsupported_filter (subscription_filter (absolute_range g o d) ∷ ps) = true

unfoldable pub is_locked : FullTrackName → RelayState → Bool
is_locked track s = elim (get track s.track_locks) [ none ↦ false | some taken ↦ taken ]

-- The mutex of a track is taken, or its guard is dropped.
unfoldable pub set_lock : Bool → FullTrackName → RelayState → RelayState
set_lock taken track s = record s { track_locks = insert track taken s.track_locks }

-- From the start to the wait for the track's lock.
unfoldable pub on_checking : Task → RelayState → Outcome
on_checking task s =
    let msg = task.message in
    let track : FullTrackName = record { namespace = msg.track_namespace; name = msg.track_name } in
    if has_unsupported_filter msg.parameters
    then (
      finished,
      s,
      reject task.request error_not_supported "only NextGroupStart filter is supported" ∷ [],
    )
    else (if is_utf8 msg.track_name then (locking track, s, []) else (finished, s, []))

-- `track_locks.entry(track).or_default()`, and `lock()` once the mutex is free.
unfoldable pub on_locking : FullTrackName → RelayState → Outcome
unfolding is_locked set_lock
on_locking track s =
    if is_locked track s
    then (locking track, s, [])
    else (aggregating track, set_lock true track s, [])

-- Subscription aggregation, after the look for a subscription.
unfoldable pub on_existing : Task → FullTrackName → Option Subscription → RelayState → Outcome
on_existing task track none s = (searching track, s, [])
on_existing task track (some existing) s = (
  answering track existing.subscribe_ok,
  push_to_existing track (record { session_id = task.subscriber_session; request = task.request })
      s,
  forward_subscribe_ok task.request existing.subscribe_ok ∷ [],
)

unfoldable pub on_aggregating : Task → FullTrackName → RelayState → Outcome
unfolding on_existing
on_aggregating task track s = on_existing task track (find_existing_subscription track s) s

-- `match state.lock().await.find_publisher(…)`.
unfoldable pub on_publisher :
    Task → FullTrackName → Option (SessionId × SessionRef) → RelayState → Outcome
on_publisher task track none s =
    (rejecting track, s, reject task.request error_does_not_exist "no publisher for namespace" ∷ [])
on_publisher task track (some (publisher, session)) s = (
  subscribing track publisher,
  s,
  subscribe session task.message.track_namespace task.message.track_name task.message.parameters
      ∷ [],
)

unfoldable pub on_searching : Task → FullTrackName → RelayState → Outcome
unfolding on_publisher
on_searching task track s =
    on_publisher task track (find_publisher task.message.track_namespace s) s

-- The task returns, and drops the guard.
unfoldable pub on_return : FullTrackName → RelayState → Outcome
unfolding set_lock
on_return track s = (finished, set_lock false track s, [])

-- The publisher's answer: `?` returns on an error, otherwise the subscription is recorded.
unfoldable pub on_answer :
    Task → FullTrackName → SessionId → Option SubscribeOkMessage → RelayState → Outcome
unfolding on_return
on_answer task track publisher none s = on_return track s
on_answer task track publisher (some ok) s = (
  recorded track ok,
  add_subscriber track publisher ok.track_alias ok
      (record { session_id = task.subscriber_session; request = task.request }) s,
  [],
)

-- `drop(track_guard)`, then SUBSCRIBE_OK is sent.
unfoldable pub on_recorded : Task → FullTrackName → SubscribeOkMessage → RelayState → Outcome
unfolding set_lock
on_recorded task track ok s =
    (confirming track ok, set_lock false track s, forward_subscribe_ok task.request ok ∷ [])

unfoldable pub on_published : FullTrackName → Option PublishDoneMessage → RelayState → Outcome
on_published track none s = (finished, s, [])
on_published track (some publish_done) s = (
  finished,
  s,
  map (λ request. forward_publish_done request publish_done) (find_subscriber_requests track s),
)

-- What the task does next in a phase, on what it awaited.
unfoldable pub advance : Task → Phase → Input → RelayState → Outcome
unfolding on_checking on_locking on_aggregating on_searching on_return on_answer on_recorded
    on_published
advance task idle input s = (idle, s, [])
advance task finished input s = (finished, s, [])
advance task checking input s = on_checking task s
advance task (locking track) input s = on_locking track s
advance task (aggregating track) input s = on_aggregating task track s
advance task (answering track ok) input s = on_return track s
advance task (searching track) input s = on_searching task track s
advance task (rejecting track) input s = on_return track s
advance task (subscribing track publisher) (answered answer) s =
    on_answer task track publisher answer s
advance task (subscribing track publisher) ready s = (subscribing track publisher, s, [])
advance task (subscribing track publisher) (sent b) s = (subscribing track publisher, s, [])
advance task (subscribing track publisher) (published d) s = (subscribing track publisher, s, [])
advance task (recorded track ok) input s = on_recorded task track ok s
advance task (confirming track ok) (sent true) s = (awaiting track, s, [])
advance task (confirming track ok) (sent false) s = (finished, s, [])
advance task (confirming track ok) ready s = (confirming track ok, s, [])
advance task (confirming track ok) (answered a) s = (confirming track ok, s, [])
advance task (confirming track ok) (published d) s = (confirming track ok, s, [])
advance task (awaiting track) (published publish_done) s = on_published track publish_done s
advance task (awaiting track) ready s = (awaiting track, s, [])
advance task (awaiting track) (sent b) s = (awaiting track, s, [])
advance task (awaiting track) (answered a) s = (awaiting track, s, [])

-- A task that runs alone.
unfoldable pub run : Task → Phase → List Input → RelayState → Outcome
unfolding advance
run task p [] s = (p, s, [])
run task p (input ∷ inputs) s =
    let (p1, s1, sent1) = advance task p input s in
    let (p2, s2, sent2) = run task p1 inputs s1 in (p2, s2, sent1 ++ sent2)
