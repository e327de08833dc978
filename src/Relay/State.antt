-- ===== src/Relay/State.antt =====
-- moqt-relay/src/relay.rs, RelayState: the state that all sessions share. An Arc is modelled by
-- the address of what it points to.
pub mod Publisher
pub mod Removal
pub mod Membership
pub mod Receivers
use moqt_minimal.Prelude.{
  ℕ, zero, suc, ◌+◌, Bool, true, false, not, ◌&&◌, Option, none, some, List, [], ◌∷◌, ◌++◌,
}
use moqt_minimal.Prelude.{◌==◌, if◌then◌else◌, length, is_empty, map, ◌%◌, ◌^◌}
use moqt_minimal.Map.{Map, get, insert, remove, retain, modify, upsert, values}
use moqt_minimal.Wire.TrackNamespace.{TrackNamespace}
use moqt_minimal.Wire.SubscribeOk.{SubscribeOkMessage}
use moqt_minimal.Relay.Keys.{FullTrackName, session_id_key, namespace_key, track_key}

-- A session id, the address of a MoqtSession, the address of a SubscribeRequest.
abbrev pub SessionId : Type 0
SessionId = ℕ

abbrev pub SessionRef : Type 0
SessionRef = ℕ

abbrev pub RequestRef : Type 0
RequestRef = ℕ

pub record SubscriberEntry : Type 0 where
  pub session_id : SessionId
  pub request : RequestRef

pub record Subscription : Type 0 where
  pub publisher_session : SessionId
  pub publisher_track_alias : ℕ
  pub subscribe_ok : SubscribeOkMessage
  pub subscribers : List SubscriberEntry

-- `track_locks` holds for each track whether its mutex is taken. An entry is never removed, so
-- the clones of its Arc all point to the one mutex.
pub record RelayState : Type 0 where
  pub next_session_id : ℕ
  pub sessions : Map SessionId SessionRef
  pub namespace_to_publisher : Map TrackNamespace SessionId
  pub subscriptions : Map FullTrackName Subscription
  pub track_locks : Map FullTrackName Bool

unfoldable pub new : RelayState
new = record {
  next_session_id = 0;
  sessions = [];
  namespace_to_publisher = [];
  subscriptions = [];
  track_locks = [];
}

unfoldable pub register_session : SessionRef → RelayState → SessionId × RelayState
register_session session s =
    let id = s.next_session_id in
    (id, record s { next_session_id = (id + 1) % 2 ^ 64; sessions = insert id session s.sessions })

unfoldable pub retain_subscribers : SessionId → List SubscriberEntry → List SubscriberEntry
retain_subscribers id [] = []
retain_subscribers id (e ∷ es) =
    let rest = retain_subscribers id es in if e.session_id == id then rest else e ∷ rest

-- The closure that `remove_session` hands to `retain` on the subscriptions.
unfoldable pub retained : SessionId → Subscription → Option Subscription
retained id sub =
    let left = retain_subscribers id sub.subscribers in
    if sub.publisher_session == id
    then none
    else (if is_empty left then none else some (record sub { subscribers = left }))

unfoldable pub remove_session : SessionId → RelayState → RelayState
remove_session id s = record s {
  sessions = remove id s.sessions;
  namespace_to_publisher = retain (λ v. if v == id then none else some v) s.namespace_to_publisher;
  subscriptions = retain (retained id) s.subscriptions;
}

unfoldable pub register_namespace : TrackNamespace → SessionId → RelayState → RelayState
register_namespace namespace session_id s = record s {
  namespace_to_publisher = insert namespace session_id s.namespace_to_publisher;
}

-- `Vec::pop`.
unfoldable pub pop : List (List ℕ) → List (List ℕ)
pop [] = []
pop (f ∷ []) = []
pop (f ∷ g ∷ fs) = f ∷ pop (g ∷ fs)

-- The body under `if let Some(&pub_id)`.
unfoldable pub with_session : SessionId → RelayState → Option (SessionId × SessionRef)
with_session pub_id s = elim (get pub_id s.sessions) [
  | none ↦ none
  | some session ↦ some (pub_id, session)
]

-- The loop of `find_publisher`; each round drops a field, so as many rounds as there are fields,
-- and one for the empty prefix, are enough.
unfoldable pub find_publisher_from :
    ℕ → List (List ℕ) → RelayState → Option (SessionId × SessionRef)
unfolding with_session
find_publisher_from zero prefix s = none
find_publisher_from (suc rounds) prefix s =
    elim (get (record { fields = prefix }) s.namespace_to_publisher) [
      | some pub_id ↦ with_session pub_id s
      | none ↦ elim (is_empty prefix) [
        | true ↦ none
        | false ↦ find_publisher_from rounds (pop prefix) s
      ]
    ]

unfoldable pub find_publisher : TrackNamespace → RelayState → Option (SessionId × SessionRef)
unfolding find_publisher_from
find_publisher ns s = find_publisher_from (suc (length ns.fields)) ns.fields s

abbrev pub push_subscriber : SubscriberEntry → Subscription → Subscription
push_subscriber e sub = record sub { subscribers = sub.subscribers ++ (e ∷ []) }

unfoldable pub add_subscriber :
    FullTrackName → SessionId → ℕ → SubscribeOkMessage → SubscriberEntry → RelayState → RelayState
add_subscriber track publisher_session publisher_track_alias subscribe_ok subscriber s = record s {
  subscriptions =
      upsert track
        (record {
          publisher_session = publisher_session;
          publisher_track_alias = publisher_track_alias;
          subscribe_ok = subscribe_ok;
          subscribers = [];
        })
        (push_subscriber subscriber) s.subscriptions;
}

-- `filter_map` over the subscribers of one subscription.
unfoldable pub live_sessions : Map SessionId SessionRef → List SubscriberEntry → List SessionRef
live_sessions sessions [] = []
live_sessions sessions (e ∷ es) =
    let rest = live_sessions sessions es in
    elim (get e.session_id sessions) [ none ↦ rest | some session ↦ session ∷ rest ]

-- `filter` and `flat_map` over the subscriptions.
unfoldable pub matching_sessions :
    SessionId → ℕ → Map SessionId SessionRef → List Subscription → List SessionRef
unfolding live_sessions
matching_sessions publisher_session track_alias sessions [] = []
matching_sessions publisher_session track_alias sessions (sub ∷ subs) =
    let rest = matching_sessions publisher_session track_alias sessions subs in
    if sub.publisher_session == publisher_session && sub.publisher_track_alias == track_alias
    then live_sessions sessions sub.subscribers ++ rest
    else rest

unfoldable pub find_subscriber_sessions : SessionId → ℕ → RelayState → List SessionRef
unfolding matching_sessions
find_subscriber_sessions publisher_session track_alias s =
    matching_sessions publisher_session track_alias s.sessions (values s.subscriptions)

unfoldable pub find_existing_subscription : FullTrackName → RelayState → Option Subscription
find_existing_subscription track s = get track s.subscriptions

-- What the caller of `find_existing_subscription_mut` pushes through the reference.
unfoldable pub push_to_existing : FullTrackName → SubscriberEntry → RelayState → RelayState
push_to_existing track e s = record s {
  subscriptions = modify track (push_subscriber e) s.subscriptions;
}

unfoldable pub find_subscriber_requests : FullTrackName → RelayState → List RequestRef
find_subscriber_requests track s = elim (get track s.subscriptions) [
  | none ↦ []
  | some sub ↦ map (λ (e : SubscriberEntry). e.request) sub.subscribers
]
