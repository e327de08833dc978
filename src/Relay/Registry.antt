-- ===== src/Relay/Registry.antt =====
-- What RelayState of moqt-relay/src/relay.rs promises: the relay's registry as functions of a
-- session id, a namespace and a track, which know nothing of maps, their order or the locks.
pub mod Lookups
pub mod Refinement
pub mod Worlds
use moqt_minimal.Prelude.{
  ℕ, zero, suc, ◌+◌, ◌%◌, ◌^◌, Option, none, some, ◌==◌, if◌then◌else◌, List, [], ◌∷◌, take, length,
  ◌≡◌, ◌++◌, ◌&&◌, map,
}
use mathlib.Core.Option
use moqt_minimal.Map.{and_then}
use moqt_minimal.Wire.TrackNamespace.{TrackNamespace}
use moqt_minimal.Wire.SubscribeOk.{SubscribeOkMessage}
use moqt_minimal.Relay.Keys.{FullTrackName, track_key, namespace_key}
use moqt_minimal.Relay.State
use moqt_minimal.Relay.State.{
  RelayState, SessionId, SessionRef, Subscription, SubscriberEntry, RequestRef, retained,
  push_subscriber, register_session, remove_session, register_namespace, add_subscriber,
  push_to_existing,
}
use moqt_minimal.Relay.State.Membership.{In}
use moqt_minimal.Relay.Subscribe.{set_lock}
use moqt_minimal.Prelude.{Bool}

pub record Registry : Type 0 where
  pub next_id : ℕ
  pub session_of : SessionId → Option SessionRef
  pub publisher_of : TrackNamespace → Option SessionId
  pub subscription_of : FullTrackName → Option Subscription

abbrev pub Distinct : {A : Type 0} → List A → Type 0
Distinct [] = Unit
Distinct (x ∷ xs) = (In x xs → ⊥) × Distinct xs

abbrev pub empty : Registry
empty = record {
  next_id = 0;
  session_of = λ id. none;
  publisher_of = λ ns. none;
  subscription_of = λ track. none;
}

-- An access to the relay's state, as the sessions and their tasks make it.
pub data Access : Type 0 where
  connect : SessionRef → Access
  disconnect : SessionId → Access
  announce : TrackNamespace → SessionId → Access
  subscribe : FullTrackName → SessionId → SubscribeOkMessage → SubscriberEntry → Access
  join : FullTrackName → SubscriberEntry → Access
  lock : Bool → FullTrackName → Access

unfoldable pub accessed : Access → RelayState → RelayState
unfolding register_session remove_session register_namespace add_subscriber push_to_existing
    set_lock
accessed (connect session) s = (register_session session s).1
accessed (disconnect id) s = remove_session id s
accessed (announce ns id) s = register_namespace ns id s
accessed (subscribe track publisher ok e) s = add_subscriber track publisher ok.track_alias ok e s
accessed (join track e) s = push_to_existing track e s
accessed (lock taken track) s = set_lock taken track s

abbrev pub fresh_subscription : SessionId → SubscribeOkMessage → Subscription
fresh_subscription publisher ok = record {
  publisher_session = publisher;
  publisher_track_alias = ok.track_alias;
  subscribe_ok = ok;
  subscribers = [];
}

abbrev pub or_fresh : Subscription → Option Subscription → Subscription
or_fresh fresh none = fresh
or_fresh fresh (some sub) = sub

-- What each access means for the registry.
unfoldable pub meant : Access → Registry → Registry
meant (connect session) r = record r {
  next_id = (r.next_id + 1) % 2 ^ 64;
  session_of = λ id. if r.next_id == id then some session else r.session_of id;
}
meant (disconnect gone) r = record r {
  session_of = λ id. if gone == id then none else r.session_of id;
  publisher_of = λ ns. and_then (r.publisher_of ns) (λ id. if id == gone then none else some id);
  subscription_of = λ track. and_then (r.subscription_of track) (retained gone);
}
meant (announce new id) r = record r {
  publisher_of = λ ns. if namespace_key.same new ns then some id else r.publisher_of ns;
}
meant (subscribe new publisher ok e) r = record r {
  subscription_of = λ track.
      if track_key.same new track
      then some
          (push_subscriber e (or_fresh (fresh_subscription publisher ok) (r.subscription_of new)))
      else r.subscription_of track;
}
meant (join new e) r = record r {
  subscription_of = λ track.
      if track_key.same new track
      then Option.map (push_subscriber e) (r.subscription_of track)
      else r.subscription_of track;
}
meant (lock taken track) r = r

abbrev pub requests_of : Option Subscription → List RequestRef
requests_of none = []
requests_of (some sub) = map (λ (e : SubscriberEntry). e.request) sub.subscribers

module _ (r : Registry) where
  abbrev pub with_session :
      Option SessionId → Option (SessionId × SessionRef) → Option (SessionId × SessionRef)
  with_session none otherwise = otherwise
  with_session (some id) otherwise = Option.map (λ session. (id, session)) (r.session_of id)

  -- The publisher of the longest prefix, of at most `n` fields, that has one.
  unfoldable pub nearest : List (List ℕ) → ℕ → Option (SessionId × SessionRef)
  nearest fields zero = with_session (r.publisher_of (record { fields = [] })) none
  nearest fields (suc n) =
      with_session (r.publisher_of (record { fields = take (suc n) fields })) (nearest fields n)

  -- A session that a publisher's objects with an alias are for.
  pub record Receives (publisher alias : ℕ) (session : SessionRef) : Type 0 where
    pub track : FullTrackName
    pub sub : Subscription
    pub entry : SubscriberEntry
    pub of_track : r.subscription_of track ≡ some sub
    pub from_publisher : sub.publisher_session ≡ publisher
    pub with_alias : sub.publisher_track_alias ≡ alias
    pub of_entry : In entry sub.subscribers
    pub connected : r.session_of entry.session_id ≡ some session

  -- The sessions of these subscribers that are still connected, in order.
  unfoldable pub live : List SubscriberEntry → List SessionRef
  live [] = []
  live (e ∷ es) =
      let rest = live es in
      elim (r.session_of e.session_id) [ none ↦ rest | some session ↦ session ∷ rest ]

  -- What a publisher's objects with an alias are for, when the tracks are asked in this order.
  unfoldable pub receivers_of : (publisher alias : ℕ) → List FullTrackName → List SessionRef
  unfolding live
  receivers_of publisher alias [] = []
  receivers_of publisher alias (track ∷ tracks) =
      let rest = receivers_of publisher alias tracks in
      elim (r.subscription_of track) [
        | none ↦ rest
        | some sub ↦
            if sub.publisher_session == publisher && sub.publisher_track_alias == alias
            then live sub.subscribers ++ rest
            else rest
      ]

  -- Each track with a subscription is asked once, in some order.
  pub record IsListing (tracks : List FullTrackName) : Type 0 where
    pub distinct : Distinct tracks
    pub complete :
        (track : FullTrackName) (sub : Subscription)
        → r.subscription_of track ≡ some sub
        → In track tracks
