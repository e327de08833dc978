-- ===== src/Relay/Registry/Refinement.antt =====
-- RelayState implements the registry: every access has the effect that it means.
use moqt_minimal.Prelude.{
  ℕ, ◌≡◌, refl, ap, ◌∙◌, Option, none, some, List, length, ◌==◌, if◌then◌else◌, ◌↔◌,
}
use moqt_minimal.Map.{get, and_then}
use moqt_minimal.Map.Laws.{
  get-remove, get-insert, get-modify, get-upsert, get-retain, remove-IsUnique, insert-IsUnique,
  modify-IsUnique, upsert-IsUnique, retain-IsUnique,
}
use moqt_minimal.Wire.TrackNamespace.{TrackNamespace}
use moqt_minimal.Wire.SubscribeOk.{SubscribeOkMessage}
use moqt_minimal.Relay.Keys.{FullTrackName, track_key, namespace_key, session_id_key}
use moqt_minimal.Relay.State.{
  RelayState, SessionId, SessionRef, Subscription, SubscriberEntry, retained, push_subscriber, new,
  register_session, remove_session, register_namespace, add_subscriber, push_to_existing,
  find_publisher, find_subscriber_sessions, find_subscriber_requests,
}
use moqt_minimal.Relay.State.Membership.{In}
use moqt_minimal.Relay.Subscribe.{set_lock}
use moqt_minimal.Relay.Registry.{
  Registry, Access, connect, disconnect, announce, subscribe, join, lock, accessed, meant, empty,
  nearest, Receives, receivers_of, IsListing, requests_of, or_fresh, fresh_subscription,
}
use moqt_minimal.Relay.Registry.Lookups.{
  Represents, find_publisher-nearest, find_subscriber_sessions-Receives,
  find_subscriber_sessions-receivers, find_subscriber_requests-requests_of,
}
use moqt_minimal.Prelude.{Bool}
use moqt_minimal.Relay.State.{find_existing_subscription}

abbrev dropped : SessionId → SessionId → Option SessionId
dropped gone v = if v == gone then none else some v

pushed_fresh :
    (e : SubscriberEntry) (fresh : Subscription) (o : Option Subscription)
    → (elim o as (λ o. Subscription) [
      | none ↦ push_subscriber e fresh
      | some sub ↦ push_subscriber e sub
    ])
      ≡ push_subscriber e (or_fresh fresh o)
pushed_fresh e fresh none = refl
pushed_fresh e fresh (some sub) = refl

module _ (s : RelayState) (r : Registry) (h : Represents s r) where
  connected-Represents :
      (session : SessionRef) → Represents (accessed (connect session) s) (meant (connect session) r)
  unfolding accessed meant register_session
  connected-Represents session = record {
    next_id = rw h.next_id refl;
    sessions = λ id.
        get-insert id s.next_session_id session s.sessions ∙ rw (h.next_id, h.sessions id) refl;
    publishers = h.publishers;
    subscriptions = h.subscriptions;
    unique_sessions = insert-IsUnique s.next_session_id session s.sessions h.unique_sessions;
    unique_namespaces = h.unique_namespaces;
    unique_subscriptions = h.unique_subscriptions;
  }

  disconnected-Represents :
      (gone : SessionId) → Represents (accessed (disconnect gone) s) (meant (disconnect gone) r)
  unfolding accessed meant remove_session
  disconnected-Represents gone = record {
    next_id = h.next_id;
    sessions = λ id. get-remove id gone s.sessions ∙ rw (h.sessions id) refl;
    publishers = λ ns.
        get-retain ns (dropped gone) s.namespace_to_publisher h.unique_namespaces
        ∙ ap (λ o. and_then o (dropped gone)) (h.publishers ns);
    subscriptions = λ track.
        get-retain track (retained gone) s.subscriptions h.unique_subscriptions
        ∙ ap (λ o. and_then o (retained gone)) (h.subscriptions track);
    unique_sessions = remove-IsUnique gone s.sessions h.unique_sessions;
    unique_namespaces = retain-IsUnique (dropped gone) s.namespace_to_publisher h.unique_namespaces;
    unique_subscriptions = retain-IsUnique (retained gone) s.subscriptions h.unique_subscriptions;
  }

  announced-Represents :
      (ns : TrackNamespace) (id : SessionId)
      → Represents (accessed (announce ns id) s) (meant (announce ns id) r)
  unfolding accessed meant register_namespace
  announced-Represents ns id = record {
    next_id = h.next_id;
    sessions = h.sessions;
    publishers = λ m. get-insert m ns id s.namespace_to_publisher ∙ rw (h.publishers m) refl;
    subscriptions = h.subscriptions;
    unique_sessions = h.unique_sessions;
    unique_namespaces = insert-IsUnique ns id s.namespace_to_publisher h.unique_namespaces;
    unique_subscriptions = h.unique_subscriptions;
  }

  pub joined-Represents :
      (track : FullTrackName) (e : SubscriberEntry)
      → Represents (accessed (join track e) s) (meant (join track e) r)
  unfolding accessed meant push_to_existing
  joined-Represents track e = record {
    next_id = h.next_id;
    sessions = h.sessions;
    publishers = h.publishers;
    subscriptions =
        λ t. get-modify t track (push_subscriber e) s.subscriptions ∙ rw (h.subscriptions t) refl;
    unique_sessions = h.unique_sessions;
    unique_namespaces = h.unique_namespaces;
    unique_subscriptions =
        modify-IsUnique track (push_subscriber e) s.subscriptions h.unique_subscriptions;
  }

  pub subscribed-Represents :
      (track : FullTrackName) (id : SessionId) (ok : SubscribeOkMessage) (e : SubscriberEntry)
      → Represents (accessed (subscribe track id ok e) s) (meant (subscribe track id ok e) r)
  unfolding accessed meant add_subscriber
  subscribed-Represents track id ok e = record {
    next_id = h.next_id;
    sessions = h.sessions;
    publishers = h.publishers;
    subscriptions = λ t.
        get-upsert t track (fresh_subscription id ok) (push_subscriber e) s.subscriptions
        ∙ rw (h.subscriptions t, h.subscriptions track)
            (ap (λ o. if track_key.same track t then some o else r.subscription_of t)
              (pushed_fresh e (fresh_subscription id ok) (r.subscription_of track)));
    unique_sessions = h.unique_sessions;
    unique_namespaces = h.unique_namespaces;
    unique_subscriptions =
        upsert-IsUnique track (fresh_subscription id ok) (push_subscriber e) s.subscriptions
          h.unique_subscriptions;
  }

  pub locked-Represents :
      (taken : Bool) (track : FullTrackName)
      → Represents (accessed (lock taken track) s) (meant (lock taken track) r)
  unfolding accessed meant set_lock
  locked-Represents taken track = record {
    next_id = h.next_id;
    sessions = h.sessions;
    publishers = h.publishers;
    subscriptions = h.subscriptions;
    unique_sessions = h.unique_sessions;
    unique_namespaces = h.unique_namespaces;
    unique_subscriptions = h.unique_subscriptions;
  }

  pub accessed-Represents : (a : Access) → Represents (accessed a s) (meant a r)
  accessed-Represents (connect session) = connected-Represents session
  accessed-Represents (disconnect gone) = disconnected-Represents gone
  accessed-Represents (announce ns id) = announced-Represents ns id
  accessed-Represents (subscribe track id ok e) = subscribed-Represents track id ok e
  accessed-Represents (join track e) = joined-Represents track e
  accessed-Represents (lock taken track) = locked-Represents taken track

pub new-Represents : Represents new empty
unfolding new get
new-Represents = record {
  next_id = refl;
  sessions = λ id. refl;
  publishers = λ ns. refl;
  subscriptions = λ track. refl;
  unique_sessions = tt;
  unique_namespaces = tt;
  unique_subscriptions = tt;
}

-- What the relay's handlers ask of the state, answered as the registry says.
pub record Implements (s : RelayState) (r : Registry) : Type 0 where
  pub id : s.next_session_id ≡ r.next_id
  pub session : (id : SessionId) → get id s.sessions ≡ r.session_of id
  pub subscription :
      (track : FullTrackName) → find_existing_subscription track s ≡ r.subscription_of track
  pub requests :
      (track : FullTrackName)
      → find_subscriber_requests track s ≡ requests_of (r.subscription_of track)
  pub publisher :
      (ns : TrackNamespace) → find_publisher ns s ≡ nearest r ns.fields (length ns.fields)
  pub receivers :
      (publisher alias : ℕ) (session : SessionRef)
      → In session (find_subscriber_sessions publisher alias s) ↔ Receives r publisher alias session
  pub sequence :
      (publisher alias : ℕ)
      → (tracks : List FullTrackName) × IsListing r tracks
        × (find_subscriber_sessions publisher alias s ≡ receivers_of r publisher alias tracks)

pub Represents-Implements : (s : RelayState) (r : Registry) → Represents s r → Implements s r
unfolding find_existing_subscription
Represents-Implements s r h = record {
  id = h.next_id;
  session = h.sessions;
  subscription = h.subscriptions;
  requests = find_subscriber_requests-requests_of s r h;
  publisher = find_publisher-nearest s r h;
  receivers = find_subscriber_sessions-Receives s r h;
  sequence = find_subscriber_sessions-receivers s r h;
}
