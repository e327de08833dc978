-- ===== src/Relay/State/Removal.antt =====
-- `remove_session`: what is left of a session that has gone, and of the others.
use moqt_minimal.Prelude.{
  ◌≡◌, ◌≢◌, ap, sym, ◌∙◌, false, Option, none, some, List, [], ◌∷◌, All, arith, ◌==◌, ==_iff,
  if◌then◌else◌, Bool-cases, Option-cases, inl, inr, is_empty,
}
use mathlib.Core.Path.{subst}
use moqt_minimal.Map.{Map, Key, get, retain, values, and_then}
use moqt_minimal.Map.Laws.{get-remove, get-retain, IsUnique}
use moqt_minimal.Relay.State.Membership.{In, here, there, In-filled}
use moqt_minimal.Relay.Keys.{FullTrackName, session_id_key, namespace_key, track_key}
use moqt_minimal.Relay.State.{
  RelayState, SessionId, SubscriberEntry, Subscription, retain_subscribers, retained,
  remove_session,
}

-- Every value that `retain` leaves came out of its test.
All-retain :
    {K V : Type 0} ⦃key : Key K⦄ {Q : V → Type 0} (f : V → Option V)
    → ((v u : V) → f v ≡ some u → Q u)
    → (m : Map K V) → All Q (values (retain f m))
unfolding values retain
All-retain f h [] = tt
All-retain {K} {V} ⦃key⦄ {Q} f h ((j, v) ∷ m) = elim (Option-cases (f v)) [
  | inl e ↦
      subst (λ o. All Q (values (elim o [ none ↦ retain f m | some u ↦ (j, u) ∷ retain f m ])))
        (sym e) (All-retain f h m)
  | inr (u, e) ↦
      subst (λ o. All Q (values (elim o [ none ↦ retain f m | some u ↦ (j, u) ∷ retain f m ])))
        (sym e) (h v u e, All-retain f h m)
]

retain_subscribers-others :
    (id : SessionId) (es : List SubscriberEntry)
    → All (λ (e : SubscriberEntry). e.session_id ≢ id) (retain_subscribers id es)
unfolding retain_subscribers
retain_subscribers-others id [] = tt
retain_subscribers-others id (e ∷ es) = elim (Bool-cases (e.session_id == id)) [
  | inl d ↦ rw d (retain_subscribers-others id es)
  | inr d ↦ rw d (ground arith, retain_subscribers-others id es)
]

-- A subscription that does not refer to the session, and that somebody receives.
pub record IsWithout (id : SessionId) (sub : Subscription) : Type 0 where
  pub publisher : sub.publisher_session ≢ id
  pub subscribers : All (λ (e : SubscriberEntry). e.session_id ≢ id) sub.subscribers
  pub received : is_empty sub.subscribers ≡ false

-- No part of the state refers to the session.
pub record IsForgotten (id : SessionId) (s : RelayState) : Type 0 where
  pub session : get id s.sessions ≡ none
  pub namespaces : All (λ (p : SessionId). p ≢ id) (values s.namespace_to_publisher)
  pub subscriptions : All (IsWithout id) (values s.subscriptions)

retained-kept :
    (id : SessionId) (sub kept : Subscription)
    → retained id sub ≡ some kept
    → (sub.publisher_session ≢ id)
      × (is_empty (retain_subscribers id sub.subscribers) ≡ false)
      × (record sub { subscribers = retain_subscribers id sub.subscribers } ≡ kept)
unfolding retained
retained-kept id sub kept e = (ground arith, ground arith, ground arith)

retained-IsWithout :
    (id : SessionId) (sub kept : Subscription) → retained id sub ≡ some kept → IsWithout id kept
retained-IsWithout id sub kept e = subst (IsWithout id) (retained-kept id sub kept e).2 (record {
  publisher = (retained-kept id sub kept e).0;
  subscribers = retain_subscribers-others id sub.subscribers;
  received = (retained-kept id sub kept e).1;
})

-- After `remove_session` the id has no session, is registered for no namespace, publishes no
-- subscription and receives none, and every subscription that is left has a subscriber.
pub remove_session-IsForgotten :
    (id : SessionId) (s : RelayState) → IsForgotten id (remove_session id s)
unfolding remove_session
remove_session-IsForgotten id s = record {
  session = ground (arith, get-remove id id s.sessions, ==_iff id id);
  namespaces =
      All-retain (λ v. if v == id then none else some v) (λ v u e. ground arith)
        s.namespace_to_publisher;
  subscriptions = All-retain (retained id) (retained-IsWithout id) s.subscriptions;
}

-- What `remove_session` leaves of a subscription whose publisher stays.
In-retain_subscribers :
    (id : SessionId) {e : SubscriberEntry} {es : List SubscriberEntry}
    → e.session_id ≢ id
    → In e es
    → In e (retain_subscribers id es)
unfolding retain_subscribers
In-retain_subscribers id {e} h here = elim (Bool-cases (e.session_id == id)) [
  | inl d ↦ absurd (h ((==_iff e.session_id id).0 d))
  | inr d ↦ rw d here
]
In-retain_subscribers id h (there {x} i) = elim (Bool-cases (x.session_id == id)) [
  | inl d ↦ rw d (In-retain_subscribers id h i)
  | inr d ↦ rw d (there (In-retain_subscribers id h i))
]

retained-others :
    (id : SessionId) (sub : Subscription) {e : SubscriberEntry}
    → sub.publisher_session ≢ id
    → In e (retain_subscribers id sub.subscribers)
    → retained id sub ≡ some (record sub { subscribers = retain_subscribers id sub.subscribers })
unfolding retained
retained-others id sub h i = ground (arith, In-filled i)

-- Where no track stands twice in the map: a subscription whose publisher stays, and one of whose subscribers stays, is found after
-- `remove_session` with the same publisher, alias and SUBSCRIBE_OK, and that subscriber is still
-- in it.
pub remove_session-others :
    (id : SessionId) (s : RelayState) (track : FullTrackName) {sub : Subscription}
    {e : SubscriberEntry}
    → IsUnique s.subscriptions
    → get track s.subscriptions ≡ some sub
    → sub.publisher_session ≢ id
    → In e sub.subscribers
    → e.session_id ≢ id
    → let left = retain_subscribers id sub.subscribers in
      (get track (remove_session id s).subscriptions ≡ some (record sub { subscribers = left }))
      × In e left
unfolding remove_session
remove_session-others id s track {sub} {e} unique found publisher among other =
    let stays = In-retain_subscribers id other among in
    (
      get-retain track (retained id) s.subscriptions unique
          ∙ (ap (λ o. and_then o (retained id)) found ∙ retained-others id sub publisher stays),
      stays,
    )
