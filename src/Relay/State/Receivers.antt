-- ===== src/Relay/State/Receivers.antt =====
-- `find_subscriber_sessions` of moqt-relay/src/relay.rs against the entries of the subscriptions.
use moqt_minimal.Prelude.{
  ℕ, ◌≡◌, ◌↔◌, Bool, true, ◌&&◌, Option, none, some, List, [], ◌∷◌, arith, ◌==◌, Bool-cases, inl,
  inr, ap, sym, ◌⊎◌,
}
use mathlib.Core.Path.{subst}
use moqt_minimal.Map.{Map, get, values}
use moqt_minimal.Relay.Keys.{session_id_key}
use moqt_minimal.Relay.State.{
  RelayState, SessionId, SessionRef, SubscriberEntry, Subscription, live_sessions,
  matching_sessions, find_subscriber_sessions,
}
use moqt_minimal.Relay.State.Membership.{
  In, here, there, In-append_left, In-append_right, In-append, In-cons, In-then, In-else,
}

match : {a b c d : ℕ} → a ≡ b → c ≡ d → (a == b && c == d) ≡ true
match e f = ground arith

-- The session of an entry of a subscription with the given publisher and alias.
pub record IsReceiver (publisher alias : ℕ) (sessions : Map SessionId SessionRef)
    (subs : List Subscription) (session : SessionRef) : Type 0 where
  pub sub : Subscription
  pub entry : SubscriberEntry
  pub of_sub : In sub subs
  pub from_publisher : sub.publisher_session ≡ publisher
  pub with_alias : sub.publisher_track_alias ≡ alias
  pub of_entry : In entry sub.subscribers
  pub connected : get entry.session_id sessions ≡ some session

-- One step of `filter_map`.
abbrev listed : Option SessionRef → List SessionRef → List SessionRef
listed o rest = elim o [ none ↦ rest | some session ↦ session ∷ rest ]

In-listed :
    {session : SessionRef} (o : Option SessionRef) (rest : List SessionRef)
    → In session (listed o rest)
    → (o ≡ some session) ⊎ In session rest
In-listed none rest i = inr i
In-listed (some r) rest i = elim (In-cons i) [ inl e ↦ inl (ap some e) | inr t ↦ inr t ]

listed_rest :
    {session : SessionRef} (o : Option SessionRef) {rest : List SessionRef}
    → In session rest
    → In session (listed o rest)
listed_rest none i = i
listed_rest (some r) i = there i

In-live :
    (sessions : Map SessionId SessionRef) {session : SessionRef} {e : SubscriberEntry}
    {es : List SubscriberEntry}
    → In e es
    → get e.session_id sessions ≡ some session
    → In session (live_sessions sessions es)
unfolding live_sessions
In-live sessions {session} (here {xs}) c =
    subst (λ o. In session (listed o (live_sessions sessions xs))) (sym c) here
In-live sessions (there {x} i) c = listed_rest (get x.session_id sessions) (In-live sessions i c)

live-In :
    (sessions : Map SessionId SessionRef) {session : SessionRef} (es : List SubscriberEntry)
    → In session (live_sessions sessions es)
    → (e : SubscriberEntry) × In e es × (get e.session_id sessions ≡ some session)
unfolding live_sessions
live-In sessions [] i = elim i [ ]
live-In sessions (e ∷ es) i =
    elim (In-listed (get e.session_id sessions) (live_sessions sessions es) i) [
      | inl c ↦ (e, here, c)
      | inr t ↦ let (f, among, c) = live-In sessions es t in (f, there among, c)
    ]

module _ (publisher alias : ℕ) (sessions : Map SessionId SessionRef) where
  abbrev matches : Subscription → Bool
  matches sub = sub.publisher_session == publisher && sub.publisher_track_alias == alias

  later :
      {session : SessionRef} (sub : Subscription) {subs : List Subscription}
      → IsReceiver publisher alias sessions subs session
      → IsReceiver publisher alias sessions (sub ∷ subs) session
  later sub r = record {
    sub = r.sub;
    entry = r.entry;
    of_sub = there r.of_sub;
    from_publisher = r.from_publisher;
    with_alias = r.with_alias;
    of_entry = r.of_entry;
    connected = r.connected;
  }

  matching-IsReceiver :
      {session : SessionRef} (subs : List Subscription)
      → In session (matching_sessions publisher alias sessions subs)
      → IsReceiver publisher alias sessions subs session
  unfolding matching_sessions
  matching-IsReceiver [] i = elim i [ ]
  matching-IsReceiver {session} (sub ∷ subs) i = elim (Bool-cases (matches sub)) [
    | inl d ↦ elim (In-append (live_sessions sessions sub.subscribers) (In-then _ _ d i)) [
      | inl l ↦
          let (e, among, c) = live-In sessions sub.subscribers l in
          record {
            sub = sub;
            entry = e;
            of_sub = here;
            from_publisher = ground arith;
            with_alias = ground arith;
            of_entry = among;
            connected = c;
          }
      | inr t ↦ later sub (matching-IsReceiver subs t)
    ]
    | inr d ↦ later sub (matching-IsReceiver subs (In-else _ _ d i))
  ]

  Receiver-matching :
      {session : SessionRef} {sub : Subscription} {e : SubscriberEntry} {subs : List Subscription}
      → In sub subs
      → matches sub ≡ true
      → In e sub.subscribers
      → get e.session_id sessions ≡ some session
      → In session (matching_sessions publisher alias sessions subs)
  unfolding matching_sessions
  Receiver-matching here d among c = rw d (In-append_left _ (In-live sessions among c))
  Receiver-matching (there {x} i) d among c = elim (Bool-cases (matches x)) [
    | inl other ↦
        rw other
          (In-append_right (live_sessions sessions x.subscribers) (Receiver-matching i d among c))
    | inr other ↦ rw other (Receiver-matching i d among c)
  ]

-- A session is found for a publisher and an alias exactly when it is the session, still
-- connected, of a subscriber of a subscription with that publisher and that alias.
pub find_subscriber_sessions-IsReceiver :
    (publisher alias : ℕ) (s : RelayState) (session : SessionRef)
    → In session (find_subscriber_sessions publisher alias s)
      ↔ IsReceiver publisher alias s.sessions (values s.subscriptions) session
unfolding find_subscriber_sessions
find_subscriber_sessions-IsReceiver publisher alias s session = (
  matching-IsReceiver publisher alias s.sessions (values s.subscriptions),
  λ r.
      Receiver-matching publisher alias s.sessions r.of_sub (match r.from_publisher r.with_alias)
        r.of_entry r.connected,
)
