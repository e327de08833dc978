-- ===== src/Relay/Registry/Lookups.antt =====
-- A state of the relay that stands for a registry answers as the registry says.
use moqt_minimal.Prelude.{
  ℕ, zero, suc, ◌≤◌, ◌≡◌, refl, ap, sym, ◌∙◌, Option, none, some, List, [], ◌∷◌, take, length, map,
  arith, Option-cases, inl, inr, ◌↔◌, ◌≢◌, Bool-cases,
}
use mathlib.Core.Path.{subst}
use moqt_minimal.Map.{Key, Map, get, values}
use moqt_minimal.Map.Laws.{IsUnique}
use moqt_minimal.Wire.TrackNamespace.{TrackNamespace}
use moqt_minimal.Relay.Keys.{FullTrackName, track_key, namespace_key, session_id_key}
use moqt_minimal.Relay.State.{
  RelayState, SessionId, SessionRef, find_publisher, find_publisher_from, with_session,
  find_subscriber_sessions, find_subscriber_requests, live_sessions, matching_sessions,
  Subscription, SubscriberEntry, RequestRef,
}
use moqt_minimal.Relay.State.Publisher.{
  next_round, found_round, last_round, pop-take, is_empty-take, take-length,
}
use moqt_minimal.Relay.State.Receivers.{find_subscriber_sessions-IsReceiver}
use moqt_minimal.Relay.State.Membership.{In, here, there}
use moqt_minimal.Relay.Registry
use moqt_minimal.Relay.Registry.{
  Registry, Distinct, nearest, Receives, live, receivers_of, IsListing, requests_of,
}

none-some : {A : Type 0} {a : A} → none ≢ some a
none-some e = absurd (ground arith)

abbrev listed_requests : Option Subscription → List RequestRef
listed_requests o = elim o [
  | none ↦ []
  | some sub ↦ map (λ (e : SubscriberEntry). e.request) sub.subscribers
]

requested : (o : Option Subscription) → listed_requests o ≡ requests_of o
requested none = refl
requested (some sub) = refl

pub record Represents (s : RelayState) (r : Registry) : Type 0 where
  pub next_id : s.next_session_id ≡ r.next_id
  pub sessions : (id : SessionId) → get id s.sessions ≡ r.session_of id
  pub publishers : (ns : TrackNamespace) → get ns s.namespace_to_publisher ≡ r.publisher_of ns
  pub subscriptions : (track : FullTrackName) → get track s.subscriptions ≡ r.subscription_of track
  pub unique_sessions : IsUnique s.sessions
  pub unique_namespaces : IsUnique s.namespace_to_publisher
  pub unique_subscriptions : IsUnique s.subscriptions

module _ {K V : Type 0} ⦃key : Key K⦄ where
  other_key :
      (m : Map K V) (j k : K) (w v : V)
      → get j m ≡ none
      → get k m ≡ some v
      → get k ((j, w) ∷ m) ≡ some v
  unfolding get
  other_key m j k w v absent h = elim (Bool-cases (key.same j k)) [
    | inl same ↦
        absurd (none-some (sym absent ∙ (ap (λ t. get t m) ((key.same_iff j k).0 same) ∙ h)))
    | inr differs ↦ rw differs h
  ]

  pub In-values :
      (m : Map K V) {v : V} → IsUnique m → In v (values m) → (k : K) × (get k m ≡ some v)
  unfolding values get
  In-values [] u i = elim i [ ]
  In-values ((j, w) ∷ m) u here = (j, ground (arith, key.same_iff j j))
  In-values ((j, w) ∷ m) u (there i) =
      let (k, e) = In-values m u.1 i in (k, other_key m j k w _ u.0 e)

  pub get-In : (m : Map K V) (k : K) {v : V} → get k m ≡ some v → In v (values m)
  unfolding values get
  get-In [] k h = absurd (none-some h)
  get-In ((j, w) ∷ m) k {v} h = elim (Bool-cases (key.same j k)) [
    | inl same ↦
        let first : In w (w ∷ values m) = here in
        let e : w ≡ v = ground arith in subst (λ u. In u (w ∷ values m)) e first
    | inr differs ↦ there (get-In m k (ground arith))
  ]

  abbrev pub keys : Map K V → List K
  keys [] = []
  keys ((k, v) ∷ m) = k ∷ keys m

  In-keys : (m : Map K V) {k : K} → In k (keys m) → get k m ≢ none
  unfolding get
  In-keys [] {k} i e = elim i [ ]
  In-keys ((j, w) ∷ m) {k} here e = ground (arith, key.same_iff j j)
  In-keys ((j, w) ∷ m) {k} (there i) e = elim (Bool-cases (key.same j k)) [
    | inl same ↦ ground arith
    | inr differs ↦ In-keys m i (ground arith)
  ]

  pub get-keys : (m : Map K V) (k : K) {v : V} → get k m ≡ some v → In k (keys m)
  unfolding get
  get-keys [] k {v} h = absurd (none-some h)
  get-keys ((j, w) ∷ m) k {v} h = elim (Bool-cases (key.same j k)) [
    | inl same ↦ subst (λ i. In i (j ∷ keys m)) ((key.same_iff j k).0 same) here
    | inr differs ↦ there (get-keys m k {v = v} (ground arith))
  ]

  pub keys-Distinct : (m : Map K V) → IsUnique m → Distinct (keys m)
  keys-Distinct [] u = tt
  keys-Distinct ((j, w) ∷ m) u = (λ i. In-keys m i u.0, keys-Distinct m u.1)

module _ (s : RelayState) (r : Registry) (h : Represents s r) where
  live_sessions-live : (es : List SubscriberEntry) → live_sessions s.sessions es ≡ live r es
  unfolding live_sessions live
  live_sessions-live [] = refl
  live_sessions-live (e ∷ es) = ground (arith, h.sessions e.session_id, live_sessions-live es)

  matching_sessions-receivers :
      (publisher alias : ℕ) (m : Map FullTrackName Subscription)
      → IsUnique m
      → ((track : FullTrackName) (sub : Subscription)
          → get track m ≡ some sub
          → r.subscription_of track ≡ some sub)
      → matching_sessions publisher alias s.sessions (values m)
        ≡ receivers_of r publisher alias (keys m)
  unfolding matching_sessions receivers_of values get
  matching_sessions-receivers publisher alias [] u known = refl
  matching_sessions-receivers publisher alias ((track, sub) ∷ m) u known =
      let first : r.subscription_of track ≡ some sub =
        known track sub (ground (arith, track_key.same_iff track track)) in
      rw
        (
          first,
          live_sessions-live sub.subscribers,
          matching_sessions-receivers publisher alias m u.1
              (λ k v e. known k v (other_key m track k sub v u.0 e)),
        )
        refl

  -- The sessions that a publisher's objects with an alias go to, in the order of some listing of
  -- the tracks, which is the map's.
  pub find_subscriber_sessions-receivers :
      (publisher alias : ℕ)
      → (tracks : List FullTrackName) × IsListing r tracks
        × (find_subscriber_sessions publisher alias s ≡ receivers_of r publisher alias tracks)
  unfolding find_subscriber_sessions
  find_subscriber_sessions-receivers publisher alias = (
    keys s.subscriptions,
    record {
      distinct = keys-Distinct s.subscriptions h.unique_subscriptions;
      complete = λ track sub e. get-keys s.subscriptions track (h.subscriptions track ∙ e);
    },
    matching_sessions-receivers publisher alias s.subscriptions h.unique_subscriptions
        (λ track sub e. sym (h.subscriptions track) ∙ e),
  )

  pub find_subscriber_requests-requests_of :
      (track : FullTrackName)
      → find_subscriber_requests track s ≡ requests_of (r.subscription_of track)
  unfolding find_subscriber_requests
  find_subscriber_requests-requests_of track =
      ap listed_requests (h.subscriptions track) ∙ requested (r.subscription_of track)

  with_session-paired :
      (id : SessionId) (rest : Option (SessionId × SessionRef))
      → with_session id s ≡ Registry.with_session r (some id) rest
  unfolding with_session
  with_session-paired id rest = ground (arith, h.sessions id)

  nearest_found :
      (fields : List (List ℕ)) (n : ℕ)
      → n ≤ length fields
      → find_publisher_from (suc n) (take n fields) s ≡ nearest r fields n
  unfolding nearest
  nearest_found fields zero le =
      elim (Option-cases (get (record { fields = [] }) s.namespace_to_publisher)) [
        | inl e ↦ last_round s e ∙ rw (sym (h.publishers (record { fields = [] })), e) refl
        | inr (id, e) ↦
            found_round _ _ s e
            ∙ rw (sym (h.publishers (record { fields = [] })), e) (with_session-paired id none)
      ]
  nearest_found fields (suc n) le =
      let prefix : TrackNamespace = record { fields = take (suc n) fields } in
      elim (Option-cases (get prefix s.namespace_to_publisher)) [
        | inl e ↦
            next_round (suc n) (take (suc n) fields) s e (is_empty-take n fields le)
            ∙ (ap (λ t. find_publisher_from (suc n) t s) (pop-take n fields le)
                ∙ (nearest_found fields n (omega arith) ∙ rw (sym (h.publishers prefix), e) refl))
        | inr (id, e) ↦
            found_round _ _ s e
            ∙ rw (sym (h.publishers prefix), e) (with_session-paired id (nearest r fields n))
      ]

  pub find_publisher-nearest :
      (ns : TrackNamespace) → find_publisher ns s ≡ nearest r ns.fields (length ns.fields)
  unfolding find_publisher
  find_publisher-nearest ns =
      ap (λ t. find_publisher_from (suc (length ns.fields)) t s) (sym (take-length ns.fields))
      ∙ nearest_found ns.fields (length ns.fields) (omega arith)

  pub find_subscriber_sessions-Receives :
      (publisher alias : ℕ) (session : SessionRef)
      → In session (find_subscriber_sessions publisher alias s) ↔ Receives r publisher alias session
  find_subscriber_sessions-Receives publisher alias session =
      let listed = find_subscriber_sessions-IsReceiver publisher alias s session in
      (
        λ i.
            let c = listed.0 i in
            let (track, e) = In-values s.subscriptions h.unique_subscriptions c.of_sub in
            record {
              track = track;
              sub = c.sub;
              entry = c.entry;
              of_track = sym (h.subscriptions track) ∙ e;
              from_publisher = c.from_publisher;
              with_alias = c.with_alias;
              of_entry = c.of_entry;
              connected = sym (h.sessions c.entry.session_id) ∙ c.connected;
            },
        λ c. listed.1 (record {
          sub = c.sub;
          entry = c.entry;
          of_sub = get-In s.subscriptions c.track (h.subscriptions c.track ∙ c.of_track);
          from_publisher = c.from_publisher;
          with_alias = c.with_alias;
          of_entry = c.of_entry;
          connected = h.sessions c.entry.session_id ∙ c.connected;
        }),
      )
