-- ===== src/Relay/Subscribe/Outcomes.antt =====
-- `handle_subscribe` from its start to its end, for each way that it can go.
use moqt_minimal.Prelude.{
  ℕ, zero, suc, Bool, true, false, none, some, ◌≡◌, refl, arith, ap, ◌∙◌, List, [], ◌∷◌, length,
}
use moqt_minimal.Map.{get}
use moqt_minimal.Map.Laws.{get-modify, get-insert, get-upsert}
use moqt_minimal.Wire.TrackNamespace.{TrackNamespace}
use moqt_minimal.Wire.SubscribeOk.{SubscribeOkMessage}
use moqt_minimal.Wire.RequestError.{error_not_supported, error_does_not_exist}
use moqt_minimal.Relay.Keys.{FullTrackName, track_key}
use moqt_minimal.Relay.Utf8.{is_utf8}
use moqt_minimal.Relay.State.{
  RelayState, SessionId, SessionRef, SubscriberEntry, Subscription, push_subscriber,
  push_to_existing, find_existing_subscription, find_publisher, find_publisher_from, pop,
  add_subscriber, with_session,
}
use moqt_minimal.Relay.Subscribe.{
  Phase, finished, checking, awaiting, reject, forward_subscribe_ok, subscribe, Input, ready, sent,
  answered, Task, Outcome, run, advance, has_unsupported_filter, is_locked, set_lock, on_checking,
  on_locking, on_existing, on_aggregating, on_publisher, on_searching, on_return, on_answer,
  on_recorded,
}

abbrev pub track_of : Task → FullTrackName
track_of task = record { namespace = task.message.track_namespace; name = task.message.track_name }

abbrev pub entry_of : Task → SubscriberEntry
entry_of task = record { session_id = task.subscriber_session; request = task.request }

run-finished :
    (task : Task) (inputs : List Input) (s : RelayState)
    → run task finished inputs s ≡ (finished, s, [])
unfolding run advance
run-finished task [] s = refl
run-finished task (input ∷ inputs) s = rw (run-finished task inputs s) refl

-- A SUBSCRIBE that has a filter other than NextGroupStart is answered by REQUEST_ERROR with the
-- code NOT_SUPPORTED, and nothing else is sent and no state changed, whatever the task awaits
-- afterwards.
pub run-unsupported :
    (task : Task) (input : Input) (inputs : List Input) (s : RelayState)
    → has_unsupported_filter task.message.parameters ≡ true
    → run task checking (input ∷ inputs) s ≡ (
      finished,
      s,
      reject task.request error_not_supported "only NextGroupStart filter is supported" ∷ [],
    )
unfolding run advance on_checking
run-unsupported task input inputs s h = rw h (rw (run-finished task inputs s) refl)

-- What a SUBSCRIBE needs to reach its track's lock at once.
pub record IsAdmitted (task : Task) (s : RelayState) : Type 0 where
  pub filter : has_unsupported_filter task.message.parameters ≡ false
  pub name : is_utf8 task.message.track_name ≡ true
  pub free : is_locked (track_of task) s ≡ false

set_lock-free : (t : FullTrackName) (s : RelayState) → is_locked t (set_lock false t s) ≡ false
unfolding is_locked set_lock
set_lock-free t s = ground (arith, get-insert t t false s.track_locks, track_key.same_iff t t)

-- What the operations on subscriptions do under the lock of the track.
pushed_to :
    (t : FullTrackName) (e : SubscriberEntry) (sub : Subscription) (s : RelayState)
    → get t s.subscriptions ≡ some sub
    → get t (set_lock false t (push_to_existing t e (set_lock true t s))).subscriptions
      ≡ some (push_subscriber e sub)
unfolding set_lock push_to_existing
pushed_to t e sub s h =
    get-modify t t (push_subscriber e) s.subscriptions
    ∙ rw ((track_key.same_iff t t).1 refl, h) refl

added_first :
    (t : FullTrackName) (publisher : SessionId) (ok : SubscribeOkMessage) (e : SubscriberEntry)
    (s : RelayState)
    → get t s.subscriptions ≡ none
    → get t
        (set_lock false t
          (add_subscriber t publisher ok.track_alias ok e (set_lock true t s))).subscriptions
      ≡ some (record {
        publisher_session = publisher;
        publisher_track_alias = ok.track_alias;
        subscribe_ok = ok;
        subscribers = e ∷ [];
      })
unfolding set_lock add_subscriber
added_first t publisher ok e s h =
    get-upsert t t _ _ s.subscriptions ∙ rw ((track_key.same_iff t t).1 refl, h) refl

-- The lock does not matter to the search for a publisher.
from_locked :
    (b : Bool) (t : FullTrackName) (rounds : ℕ) (prefix : List (List ℕ)) (s : RelayState)
    → find_publisher_from rounds prefix (set_lock b t s) ≡ find_publisher_from rounds prefix s
unfolding find_publisher_from set_lock with_session
from_locked b t zero prefix s = refl
from_locked b t (suc rounds) prefix s = ground (arith, from_locked b t rounds (pop prefix) s)

pub publisher_locked :
    (t : FullTrackName) (ns : TrackNamespace) (s : RelayState)
    → find_publisher ns (set_lock true t s) ≡ find_publisher ns s
unfolding find_publisher
publisher_locked t ns s = from_locked true t (suc (length ns.fields)) ns.fields s

-- The start of every run: the lock is taken, the subscription looked for.
pub admitted :
    (task : Task) (inputs : List Input) (s : RelayState)
    → IsAdmitted task s
    → run task checking (ready ∷ ready ∷ inputs) s
      ≡ run task (Phase.aggregating (track_of task)) inputs (set_lock true (track_of task) s)
unfolding run advance on_checking on_locking
admitted task inputs s a = rw (a.filter, a.name) (rw a.free refl)

pub joined :
    (task : Task) (t : FullTrackName) (sub : Subscription) (b : Bool) (s : RelayState)
    → get t s.subscriptions ≡ some sub
    → run task (Phase.aggregating t) (ready ∷ sent b ∷ []) s ≡ (
      finished,
      set_lock false t (push_to_existing t (entry_of task) s),
      forward_subscribe_ok task.request sub.subscribe_ok ∷ [],
    )
unfolding run advance on_aggregating on_existing on_return find_existing_subscription
joined task t sub b s h = rw h refl

-- A SUBSCRIBE that is admitted (it has no filter but NextGroupStart, its track's name is UTF-8, and
-- the track's lock is free), for a track that has a subscription, is answered at once by the
-- SUBSCRIBE_OK of that subscription, whether or not the answer can be written; nothing is sent to the publisher, the
-- subscriber is the last of the subscription's subscribers, and the track's lock is free again.
pub run-aggregated :
    (task : Task) (sub : Subscription) (b : Bool) (s : RelayState)
    → IsAdmitted task s
    → get (track_of task) s.subscriptions ≡ some sub
    → let o = run task checking (ready ∷ ready ∷ ready ∷ sent b ∷ []) s in
      (o.0 ≡ finished)
      × (o.2 ≡ forward_subscribe_ok task.request sub.subscribe_ok ∷ [])
      × (get (track_of task) o.1.subscriptions ≡ some (push_subscriber (entry_of task) sub))
      × (is_locked (track_of task) o.1 ≡ false)
run-aggregated task sub b s a h =
    let t = track_of task in
    let e =
      admitted task (ready ∷ sent b ∷ []) s a
      ∙ joined task t sub b (set_lock true t s) (unfold set_lock in h) in
    (
      ap (λ (o : Outcome). o.0) e,
      ap (λ (o : Outcome). o.2) e,
      ap (λ (o : Outcome). get t o.1.subscriptions) e ∙ pushed_to t (entry_of task) sub s h,
      ap (λ (o : Outcome). is_locked t o.1) e ∙ set_lock-free t _,
    )

refused :
    (task : Task) (t : FullTrackName) (b : Bool) (s : RelayState)
    → get t s.subscriptions ≡ none
    → find_publisher task.message.track_namespace s ≡ none
    → run task (Phase.aggregating t) (ready ∷ ready ∷ sent b ∷ []) s ≡ (
      finished,
      set_lock false t s,
      reject task.request error_does_not_exist "no publisher for namespace" ∷ [],
    )
unfolding run advance on_aggregating on_existing on_searching on_publisher on_return
    find_existing_subscription
refused task t b s h p = rw h (rw p refl)

-- A SUBSCRIBE that is admitted (it has no filter but NextGroupStart, its track's name is UTF-8, and
-- the track's lock is free), for a track with no subscription and no publisher, is answered by
-- REQUEST_ERROR with the code DOES_NOT_EXIST; no subscription is made, and the track's lock is free again.
pub run-refused :
    (task : Task) (b : Bool) (s : RelayState)
    → IsAdmitted task s
    → get (track_of task) s.subscriptions ≡ none
    → find_publisher task.message.track_namespace s ≡ none
    → let o = run task checking (ready ∷ ready ∷ ready ∷ ready ∷ sent b ∷ []) s in
      (o.0 ≡ finished)
      × (o.2 ≡ reject task.request error_does_not_exist "no publisher for namespace" ∷ [])
      × (o.1.subscriptions ≡ s.subscriptions)
      × (is_locked (track_of task) o.1 ≡ false)
run-refused task b s a h p =
    let t = track_of task in
    let e =
      admitted task (ready ∷ ready ∷ sent b ∷ []) s a
      ∙ refused task t b (set_lock true t s) (unfold set_lock in h) (publisher_locked t _ s ∙ p) in
    (
      ap (λ (o : Outcome). o.0) e,
      ap (λ (o : Outcome). o.2) e,
      ap (λ (o : Outcome). o.1.subscriptions) e ∙ unfold set_lock in refl,
      ap (λ (o : Outcome). is_locked t o.1) e ∙ set_lock-free t _,
    )

pub established :
    (task : Task) (t : FullTrackName) (publisher : SessionId) (session : SessionRef)
    (ok : SubscribeOkMessage) (s : RelayState)
    → get t s.subscriptions ≡ none
    → find_publisher task.message.track_namespace s ≡ some (publisher, session)
    → run task (Phase.aggregating t) (ready ∷ ready ∷ answered (some ok) ∷ ready ∷ sent true ∷ []) s
      ≡ (
        awaiting t,
        set_lock false t (add_subscriber t publisher ok.track_alias ok (entry_of task) s),
        subscribe session task.message.track_namespace task.message.track_name
              task.message.parameters
            ∷ forward_subscribe_ok task.request ok
            ∷ [],
      )
unfolding run advance on_aggregating on_existing on_searching on_publisher on_answer on_recorded
    find_existing_subscription
established task t publisher session ok s h p = rw h (rw p refl)

-- A SUBSCRIBE that is admitted (it has no filter but NextGroupStart, its track's name is UTF-8, and
-- the track's lock is free), for a track with no subscription, whose publisher is found and answers with
-- SUBSCRIBE_OK, is sent on to the publisher's session with its own namespace, name and parameters;
-- then that SUBSCRIBE_OK is the answer to the subscriber, the subscription with the publisher,
-- the alias of its answer and this one subscriber is recorded, the track's lock is free, and the
-- task awaits PUBLISH_DONE.
pub run-established :
    (task : Task) (publisher : SessionId) (session : SessionRef) (ok : SubscribeOkMessage)
    (s : RelayState)
    → IsAdmitted task s
    → get (track_of task) s.subscriptions ≡ none
    → find_publisher task.message.track_namespace s ≡ some (publisher, session)
    → let o =
        run task checking
          (ready ∷ ready ∷ ready ∷ ready ∷ answered (some ok) ∷ ready ∷ sent true ∷ [])
          s in
      (o.0 ≡ awaiting (track_of task))
      × (o.2
          ≡ subscribe session task.message.track_namespace task.message.track_name
              task.message.parameters
            ∷ forward_subscribe_ok task.request ok
            ∷ [])
      × (get (track_of task) o.1.subscriptions
          ≡ some (record {
            publisher_session = publisher;
            publisher_track_alias = ok.track_alias;
            subscribe_ok = ok;
            subscribers = entry_of task ∷ [];
          }))
      × (is_locked (track_of task) o.1 ≡ false)
run-established task publisher session ok s a h p =
    let t = track_of task in
    let e =
      admitted task (ready ∷ ready ∷ answered (some ok) ∷ ready ∷ sent true ∷ []) s a
      ∙ established task t publisher session ok (set_lock true t s) (unfold set_lock in h)
          (publisher_locked t _ s ∙ p) in
    (
      ap (λ (o : Outcome). o.0) e,
      ap (λ (o : Outcome). o.2) e,
      ap (λ (o : Outcome). get t o.1.subscriptions) e
          ∙ added_first t publisher ok (entry_of task) s h,
      ap (λ (o : Outcome). is_locked t o.1) e ∙ set_lock-free t _,
    )
