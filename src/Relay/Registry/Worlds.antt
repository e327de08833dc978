-- ===== src/Relay/Registry/Worlds.antt =====
-- What each step of the relay's sessions and tasks does to the registry.
use moqt_minimal.Prelude.{
  ℕ, ◌≡◌, refl, sym, ap, ◌∙◌, Option, none, some, Bool, true, false, Bool-cases, inl, inr,
}
use moqt_minimal.Wire.SubscribeOk.{SubscribeOkMessage}
use moqt_minimal.Wire.PublishDone.{PublishDoneMessage}
use moqt_minimal.Relay.Utf8.{is_utf8}
use moqt_minimal.Relay.Keys.{FullTrackName}
use moqt_minimal.Relay.State.{RelayState, Subscription}
use moqt_minimal.Relay.Subscribe
use moqt_minimal.Relay.Subscribe.{Phase, Task, Input, advance, is_locked, set_lock}
use moqt_minimal.Relay.World.{
  World, Step, connect, disconnect, announce, spawn, proceed, Reachable, start, after, connected,
  disconnected, announced, spawned, advanced,
}
use moqt_minimal.Relay.Registry
use moqt_minimal.Relay.Registry.{Registry, Access, accessed, meant, empty}
use moqt_minimal.Relay.Registry.Lookups.{Represents}
use moqt_minimal.Relay.Registry.Refinement.{
  Implements, Represents-Implements, accessed-Represents, locked-Represents, joined-Represents,
  subscribed-Represents, new-Represents,
}
use moqt_minimal.Map.{get}
use moqt_minimal.Relay.Keys.{track_key}
use moqt_minimal.Relay.State.{SubscriberEntry, find_existing_subscription}

-- What the relay's registry must make of one step of a task: a subscriber joins a subscription that
-- is there, or a subscription is recorded with the publisher's answer.
unfoldable pub task_access : Task → Phase → Input → Option Access
task_access task (Subscribe.aggregating t) input =
    some (Registry.join t (record { session_id = task.subscriber_session; request = task.request }))
task_access task (Subscribe.subscribing t publisher) (Subscribe.answered (some ok)) = some (
    Registry.subscribe t publisher ok
      (record { session_id = task.subscriber_session; request = task.request }))
task_access task (Subscribe.subscribing t publisher) (Subscribe.answered none) = none
task_access task (Subscribe.subscribing t publisher) Subscribe.ready = none
task_access task (Subscribe.subscribing t publisher) (Subscribe.sent b) = none
task_access task (Subscribe.subscribing t publisher) (Subscribe.published d) = none
task_access task Subscribe.idle input = none
task_access task Subscribe.finished input = none
task_access task Subscribe.checking input = none
task_access task (Subscribe.locking t) input = none
task_access task (Subscribe.answering t ok) input = none
task_access task (Subscribe.searching t) input = none
task_access task (Subscribe.rejecting t) input = none
task_access task (Subscribe.recorded t ok) input = none
task_access task (Subscribe.confirming t ok) input = none
task_access task (Subscribe.awaiting t) input = none

abbrev pub meant_if : Option Access → Registry → Registry
meant_if none r = r
meant_if (some a) r = meant a r

unfoldable pub step_access : {w v : World} → Step w v → Option Access
unfolding task_access
step_access (connect session) = some (Registry.connect session)
step_access (disconnect id) = some (Registry.disconnect id)
step_access (announce namespace id) = some (Registry.announce namespace id)
step_access (spawn i task idle) = none
step_access {w} (proceed i input) = task_access (w.tasks i) (w.phases i) input

-- The registry that has seen the steps that led to a world, in their order.
unfoldable pub registry_of : {w : World} → Reachable w → Registry
registry_of (start tasks) = empty
registry_of (after r step) = meant_if (step_access step) (registry_of r)

module _ (task : Task) (s : RelayState) (r : Registry) (h : Represents s r) where
  set_lock-Represents : (b : Bool) (t : FullTrackName) → Represents (set_lock b t s) r
  unfolding accessed meant
  set_lock-Represents b t = locked-Represents s r h b t

  checking-Represents : Represents (Subscribe.on_checking task s).1 r
  unfolding Subscribe.on_checking
  checking-Represents =
      elim (Bool-cases (Subscribe.has_unsupported_filter task.message.parameters)) [
        | inl d ↦ rw d h
        | inr d ↦ rw d (elim (Bool-cases (is_utf8 task.message.track_name)) [
          | inl v ↦ rw v h
          | inr v ↦ rw v h
        ])
      ]

  locking-Represents : (t : FullTrackName) → Represents (Subscribe.on_locking t s).1 r
  unfolding Subscribe.on_locking
  locking-Represents t = elim (Bool-cases (is_locked t s)) [
    | inl taken ↦ rw taken h
    | inr free ↦ rw free (set_lock-Represents true t)
  ]

  -- Nobody joins a subscription that is not there.
  nobody_joins :
      (t : FullTrackName) (e : SubscriberEntry)
      → get t s.subscriptions ≡ none
      → Represents s (meant (Registry.join t e) r)
  unfolding meant
  nobody_joins t e absent = record {
    next_id = h.next_id;
    sessions = h.sessions;
    publishers = h.publishers;
    subscriptions = λ u. elim (Bool-cases (track_key.same t u)) [
      | inl same ↦
          let here : get u s.subscriptions ≡ none =
            ap (λ v. get v s.subscriptions) (sym ((track_key.same_iff t u).0 same)) ∙ absent in
          here ∙ rw (same, sym (h.subscriptions u) ∙ here) refl
      | inr differs ↦ h.subscriptions u ∙ rw differs refl
    ];
    unique_sessions = h.unique_sessions;
    unique_namespaces = h.unique_namespaces;
    unique_subscriptions = h.unique_subscriptions;
  }

  existing-Represents :
      (t : FullTrackName) (o : Option Subscription)
      → get t s.subscriptions ≡ o
      → Represents
          (Subscribe.on_existing task t o s).1
          (meant_if (task_access task (Subscribe.aggregating t) Subscribe.ready) r)
  unfolding Subscribe.on_existing accessed task_access
  existing-Represents t none e = nobody_joins t _ e
  existing-Represents t (some existing) e = joined-Represents s r h t _

  publisher-Represents :
      (t : FullTrackName) (o : Option (ℕ × ℕ)) → Represents (Subscribe.on_publisher task t o s).1 r
  unfolding Subscribe.on_publisher
  publisher-Represents t none = h
  publisher-Represents t (some (publisher, session)) = h

  answer-Represents :
      (t : FullTrackName) (publisher : ℕ) (a : Option SubscribeOkMessage)
      → Represents
          (Subscribe.on_answer task t publisher a s).1
          (meant_if (task_access task (Subscribe.subscribing t publisher) (Subscribe.answered a)) r)
  unfolding Subscribe.on_answer Subscribe.on_return accessed task_access
  answer-Represents t publisher none = set_lock-Represents false t
  answer-Represents t publisher (some ok) = subscribed-Represents s r h t publisher ok _

  published-Represents :
      (t : FullTrackName) (d : Option PublishDoneMessage)
      → Represents (Subscribe.on_published t d s).1 r
  unfolding Subscribe.on_published
  published-Represents t none = h
  published-Represents t (some d) = h

  advance-Represents :
      (p : Phase) (input : Input)
      → Represents (advance task p input s).1 (meant_if (task_access task p input) r)
  unfolding advance task_access Subscribe.on_aggregating Subscribe.on_searching Subscribe.on_return
      Subscribe.on_recorded find_existing_subscription
  advance-Represents Subscribe.idle input = h
  advance-Represents Subscribe.finished input = h
  advance-Represents Subscribe.checking input = checking-Represents
  advance-Represents (Subscribe.locking t) input = locking-Represents t
  advance-Represents (Subscribe.aggregating t) input = existing-Represents t _ refl
  advance-Represents (Subscribe.answering t ok) input = set_lock-Represents false t
  advance-Represents (Subscribe.searching t) input = publisher-Represents t _
  advance-Represents (Subscribe.rejecting t) input = set_lock-Represents false t
  advance-Represents (Subscribe.subscribing t publisher) (Subscribe.answered none) =
      answer-Represents t publisher none
  advance-Represents (Subscribe.subscribing t publisher) (Subscribe.answered (some ok)) =
      answer-Represents t publisher (some ok)
  advance-Represents (Subscribe.subscribing t publisher) Subscribe.ready = h
  advance-Represents (Subscribe.subscribing t publisher) (Subscribe.sent b) = h
  advance-Represents (Subscribe.subscribing t publisher) (Subscribe.published d) = h
  advance-Represents (Subscribe.recorded t ok) input = set_lock-Represents false t
  advance-Represents (Subscribe.confirming t ok) (Subscribe.sent true) = h
  advance-Represents (Subscribe.confirming t ok) (Subscribe.sent false) = h
  advance-Represents (Subscribe.confirming t ok) Subscribe.ready = h
  advance-Represents (Subscribe.confirming t ok) (Subscribe.answered a) = h
  advance-Represents (Subscribe.confirming t ok) (Subscribe.published d) = h
  advance-Represents (Subscribe.awaiting t) (Subscribe.published d) = published-Represents t d
  advance-Represents (Subscribe.awaiting t) Subscribe.ready = h
  advance-Represents (Subscribe.awaiting t) (Subscribe.sent b) = h
  advance-Represents (Subscribe.awaiting t) (Subscribe.answered a) = h

Step-Represents :
    {w v : World} (step : Step w v) (r : Registry)
    → Represents w.state r
    → Represents v.state (meant_if (step_access step) r)
unfolding connected disconnected announced spawned advanced accessed step_access
Step-Represents {w} (connect session) r h =
    accessed-Represents w.state r h (Registry.connect session)
Step-Represents {w} (disconnect id) r h = accessed-Represents w.state r h (Registry.disconnect id)
Step-Represents {w} (announce namespace id) r h =
    accessed-Represents w.state r h (Registry.announce namespace id)
Step-Represents {w} (spawn i task idle) r h = h
Step-Represents {w} (proceed i input) r h =
    advance-Represents (w.tasks i) w.state r h (w.phases i) input

Reachable-Represents : {w : World} (r : Reachable w) → Represents w.state (registry_of r)
unfolding registry_of
Reachable-Represents (start tasks) = new-Represents
Reachable-Represents (after r step) = Step-Represents step (registry_of r) (Reachable-Represents r)

-- However sessions come and go and tasks interleave, the relay's state answers every question as
-- the registry does that has seen the same steps, whether a session has come or gone, a namespace
-- has been announced, a subscriber has joined, or a publisher's answer has been recorded: the next
-- session id; the session of an id; the subscription of a track and its subscribers' requests; the
-- publisher of a namespace, which is that of its longest announced prefix; and the sessions that a
-- publisher's objects with an alias go to, track by track in some order, and for each track in the
-- order of its subscribers.
pub Reachable-Implements : {w : World} (r : Reachable w) → Implements w.state (registry_of r)
Reachable-Implements {w} r = Represents-Implements w.state (registry_of r) (Reachable-Represents r)
