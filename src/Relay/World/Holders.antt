-- ===== src/Relay/World/Holders.antt =====
-- The guards of the locks of the tracks: no lock outlives the task that holds its guard.
use moqt_minimal.Prelude.{
  ℕ, true, false, Option, none, some, ◌≡◌, ◌≢◌, ◌⊎◌, inl, inr, refl, arith, sym, ap, ◌∙◌,
  if◌then◌else◌, ◌==◌, ==_iff, ==_refl, Bool-cases,
}
use moqt_minimal.Map.{get}
use moqt_minimal.Wire.SubscribeOk.{SubscribeOkMessage}
use moqt_minimal.Relay.Keys.{FullTrackName, track_key}
use moqt_minimal.Relay.State.{
  RelayState, Subscription, new, register_session, remove_session, register_namespace,
  add_subscriber, push_to_existing, find_existing_subscription,
}
use moqt_minimal.Relay.Subscribe
use moqt_minimal.Relay.Subscribe.{
  Phase, Task, Input, Outcome, advance, is_locked, set_lock, ready, answered, locking,
}
use moqt_minimal.Relay.World.{
  World, Step, connect, disconnect, announce, spawn, proceed, Reachable, start, after, held,
  connected, disconnected, announced, spawned, advanced, with_phase, no_task,
}
use moqt_minimal.Relay.World.Locks.{is_locked-set_lock}

-- What a phase leaves locked is what it holds then, or what was locked before and was not its own.
abbrev Leaves : Phase → RelayState → Phase → RelayState → Type 0
Leaves p s q v =
    (t : FullTrackName)
    → is_locked t v ≡ true
    → (held q ≡ some t) ⊎ ((is_locked t s ≡ true) × (held p ≢ some t))

pub none-some : {t : FullTrackName} → none ≢ some t
none-some e = absurd (ground arith)

-- A phase that touches no lock, from a phase without a guard, or to one with the same guard.
unguarded : (p q : Phase) (s : RelayState) → held p ≡ none → Leaves p s q s
unguarded p q s hp t h = inr (h, λ e. none-some (sym hp ∙ e))

guarded :
    (p q : Phase) (s v : RelayState) (t : FullTrackName)
    → held p ≡ some t
    → held q ≡ some t
    → v.track_locks ≡ s.track_locks
    → Leaves p s q v
unfolding is_locked
guarded p q s v t hp hq locks u h = elim (Bool-cases (track_key.same t u)) [
  | inl same ↦ inl (hq ∙ ap some ((track_key.same_iff t u).0 same))
  | inr differs ↦ inr (rw (sym locks) h, λ e. ground (arith, track_key.same_iff t u))
]

released :
    (p q : Phase) (s : RelayState) (t : FullTrackName)
    → held p ≡ some t
    → Leaves p s q (set_lock false t s)
released p q s t hp u h = elim (Bool-cases (track_key.same t u)) [
  | inl same ↦ absurd (ground (arith, is_locked-set_lock false t u s))
  | inr differs ↦
      inr (
        ground (arith, is_locked-set_lock false t u s),
        λ e. ground (arith, track_key.same_iff t u),
      )
]

locking-Leaves :
    (t : FullTrackName) (s : RelayState)
    → Leaves (locking t) s (Subscribe.on_locking t s).0 (Subscribe.on_locking t s).1
unfolding Subscribe.on_locking held
locking-Leaves t s = elim (Bool-cases (is_locked t s)) [
  | inl taken ↦ rw taken (unguarded (locking t) (locking t) s refl)
  | inr free ↦ rw free (λ u h. elim (Bool-cases (track_key.same t u)) [
    | inl same ↦ inl (ap some ((track_key.same_iff t u).0 same))
    | inr differs ↦ inr (ground (arith, is_locked-set_lock true t u s), λ e. none-some e)
  ])
]

module _ (task : Task) (s : RelayState) where
  checking-Leaves :
      Leaves Subscribe.checking s (Subscribe.on_checking task s).0 (Subscribe.on_checking task s).1
  unfolding Subscribe.on_checking held
  checking-Leaves t h = inr (ground arith, λ e. none-some e)

  existing-Leaves :
      (t : FullTrackName) (o : Option Subscription)
      → Leaves
          (Subscribe.aggregating t)
          s
          (Subscribe.on_existing task t o s).0
          (Subscribe.on_existing task t o s).1
  unfolding Subscribe.on_existing held push_to_existing
  existing-Leaves t none =
      guarded (Subscribe.aggregating t) (Subscribe.searching t) s s t refl refl refl
  existing-Leaves t (some existing) =
      guarded (Subscribe.aggregating t) (Subscribe.answering t existing.subscribe_ok) s _ t refl
        refl refl

  publisher-Leaves :
      (t : FullTrackName) (o : Option (ℕ × ℕ))
      → Leaves
          (Subscribe.searching t)
          s
          (Subscribe.on_publisher task t o s).0
          (Subscribe.on_publisher task t o s).1
  unfolding Subscribe.on_publisher held
  publisher-Leaves t none =
      guarded (Subscribe.searching t) (Subscribe.rejecting t) s s t refl refl refl
  publisher-Leaves t (some (publisher, session)) =
      guarded (Subscribe.searching t) (Subscribe.subscribing t publisher) s s t refl refl refl

  answer-Leaves :
      (t : FullTrackName) (publisher : ℕ) (a : Option SubscribeOkMessage)
      → Leaves
          (Subscribe.subscribing t publisher)
          s
          (Subscribe.on_answer task t publisher a s).0
          (Subscribe.on_answer task t publisher a s).1
  unfolding Subscribe.on_answer Subscribe.on_return held add_subscriber
  answer-Leaves t publisher none =
      released (Subscribe.subscribing t publisher) Subscribe.finished s t refl
  answer-Leaves t publisher (some ok) =
      guarded (Subscribe.subscribing t publisher) (Subscribe.recorded t ok) s _ t refl refl refl

advance-Leaves :
    (task : Task) (p : Phase) (input : Input) (s : RelayState)
    → Leaves p s (advance task p input s).0 (advance task p input s).1
unfolding advance Subscribe.on_aggregating Subscribe.on_searching Subscribe.on_return
    Subscribe.on_recorded Subscribe.on_published held find_existing_subscription
advance-Leaves task Subscribe.idle input s = unguarded Subscribe.idle Subscribe.idle s refl
advance-Leaves task Subscribe.finished input s =
    unguarded Subscribe.finished Subscribe.finished s refl
advance-Leaves task Subscribe.checking input s = checking-Leaves task s
advance-Leaves task (Subscribe.locking t) input s = locking-Leaves t s
advance-Leaves task (Subscribe.aggregating t) input s = existing-Leaves task s t _
advance-Leaves task (Subscribe.answering t ok) input s =
    released (Subscribe.answering t ok) Subscribe.finished s t refl
advance-Leaves task (Subscribe.searching t) input s = publisher-Leaves task s t _
advance-Leaves task (Subscribe.rejecting t) input s =
    released (Subscribe.rejecting t) Subscribe.finished s t refl
advance-Leaves task (Subscribe.subscribing t publisher) (Subscribe.answered a) s =
    answer-Leaves task s t publisher a
advance-Leaves task (Subscribe.subscribing t publisher) Subscribe.ready s =
    guarded (Subscribe.subscribing t publisher) (Subscribe.subscribing t publisher) s s t refl refl
      refl
advance-Leaves task (Subscribe.subscribing t publisher) (Subscribe.sent b) s =
    guarded (Subscribe.subscribing t publisher) (Subscribe.subscribing t publisher) s s t refl refl
      refl
advance-Leaves task (Subscribe.subscribing t publisher) (Subscribe.published d) s =
    guarded (Subscribe.subscribing t publisher) (Subscribe.subscribing t publisher) s s t refl refl
      refl
advance-Leaves task (Subscribe.recorded t ok) input s =
    released (Subscribe.recorded t ok) (Subscribe.confirming t ok) s t refl
advance-Leaves task (Subscribe.confirming t ok) (Subscribe.sent true) s =
    unguarded (Subscribe.confirming t ok) (Subscribe.awaiting t) s refl
advance-Leaves task (Subscribe.confirming t ok) (Subscribe.sent false) s =
    unguarded (Subscribe.confirming t ok) Subscribe.finished s refl
advance-Leaves task (Subscribe.confirming t ok) Subscribe.ready s =
    unguarded (Subscribe.confirming t ok) (Subscribe.confirming t ok) s refl
advance-Leaves task (Subscribe.confirming t ok) (Subscribe.answered a) s =
    unguarded (Subscribe.confirming t ok) (Subscribe.confirming t ok) s refl
advance-Leaves task (Subscribe.confirming t ok) (Subscribe.published d) s =
    unguarded (Subscribe.confirming t ok) (Subscribe.confirming t ok) s refl
advance-Leaves task (Subscribe.awaiting t) (Subscribe.published none) s =
    unguarded (Subscribe.awaiting t) Subscribe.finished s refl
advance-Leaves task (Subscribe.awaiting t) (Subscribe.published (some d)) s =
    unguarded (Subscribe.awaiting t) Subscribe.finished s refl
advance-Leaves task (Subscribe.awaiting t) Subscribe.ready s =
    unguarded (Subscribe.awaiting t) (Subscribe.awaiting t) s refl
advance-Leaves task (Subscribe.awaiting t) (Subscribe.sent b) s =
    unguarded (Subscribe.awaiting t) (Subscribe.awaiting t) s refl
advance-Leaves task (Subscribe.awaiting t) (Subscribe.answered a) s =
    unguarded (Subscribe.awaiting t) (Subscribe.awaiting t) s refl

-- Every lock that is taken has a task that holds its guard.
abbrev pub IsHeld : World → Type 0
IsHeld w = (t : FullTrackName) → is_locked t w.state ≡ true → (i : ℕ) × (held (w.phases i) ≡ some t)

pub moved : (i : ℕ) (p : Phase) (phases : ℕ → Phase) → with_phase i p phases i ≡ p
moved i p phases = rw (==_refl i) refl

pub unmoved :
    (i j : ℕ) (p : Phase) (phases : ℕ → Phase) → j ≢ i → with_phase i p phases j ≡ phases j
unmoved i j p phases h = ground (arith, ==_iff j i)

-- A step of task `i`.
moved-IsHeld :
    (w : World) (i : ℕ) (p : Phase) (s : RelayState) (tasks : ℕ → Task)
    → IsHeld w
    → Leaves (w.phases i) w.state p s
    → IsHeld (record { state = s; tasks = tasks; phases = with_phase i p w.phases })
moved-IsHeld w i p s tasks h leaves t locked = elim (leaves t locked) [
  | inl own ↦ (i, ap held (moved i p w.phases) ∙ own)
  | inr (before, apart) ↦
      let (j, e) = h t before in
      (
        j,
        ap held
              (unmoved i j p w.phases (λ d. apart (ap (λ (k : ℕ). held (w.phases k)) (sym d) ∙ e)))
            ∙ e,
      )
]

Step-IsHeld : {w v : World} → Step w v → IsHeld w → IsHeld v
unfolding connected disconnected announced spawned advanced register_session register_namespace
    remove_session is_locked
Step-IsHeld {w} (connect session) h = h
Step-IsHeld {w} (announce namespace id) h = h
Step-IsHeld {w} (disconnect id) h = h
Step-IsHeld {w} (spawn i task idle) h =
    moved-IsHeld w i Subscribe.checking w.state (λ j. if j == i then task else w.tasks j) h
      (unguarded (w.phases i) Subscribe.checking w.state (unfold held in ap held idle))
Step-IsHeld {w} (proceed i input) h =
    moved-IsHeld w i (advance (w.tasks i) (w.phases i) input w.state).0
      (advance (w.tasks i) (w.phases i) input w.state).1 w.tasks h
      (advance-Leaves (w.tasks i) (w.phases i) input w.state)

start-IsHeld : (tasks : ℕ → Task) → IsHeld (record { state = new; tasks = tasks; phases = no_task })
unfolding is_locked new get
start-IsHeld tasks t h = absurd (cc)

-- In every world that the relay can come to, whatever sessions and tasks have done, a lock that is
-- taken is the lock of a task that is still under way: no returning task leaves its track locked.
pub Reachable-IsHeld : {w : World} → Reachable w → IsHeld w
Reachable-IsHeld (start tasks) = start-IsHeld tasks
Reachable-IsHeld (after r step) = Step-IsHeld step (Reachable-IsHeld r)
