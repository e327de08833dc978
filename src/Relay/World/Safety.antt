-- ===== src/Relay/World/Safety.antt =====
-- The worlds that the relay can come to: the locks of the tracks and the SUBSCRIBEs upstream.
use moqt_minimal.Prelude.{
  ℕ, true, false, none, some, ◌≡◌, ◌≢◌, ◌⊎◌, inl, inr, refl, arith, sym, ap, ◌∙◌, if◌then◌else◌,
  ◌==◌, ==_iff, Bool-cases, List, [],
}
use moqt_minimal.Map.{get, and_then}
use moqt_minimal.Map.Laws.{IsUnique, get-retain, retain-IsUnique, get-upsert}
use moqt_minimal.Wire.SubscribeOk.{SubscribeOkMessage}
use moqt_minimal.Relay.Keys.{FullTrackName, track_key}
use moqt_minimal.Relay.State.{
  RelayState, new, retained, register_session, remove_session, register_namespace,
}
use moqt_minimal.Relay.Subscribe
use moqt_minimal.Relay.Subscribe.{Phase, Effect, Task, Input, advance, is_locked, on_answer}
use moqt_minimal.Relay.World.{
  World, Step, connect, disconnect, announce, spawn, proceed, Reachable, start, after, held,
  upstream, connected, disconnected, announced, spawned, advanced, with_phase,
}
use moqt_minimal.Relay.World.Locks.{IsFair}
use moqt_minimal.Relay.World.Locks.Phases.{advance-IsFair, ends}
use moqt_minimal.Relay.World.{no_task}
use moqt_minimal.Relay.Subscribe.{subscribing, answered}
use moqt_minimal.Relay.State.{add_subscriber}
use moqt_minimal.Prelude.{◌∷◌}

pub record IsSafe (w : World) : Type 0 where
  pub locked : (i : ℕ) (t : FullTrackName) → held (w.phases i) ≡ some t → is_locked t w.state ≡ true
  pub single :
      (i j : ℕ) (t : FullTrackName)
      → held (w.phases i) ≡ some t
      → held (w.phases j) ≡ some t
      → i ≡ j
  pub absent :
      (i : ℕ) (t : FullTrackName)
      → upstream (w.phases i) ≡ some t
      → get t w.state.subscriptions ≡ none
  pub unique : IsUnique w.state.subscriptions

none-some : {t : FullTrackName} → none ≢ some t
none-some e = absurd (ground arith)

true-false : true ≢ false
true-false e = absurd (ground arith)

-- A task that goes upstream for a track holds its guard.
upstream-held : (p : Phase) (t : FullTrackName) → upstream p ≡ some t → held p ≡ some t
unfolding held upstream
upstream-held Subscribe.idle t h = h
upstream-held Subscribe.checking t h = h
upstream-held Subscribe.finished t h = h
upstream-held (Subscribe.locking u) t h = h
upstream-held (Subscribe.aggregating u) t h = absurd (none-some h)
upstream-held (Subscribe.searching u) t h = h
upstream-held (Subscribe.rejecting u) t h = absurd (none-some h)
upstream-held (Subscribe.answering u ok) t h = absurd (none-some h)
upstream-held (Subscribe.subscribing u publisher) t h = h
upstream-held (Subscribe.recorded u ok) t h = absurd (none-some h)
upstream-held (Subscribe.confirming u ok) t h = h
upstream-held (Subscribe.awaiting u) t h = h

-- The phase of a task after one task has moved to `p`.
moved-held :
    (i : ℕ) (p : Phase) (phases : ℕ → Phase) (j : ℕ)
    → ((j ≡ i) × (with_phase i p phases j ≡ p)) ⊎ ((j ≢ i) × (with_phase i p phases j ≡ phases j))
moved-held i p phases j = elim (Bool-cases (j == i)) [
  | inl e ↦ inl ((==_iff j i).0 e, rw e refl)
  | inr e ↦ inr (ground arith, rw e refl)
]

-- A step that moves no task.
module _ (w : World) (s : RelayState) (safe : IsSafe w)
    (locks : s.track_locks ≡ w.state.track_locks)
    (absent : (t : FullTrackName)
      → get t w.state.subscriptions ≡ none
      → get t s.subscriptions ≡ none)
    (unique : IsUnique s.subscriptions) where
  around-IsSafe : IsSafe (record w { state = s })
  unfolding is_locked
  around-IsSafe = record {
    locked = λ i t h. rw locks (safe.locked i t h);
    single = safe.single;
    absent = λ i t h. absent t (safe.absent i t h);
    unique = unique;
  }

-- A step of task `i`, which holds nothing that another task holds.
module _ (w : World) (i : ℕ) (p : Phase) (s : RelayState) (sent : List Effect) (safe : IsSafe w)
    (fair : IsFair (w.phases i) w.state (p, s, sent)) where
  -- What task `j`, another one, holds is not held by `i`.
  apart :
      (j : ℕ) (t : FullTrackName) → j ≢ i → held (w.phases j) ≡ some t → held (w.phases i) ≢ some t
  apart j t h hj hi = h (safe.single j i t hj hi)

  never : (j : ℕ) (t : FullTrackName) → j ≢ i → held p ≡ some t → held (w.phases j) ≢ some t
  never j t h hp hj = elim (fair.own_free t hp) [
    | inl hi ↦ apart j t h hj hi
    | inr free ↦ true-false (sym (safe.locked j t hj) ∙ free)
  ]

  moved-IsSafe : IsSafe (record w { state = s; phases = with_phase i p w.phases })
  moved-IsSafe = record {
    locked = λ j t h. elim (moved-held i p w.phases j) [
      | inl (e, m) ↦ fair.own_locked t (sym (ap held m) ∙ h)
      | inr (e, m) ↦
          let hj = sym (ap held m) ∙ h in fair.others_locked t (safe.locked j t hj) (apart j t e hj)
    ];
    single = λ j k t h g. elim (moved-held i p w.phases j) [
      | inl (e, m) ↦ elim (moved-held i p w.phases k) [
        | inl (f, n) ↦ e ∙ sym f
        | inr (f, n) ↦ absurd (never k t f (sym (ap held m) ∙ h) (sym (ap held n) ∙ g))
      ]
      | inr (e, m) ↦ elim (moved-held i p w.phases k) [
        | inl (f, n) ↦ absurd (never j t e (sym (ap held n) ∙ g) (sym (ap held m) ∙ h))
        | inr (f, n) ↦ safe.single j k t (sym (ap held m) ∙ h) (sym (ap held n) ∙ g)
      ]
    ];
    absent = λ j t h. elim (moved-held i p w.phases j) [
      | inl (e, m) ↦ fair.own_absent t (sym (ap upstream m) ∙ h)
      | inr (e, m) ↦
          let uj = sym (ap upstream m) ∙ h in
          fair.others_absent t (safe.absent j t uj) (apart j t e (upstream-held (w.phases j) t uj))
    ];
    unique = fair.unique;
  }

disconnected-IsSafe : (w : World) (id : ℕ) → IsSafe w → IsSafe (disconnected id w)
unfolding disconnected remove_session
disconnected-IsSafe w id safe =
    around-IsSafe w _ safe refl
      (λ t h.
        get-retain t (retained id) w.state.subscriptions safe.unique
        ∙ ap (λ o. and_then o (retained id)) h)
      (retain-IsUnique (retained id) w.state.subscriptions safe.unique)

spawned-IsSafe : (w : World) (i : ℕ) (task : Task) → IsSafe w → IsSafe (spawned i task w)
unfolding spawned held upstream
spawned-IsSafe w i task safe =
    moved-IsSafe (record w { tasks = λ j. if j == i then task else w.tasks j }) i Subscribe.checking
      w.state []
      (record {
        locked = safe.locked;
        single = safe.single;
        absent = safe.absent;
        unique = safe.unique;
      })
      (ends (w.phases i) Subscribe.checking w.state [] refl refl safe.unique)

Step-IsSafe : {w v : World} → Step w v → IsSafe w → IsSafe v
unfolding connected announced advanced register_session register_namespace
Step-IsSafe {w} (connect session) safe = around-IsSafe w _ safe refl (λ t h. h) safe.unique
Step-IsSafe {w} (announce namespace id) safe = around-IsSafe w _ safe refl (λ t h. h) safe.unique
Step-IsSafe {w} (disconnect id) safe = disconnected-IsSafe w id safe
Step-IsSafe {w} (spawn i task h) safe = spawned-IsSafe w i task safe
Step-IsSafe {w} (proceed i input) safe = moved-IsSafe w i _ _ _ safe (
    advance-IsFair (w.tasks i) (w.phases i) input w.state (safe.locked i) (safe.absent i)
      safe.unique)

start-IsSafe : (tasks : ℕ → Task) → IsSafe (record { state = new; tasks = tasks; phases = no_task })
unfolding held upstream new
start-IsSafe tasks = record {
  locked = λ i t h. absurd (none-some h);
  single = λ i j t h g. absurd (none-some h);
  absent = λ i t h. absurd (none-some h);
  unique = tt;
}

-- However sessions come and go and tasks interleave: a task between the taking of a track's lock
-- and the dropping of its guard finds the lock taken, no second task holds the same track, and
-- while a task looks for a publisher of a track, or awaits the publisher's answer, the track has
-- no subscription. No track stands twice among the subscriptions.
pub Reachable-IsSafe : {w : World} → Reachable w → IsSafe w
Reachable-IsSafe (start tasks) = start-IsSafe tasks
Reachable-IsSafe (after r step) = Step-IsSafe step (Reachable-IsSafe r)

pub upstream-subscribing :
    (t : FullTrackName) (publisher : ℕ) → upstream (subscribing t publisher) ≡ some t
unfolding upstream
upstream-subscribing t publisher = refl

recorded_first :
    (task : Task) (t : FullTrackName) (publisher : ℕ) (ok : SubscribeOkMessage) (s : RelayState)
    → get t s.subscriptions ≡ none
    → get t (advance task (subscribing t publisher) (answered (some ok)) s).1.subscriptions
      ≡ some (record {
        publisher_session = publisher;
        publisher_track_alias = ok.track_alias;
        subscribe_ok = ok;
        subscribers = record { session_id = task.subscriber_session; request = task.request } ∷ [];
      })
unfolding advance on_answer add_subscriber
recorded_first task t publisher ok s nothing =
    get-upsert t t _ _ s.subscriptions ∙ rw ((track_key.same_iff t t).1 refl, nothing) refl

-- In a world that the relay can come to, two tasks that go upstream for one track are one task: a
-- track has at most one SUBSCRIBE to a publisher under way.
pub upstream_once :
    {w : World} {i j : ℕ} {t : FullTrackName}
    → Reachable w
    → upstream (w.phases i) ≡ some t
    → upstream (w.phases j) ≡ some t
    → i ≡ j
upstream_once {w} {i} {j} {t} r hi hj =
    (Reachable-IsSafe r).single i j t (upstream-held _ t hi) (upstream-held _ t hj)

-- When a publisher answers with SUBSCRIBE_OK, the task records a new subscription with that
-- publisher, the alias of the answer and one subscriber, its own; nothing was there before.
pub answer-recorded :
    {w : World} {i : ℕ} {t : FullTrackName} {publisher : ℕ} (ok : SubscribeOkMessage)
    → Reachable w
    → w.phases i ≡ subscribing t publisher
    → (get t w.state.subscriptions ≡ none)
      × (get t (advanced i (answered (some ok)) w).state.subscriptions
          ≡ some (record {
            publisher_session = publisher;
            publisher_track_alias = ok.track_alias;
            subscribe_ok = ok;
            subscribers =
                record {
                  session_id = (w.tasks i).subscriber_session;
                  request = (w.tasks i).request;
                }
                ∷ [];
          }))
unfolding advanced
answer-recorded {w} {i} {t} {publisher} ok r h =
    let nothing =
      (Reachable-IsSafe r).absent i t (ap upstream h ∙ upstream-subscribing t publisher) in
    (
      nothing,
      ap (λ (p : Phase). get t (advance (w.tasks i) p (answered (some ok)) w.state).1.subscriptions)
            h
          ∙ recorded_first (w.tasks i) t publisher ok w.state nothing,
    )
