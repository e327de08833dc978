-- ===== src/Relay/World/Liveness.antt =====
-- No task that waits for the lock of a track is shut out.
use moqt_minimal.Prelude.{
  ℕ, zero, suc, ◌≤◌, ◌<◌, false, Option, none, some, ◌≡◌, ◌≢◌, ◌⊎◌, inl, inr, refl, arith, sym, ap,
  ◌∙◌, ==_refl, Bool-cases,
}
use mathlib.Core.Path.{subst}
use moqt_minimal.Wire.SubscribeOk.{SubscribeOkMessage}
use moqt_minimal.Relay.Keys.{FullTrackName, track_key}
use moqt_minimal.Relay.State.{RelayState, Subscription}
use moqt_minimal.Relay.Subscribe
use moqt_minimal.Relay.Subscribe.{
  Phase, Task, Input, Outcome, advance, is_locked, set_lock, ready, answered, locking,
}
use moqt_minimal.Relay.World.{World, Reachable, held, advanced}
use moqt_minimal.Relay.World.Locks.{is_locked-set_lock}
use moqt_minimal.Relay.World.Holders.{none-some, moved, unmoved, Reachable-IsHeld}

-- What task `i` does in `n` steps, when what it awaits is an answer of the publisher.
unfoldable pub answered_times : ℕ → ℕ → Option SubscribeOkMessage → World → World
answered_times zero i a w = w
answered_times (suc n) i a w = answered_times n i a (advanced i (answered a) w)

-- The steps that are left until the guard is dropped.
abbrev rank : Phase → ℕ
rank Subscribe.idle = 0
rank Subscribe.checking = 0
rank Subscribe.finished = 0
rank (Subscribe.locking t) = 0
rank (Subscribe.aggregating t) = 4
rank (Subscribe.searching t) = 3
rank (Subscribe.rejecting t) = 1
rank (Subscribe.answering t ok) = 1
rank (Subscribe.subscribing t publisher) = 2
rank (Subscribe.recorded t ok) = 1
rank (Subscribe.confirming t ok) = 0
rank (Subscribe.awaiting t) = 0

abbrev Nears : Phase → FullTrackName → Outcome → Type 0
Nears p t o = (is_locked t o.1 ≡ false) ⊎ ((held o.0 ≡ some t) × (rank o.0 < rank p))

unlocked : (t : FullTrackName) (s : RelayState) → is_locked t (set_lock false t s) ≡ false
unlocked t s = is_locked-set_lock false t t s ∙ rw ((track_key.same_iff t t).1 refl) refl

module _ (task : Task) (s : RelayState) (t : FullTrackName) where
  existing-Nears :
      (o : Option Subscription)
      → Nears (Subscribe.aggregating t) t (Subscribe.on_existing task t o s)
  unfolding Subscribe.on_existing held
  existing-Nears none = inr (refl, omega arith)
  existing-Nears (some existing) = inr (refl, omega arith)

  publisher-Nears :
      (o : Option (ℕ × ℕ)) → Nears (Subscribe.searching t) t (Subscribe.on_publisher task t o s)
  unfolding Subscribe.on_publisher held
  publisher-Nears none = inr (refl, omega arith)
  publisher-Nears (some (publisher, session)) = inr (refl, omega arith)

  answer-Nears :
      (publisher : ℕ) (a : Option SubscribeOkMessage)
      → Nears (Subscribe.subscribing t publisher) t (Subscribe.on_answer task t publisher a s)
  unfolding Subscribe.on_answer Subscribe.on_return held
  answer-Nears publisher none = inl (unlocked t s)
  answer-Nears publisher (some ok) = inr (refl, omega arith)

some-same : {t u : FullTrackName} → some t ≡ some u → t ≡ u
some-same h = cc

-- With the guard of its track, a task drops it or comes nearer to that in every step.
held-Nears :
    (task : Task) (s : RelayState) (t : FullTrackName) (p : Phase) (a : Option SubscribeOkMessage)
    → held p ≡ some t
    → Nears p t (advance task p (answered a) s)
unfolding advance Subscribe.on_aggregating Subscribe.on_searching Subscribe.on_return
    Subscribe.on_recorded held
held-Nears task s t Subscribe.idle a h = absurd (none-some h)
held-Nears task s t Subscribe.checking a h = absurd (none-some h)
held-Nears task s t Subscribe.finished a h = absurd (none-some h)
held-Nears task s t (Subscribe.locking u) a h = absurd (none-some h)
held-Nears task s t (Subscribe.aggregating u) a h =
    let p = Subscribe.aggregating u in
    subst (λ v. Nears p v (advance task p (answered a) s)) (some-same h) (existing-Nears task s u _)
held-Nears task s t (Subscribe.searching u) a h =
    let p = Subscribe.searching u in
    subst (λ v. Nears p v (advance task p (answered a) s)) (some-same h)
      (publisher-Nears task s u _)
held-Nears task s t (Subscribe.rejecting u) a h =
    inl (subst (λ v. is_locked v (set_lock false u s) ≡ false) (some-same h) (unlocked u s))
held-Nears task s t (Subscribe.answering u ok) a h =
    inl (subst (λ v. is_locked v (set_lock false u s) ≡ false) (some-same h) (unlocked u s))
held-Nears task s t (Subscribe.subscribing u publisher) a h =
    let p = Subscribe.subscribing u publisher in
    subst (λ v. Nears p v (advance task p (answered a) s)) (some-same h)
      (answer-Nears task s u publisher a)
held-Nears task s t (Subscribe.recorded u ok) a h =
    inl (subst (λ v. is_locked v (set_lock false u s) ≡ false) (some-same h) (unlocked u s))
held-Nears task s t (Subscribe.confirming u ok) a h = absurd (none-some h)
held-Nears task s t (Subscribe.awaiting u) a h = absurd (none-some h)

rank-small : (p : Phase) → rank p ≤ 4
rank-small p = ground arith

held-rank : (p : Phase) (t : FullTrackName) → held p ≡ some t → 0 < rank p
unfolding held
held-rank p t h = ground arith

-- Task `j`, another one, does not move while the holder does.
module _ (i j : ℕ) (t : FullTrackName) (a : Option SubscribeOkMessage) where
  abbrev Frees : ℕ → World → Type 0
  Frees f w =
      (n : ℕ) × (n ≤ f)
      × (is_locked t (answered_times n i a w).state ≡ false)
      × (j ≢ i → (answered_times n i a w).phases j ≡ w.phases j)

  stays : (w : World) → j ≢ i → (advanced i (answered a) w).phases j ≡ w.phases j
  unfolding advanced
  stays w d = unmoved i j _ w.phases d

  one_more : (f : ℕ) (w : World) → Frees f (advanced i (answered a) w) → Frees (suc f) w
  unfolding answered_times
  one_more f w (n, small, free, still) = (suc n, omega arith, free, λ d. still d ∙ stays w d)

  now : (f : ℕ) (w : World) → is_locked t w.state ≡ false → Frees f w
  unfolding answered_times
  now f w free = (0, omega arith, free, λ d. refl)

  frees : (f : ℕ) (w : World) → rank (w.phases i) ≤ f → held (w.phases i) ≡ some t → Frees f w
  unfolding advanced
  frees zero w small h = absurd (omega (arith, held-rank _ t h))
  frees (suc f) w small h =
      let next = advance (w.tasks i) (w.phases i) (answered a) w.state in
      let e = moved i next.0 w.phases in
      elim (held-Nears (w.tasks i) w.state t (w.phases i) a h) [
        | inl free ↦ one_more f w (now f _ free)
        | inr (own, nearer) ↦ one_more f w (frees f _ (omega (arith, ap rank e)) (ap held e ∙ own))
      ]

takes :
    (w : World) (j : ℕ) (t : FullTrackName)
    → w.phases j ≡ locking t
    → is_locked t w.state ≡ false
    → held ((advanced j ready w).phases j) ≡ some t
unfolding advanced advance Subscribe.on_locking held
takes w j t h free = rw (==_refl j, h, free) refl

waits-held : (t : FullTrackName) → none ≡ held (locking t)
unfolding held
waits-held t = refl

-- A task that waits for the lock of a track is not shut out: in every world that the relay can
-- come to there is a task that needs at most four steps of its own, whatever the publisher's answer
-- that it may await among them, SUBSCRIBE_OK or none, until the waiting task, which has not
-- moved, gets the lock with its next step.
pub lock-granted :
    {w : World} {j : ℕ} {t : FullTrackName} (a : Option SubscribeOkMessage)
    → Reachable w
    → w.phases j ≡ locking t
    → (i : ℕ) × (n : ℕ) × (n ≤ 4)
      × (held ((advanced j ready (answered_times n i a w)).phases j) ≡ some t)
unfolding answered_times
lock-granted {w} {j} {t} a r h = elim (Bool-cases (is_locked t w.state)) [
  | inl taken ↦
      let (i, e) = Reachable-IsHeld r t taken in
      let apart : j ≢ i =
        λ d. none-some (waits-held t ∙ (ap held (sym h) ∙ (ap (λ k. held (w.phases k)) d ∙ e))) in
      let (n, small, free, still) = frees i j t a 4 w (rank-small (w.phases i)) e in
      (i, n, small, takes _ j t (still apart ∙ h) free)
  | inr free ↦ (0, 0, omega arith, takes w j t h free)
]
