-- ===== src/Relay/World/Locks/Phases.antt =====
-- The phases of `handle_subscribe`, one after the other, and the locks of the tracks.
use moqt_minimal.Prelude.{
  ℕ, true, false, Option, none, some, ◌≡◌, inl, inr, refl, arith, sym, ◌∙◌, List, [], Bool-cases,
}
use moqt_minimal.Map.{get}
use moqt_minimal.Map.Laws.{IsUnique, get-upsert, get-modify, upsert-IsUnique, modify-IsUnique}
use moqt_minimal.Relay.Keys.{FullTrackName, track_key}
use mathlib.Core.Path.{subst}
use moqt_minimal.Wire.PublishDone.{PublishDoneMessage}
use moqt_minimal.Relay.Utf8.{is_utf8}
use moqt_minimal.Wire.SubscribeOk.{SubscribeOkMessage}
use moqt_minimal.Relay.State.{
  RelayState, Subscription, add_subscriber, push_to_existing, push_subscriber,
  find_existing_subscription,
}
use moqt_minimal.Relay.Subscribe
use moqt_minimal.Relay.Subscribe.{Phase, Task, Input, Outcome, advance, is_locked, set_lock}
use moqt_minimal.Relay.World.{held, upstream}
use moqt_minimal.Relay.World.Locks.{none-some, is_locked-set_lock, IsFair, quiet, release, changed}

-- The phases that take the lock, add a subscriber, or record a subscription.
locking-IsFair :
    (t : FullTrackName) (s : RelayState)
    → IsUnique s.subscriptions
    → IsFair (Subscribe.locking t) s (Subscribe.on_locking t s)
unfolding Subscribe.on_locking held upstream
locking-IsFair t s unique = elim (Bool-cases (is_locked t s)) [
  | inl taken ↦ rw taken (
      quiet (Subscribe.locking t) (Subscribe.locking t) s [] (λ u h. absurd (cc)) (λ u h. h)
        (λ u h. absurd (cc)) unique)
  | inr free ↦ rw free (record {
    others_locked = λ u l h. ground (arith, is_locked-set_lock true t u s);
    own_locked = λ u h. ground (arith, is_locked-set_lock true t u s, track_key.same_iff t u);
    own_free = λ u h. inr (subst (λ v. is_locked v s ≡ false) (cc) free);
    others_absent = λ u a h. unfold set_lock in a;
    own_absent = λ u h. absurd (cc);
    unique = unfold set_lock in unique;
  })
]

existing-IsFair :
    (task : Task) (t : FullTrackName) (s : RelayState) (o : Option Subscription)
    → get t s.subscriptions ≡ o
    → is_locked t s ≡ true
    → IsUnique s.subscriptions
    → IsFair (Subscribe.aggregating t) s (Subscribe.on_existing task t o s)
unfolding Subscribe.on_existing held upstream
existing-IsFair task t s none e taken unique =
    quiet (Subscribe.aggregating t) (Subscribe.searching t) s []
      (λ u h. subst (λ v. is_locked v s ≡ true) (cc) taken) (λ u h. h)
      (λ u h. subst (λ v. get v s.subscriptions ≡ none) (cc) e) unique
existing-IsFair task t s (some existing) e taken unique =
    unfold push_to_existing in
    changed (Subscribe.aggregating t) (Subscribe.answering t existing.subscribe_ok) s _ _ t refl
      refl refl taken
      (λ u h. ground (
        arith,
        get-modify u t
            (push_subscriber
              (record { session_id = task.subscriber_session; request = task.request }))
            s.subscriptions,
      ))
      (modify-IsUnique t _ s.subscriptions unique)

answer-IsFair :
    (task : Task) (t : FullTrackName) (publisher : ℕ) (a : Option SubscribeOkMessage)
    (s : RelayState)
    → is_locked t s ≡ true
    → IsUnique s.subscriptions
    → IsFair (Subscribe.subscribing t publisher) s (Subscribe.on_answer task t publisher a s)
unfolding Subscribe.on_answer Subscribe.on_return held upstream
answer-IsFair task t publisher none s taken unique =
    release (Subscribe.subscribing t publisher) Subscribe.finished s [] t refl refl refl unique
answer-IsFair task t publisher (some ok) s taken unique =
    unfold add_subscriber in
    changed (Subscribe.subscribing t publisher) (Subscribe.recorded t ok) s _ _ t refl refl refl
      taken (λ u h. get-upsert u t _ _ s.subscriptions ∙ rw h refl)
      (upsert-IsUnique t _ _ s.subscriptions unique)

-- A phase that changes nothing and holds nothing afterwards.
pub ends :
    (p q : Phase) (s : RelayState) (sent : List Subscribe.Effect)
    → held q ≡ none
    → upstream q ≡ none
    → IsUnique s.subscriptions
    → IsFair p s (q, s, sent)
ends p q s sent hq uq unique =
    quiet p q s sent (λ t h. absurd (none-some (sym hq ∙ h)))
      (λ t h. absurd (none-some (sym hq ∙ h))) (λ t h. absurd (none-some (sym uq ∙ h))) unique

checking-IsFair :
    (task : Task) (s : RelayState)
    → IsUnique s.subscriptions
    → IsFair Subscribe.checking s (Subscribe.on_checking task s)
unfolding Subscribe.on_checking held upstream
checking-IsFair task s unique =
    elim (Bool-cases (Subscribe.has_unsupported_filter task.message.parameters)) [
      | inl d ↦ rw d (ends _ _ s _ refl refl unique)
      | inr d ↦ rw d (elim (Bool-cases (is_utf8 task.message.track_name)) [
        | inl v ↦ rw v (ends _ _ s _ refl refl unique)
        | inr v ↦ rw v (ends _ _ s _ refl refl unique)
      ])
    ]

module _ (task : Task) (s : RelayState) (unique : IsUnique s.subscriptions) where
  publisher-IsFair :
      (t : FullTrackName) (o : Option (ℕ × ℕ))
      → is_locked t s ≡ true
      → get t s.subscriptions ≡ none
      → IsFair (Subscribe.searching t) s (Subscribe.on_publisher task t o s)
  unfolding Subscribe.on_publisher held upstream
  publisher-IsFair t none taken absent =
      quiet (Subscribe.searching t) (Subscribe.rejecting t) s _
        (λ u h. subst (λ v. is_locked v s ≡ true) (cc) taken) (λ u h. h)
        (λ u h. absurd (none-some h)) unique
  publisher-IsFair t (some (publisher, session)) taken absent =
      quiet (Subscribe.searching t) (Subscribe.subscribing t publisher) s _
        (λ u h. subst (λ v. is_locked v s ≡ true) (cc) taken) (λ u h. h)
        (λ u h. subst (λ v. get v s.subscriptions ≡ none) (cc) absent) unique

  published-IsFair :
      (t : FullTrackName) (d : Option PublishDoneMessage)
      → IsFair (Subscribe.awaiting t) s (Subscribe.on_published t d s)
  unfolding Subscribe.on_published held upstream
  published-IsFair t none = ends _ _ s _ refl refl unique
  published-IsFair t (some d) = ends _ _ s _ refl refl unique

-- Every phase is fair where its own lock is taken and, upstream, its track has no subscription.
pub advance-IsFair :
    (task : Task) (p : Phase) (input : Input) (s : RelayState)
    → ((t : FullTrackName) → held p ≡ some t → is_locked t s ≡ true)
    → ((t : FullTrackName) → upstream p ≡ some t → get t s.subscriptions ≡ none)
    → IsUnique s.subscriptions
    → IsFair p s (advance task p input s)
unfolding advance Subscribe.on_aggregating Subscribe.on_searching Subscribe.on_return
    Subscribe.on_recorded held upstream find_existing_subscription
advance-IsFair task Subscribe.idle input s locked absent unique = ends _ _ s _ refl refl unique
advance-IsFair task Subscribe.finished input s locked absent unique = ends _ _ s _ refl refl unique
advance-IsFair task Subscribe.checking input s locked absent unique = checking-IsFair task s unique
advance-IsFair task (Subscribe.locking t) input s locked absent unique = locking-IsFair t s unique
advance-IsFair task (Subscribe.aggregating t) input s locked absent unique =
    existing-IsFair task t s _ refl (locked t refl) unique
advance-IsFair task (Subscribe.answering t ok) input s locked absent unique =
    release _ _ s _ t refl refl refl unique
advance-IsFair task (Subscribe.searching t) input s locked absent unique =
    publisher-IsFair task s unique t _ (locked t refl) (absent t refl)
advance-IsFair task (Subscribe.rejecting t) input s locked absent unique =
    release _ _ s _ t refl refl refl unique
advance-IsFair task (Subscribe.subscribing t publisher) (Subscribe.answered a) s locked absent
      unique =
    answer-IsFair task t publisher a s (locked t refl) unique
advance-IsFair task (Subscribe.subscribing t publisher) Subscribe.ready s locked absent unique =
    quiet _ _ s _ locked (λ u h. h) absent unique
advance-IsFair task (Subscribe.subscribing t publisher) (Subscribe.sent b) s locked absent unique =
    quiet _ _ s _ locked (λ u h. h) absent unique
advance-IsFair task (Subscribe.subscribing t publisher) (Subscribe.published d) s locked absent
      unique =
    quiet _ _ s _ locked (λ u h. h) absent unique
advance-IsFair task (Subscribe.recorded t ok) input s locked absent unique =
    release _ _ s _ t refl refl refl unique
advance-IsFair task (Subscribe.confirming t ok) (Subscribe.sent true) s locked absent unique =
    ends _ _ s _ refl refl unique
advance-IsFair task (Subscribe.confirming t ok) (Subscribe.sent false) s locked absent unique =
    ends _ _ s _ refl refl unique
advance-IsFair task (Subscribe.confirming t ok) Subscribe.ready s locked absent unique =
    ends _ _ s _ refl refl unique
advance-IsFair task (Subscribe.confirming t ok) (Subscribe.answered a) s locked absent unique =
    ends _ _ s _ refl refl unique
advance-IsFair task (Subscribe.confirming t ok) (Subscribe.published d) s locked absent unique =
    ends _ _ s _ refl refl unique
advance-IsFair task (Subscribe.awaiting t) (Subscribe.published d) s locked absent unique =
    published-IsFair task s unique t d
advance-IsFair task (Subscribe.awaiting t) Subscribe.ready s locked absent unique =
    ends _ _ s _ refl refl unique
advance-IsFair task (Subscribe.awaiting t) (Subscribe.sent b) s locked absent unique =
    ends _ _ s _ refl refl unique
advance-IsFair task (Subscribe.awaiting t) (Subscribe.answered a) s locked absent unique =
    ends _ _ s _ refl refl unique
