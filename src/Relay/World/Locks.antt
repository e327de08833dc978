-- ===== src/Relay/World/Locks.antt =====
-- What a phase of `handle_subscribe` may do to the locks of the tracks.
pub mod Phases
use moqt_minimal.Prelude.{
  ℕ, Bool, true, false, Option, none, some, ◌≡◌, ◌≢◌, ◌⊎◌, inl, inr, refl, arith, sym, ap, ◌∙◌,
  if◌then◌else◌, List, [], Bool-cases,
}
use moqt_minimal.Map.{Map, get}
use moqt_minimal.Map.Laws.{
  IsUnique, get-insert, get-upsert, get-modify, upsert-IsUnique, modify-IsUnique,
}
use moqt_minimal.Relay.Keys.{FullTrackName, track_key}
use mathlib.Core.Path.{subst}
use moqt_minimal.Wire.PublishDone.{PublishDoneMessage}
use moqt_minimal.Relay.Utf8.{is_utf8}
use moqt_minimal.Wire.SubscribeOk.{SubscribeOkMessage}
use moqt_minimal.Relay.State.{
  RelayState, Subscription, add_subscriber, push_to_existing, push_subscriber,
  find_existing_subscription,
}
use moqt_minimal.Relay.Subscribe
use moqt_minimal.Relay.Subscribe.{Phase, Task, Input, Outcome, advance, is_locked, set_lock}
use moqt_minimal.Relay.World.{held, upstream}

pub none-some : {t : FullTrackName} → none ≢ some t
none-some e = absurd (ground arith)

pub is_locked-set_lock :
    (b : Bool) (t u : FullTrackName) (s : RelayState)
    → is_locked u (set_lock b t s) ≡ (if track_key.same t u then b else is_locked u s)
unfolding is_locked set_lock
is_locked-set_lock b t u s = ground (arith, get-insert u t b s.track_locks)

-- What a phase may do: it leaves other tracks' locks and subscriptions alone, takes a lock only
-- when it is free, and goes upstream only where there is no subscription.
pub record IsFair (p : Phase) (s : RelayState) (o : Outcome) : Type 0 where
  pub others_locked :
      (t : FullTrackName) → is_locked t s ≡ true → held p ≢ some t → is_locked t o.1 ≡ true
  pub own_locked : (t : FullTrackName) → held o.0 ≡ some t → is_locked t o.1 ≡ true
  pub own_free :
      (t : FullTrackName) → held o.0 ≡ some t → (held p ≡ some t) ⊎ (is_locked t s ≡ false)
  pub others_absent :
      (t : FullTrackName)
      → get t s.subscriptions ≡ none
      → held p ≢ some t
      → get t o.1.subscriptions ≡ none
  pub own_absent : (t : FullTrackName) → upstream o.0 ≡ some t → get t o.1.subscriptions ≡ none
  pub unique : IsUnique o.1.subscriptions

-- A phase that changes neither locks nor subscriptions, and takes no lock.
module _ (p q : Phase) (s : RelayState) (sent : List Subscribe.Effect)
    (locked : (t : FullTrackName) → held q ≡ some t → is_locked t s ≡ true)
    (kept : (t : FullTrackName) → held q ≡ some t → held p ≡ some t)
    (absent : (t : FullTrackName) → upstream q ≡ some t → get t s.subscriptions ≡ none)
    (unique : IsUnique s.subscriptions) where
  pub quiet : IsFair p s (q, s, sent)
  quiet = record {
    others_locked = λ t l h. l;
    own_locked = locked;
    own_free = λ t h. inl (kept t h);
    others_absent = λ t a h. a;
    own_absent = absent;
    unique = unique;
  }

-- A phase that drops its guard.
pub release :
    (p q : Phase) (s : RelayState) (sent : List Subscribe.Effect) (t : FullTrackName)
    → held p ≡ some t
    → held q ≡ none
    → upstream q ≡ none
    → IsUnique s.subscriptions
    → IsFair p s (q, set_lock false t s, sent)
release p q s sent t hp hq uq unique = record {
  others_locked = λ u l h. ground (arith, is_locked-set_lock false t u s, track_key.same_iff t u);
  own_locked = λ u h. absurd (cc);
  own_free = λ u h. absurd (cc);
  others_absent = λ u a h. unfold set_lock in a;
  own_absent = λ u h. absurd (cc);
  unique = unfold set_lock in unique;
}

-- A phase that keeps its guard and changes the subscription of its own track.
pub changed :
    (p q : Phase) (s : RelayState) (m : Map FullTrackName Subscription)
    (sent : List Subscribe.Effect) (t : FullTrackName)
    → held p ≡ some t
    → held q ≡ some t
    → upstream q ≡ none
    → is_locked t s ≡ true
    → ((u : FullTrackName) → track_key.same t u ≡ false → get u m ≡ get u s.subscriptions)
    → IsUnique m
    → IsFair p s (q, record s { subscriptions = m }, sent)
unfolding is_locked
changed p q s m sent t hp hq uq taken other unique = record {
  others_locked = λ u l h. l;
  own_locked = λ u h. subst (λ v. is_locked v s ≡ true) (cc) taken;
  own_free = λ u h. inl (cc);
  others_absent = λ u a h. elim (Bool-cases (track_key.same t u)) [
    | inl same ↦ absurd (h (hp ∙ ap some ((track_key.same_iff t u).0 same)))
    | inr differs ↦ other u differs ∙ a
  ];
  own_absent = λ u h. absurd (none-some (sym uq ∙ h));
  unique = unique;
}
