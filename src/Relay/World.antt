-- ===== src/Relay/World.antt =====
-- moqt-relay/src/relay.rs, handle_connection: the sessions and the tasks that share the relay's
-- state, one access to it at a time, in any order.
pub mod Locks
pub mod Safety
pub mod Holders
pub mod Liveness
use moqt_minimal.Prelude.{
  ℕ, Bool, true, false, Option, none, some, ◌≡◌, ◌≢◌, if◌then◌else◌, ◌==◌, List, [], ◌∷◌,
}
use moqt_minimal.Wire.TrackNamespace.{TrackNamespace}
use moqt_minimal.Relay.Keys.{FullTrackName}
use moqt_minimal.Relay.State.{
  RelayState, SessionId, SessionRef, new, register_session, remove_session, register_namespace,
}
use moqt_minimal.Relay.Subscribe.{
  Phase, idle, checking, finished, locking, aggregating, searching, rejecting, answering,
  subscribing, recorded, confirming, awaiting, Task, Input, advance,
}

-- The tasks that `tokio::spawn` has started, by number.
pub record World : Type 0 where
  pub state : RelayState
  pub tasks : ℕ → Task
  pub phases : ℕ → Phase

abbrev pub with_phase : ℕ → Phase → (ℕ → Phase) → ℕ → Phase
with_phase i p phases j = if j == i then p else phases j

unfoldable pub connected : SessionRef → World → World
unfolding register_session
connected session w = record w { state = (register_session session w.state).1 }

unfoldable pub disconnected : SessionId → World → World
unfolding remove_session
disconnected id w = record w { state = remove_session id w.state }

-- The task of a PUBLISH_NAMESPACE; it may run after its session has gone.
unfoldable pub announced : TrackNamespace → SessionId → World → World
unfolding register_namespace
announced namespace id w = record w { state = register_namespace namespace id w.state }

unfoldable pub spawned : ℕ → Task → World → World
spawned i task w = record w {
  tasks = λ j. if j == i then task else w.tasks j;
  phases = with_phase i checking w.phases;
}

unfoldable pub advanced : ℕ → Input → World → World
unfolding advance
advanced i input w =
    let (p, s, sent) = advance (w.tasks i) (w.phases i) input w.state in
    record w { state = s; phases = with_phase i p w.phases }

pub data Step (w : World) : World → Type 0 where
  connect : (session : SessionRef) → Step w (connected session w)
  disconnect : (id : SessionId) → Step w (disconnected id w)
  announce : (namespace : TrackNamespace) (id : SessionId) → Step w (announced namespace id w)
  spawn : (i : ℕ) (task : Task) → w.phases i ≡ idle → Step w (spawned i task w)
  proceed : (i : ℕ) (input : Input) → Step w (advanced i input w)

abbrev pub no_task : ℕ → Phase
no_task i = idle

-- The worlds that a new relay can come to.
pub data Reachable : World → Type 0 where
  start : (tasks : ℕ → Task) → Reachable (record { state = new; tasks = tasks; phases = no_task })
  after : {w v : World} → Reachable w → Step w v → Reachable v

-- The track whose guard a task holds.
unfoldable pub held : Phase → Option FullTrackName
held idle = none
held checking = none
held finished = none
held (locking t) = none
held (aggregating t) = some t
held (searching t) = some t
held (rejecting t) = some t
held (answering t ok) = some t
held (subscribing t publisher) = some t
held (recorded t ok) = some t
held (confirming t ok) = none
held (awaiting t) = none

-- The track that a task is about to subscribe to, or awaits the publisher's answer for.
unfoldable pub upstream : Phase → Option FullTrackName
upstream idle = none
upstream checking = none
upstream finished = none
upstream (locking t) = none
upstream (aggregating t) = none
upstream (searching t) = some t
upstream (rejecting t) = none
upstream (answering t ok) = none
upstream (subscribing t publisher) = some t
upstream (recorded t ok) = none
upstream (confirming t ok) = none
upstream (awaiting t) = none
