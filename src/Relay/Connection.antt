-- ===== src/Relay/Connection.antt =====
-- moqt-relay/src/relay.rs, handle_connection: the loop over the events of one session.
pub mod Ends
use moqt_minimal.Prelude.{List, [], ◌∷◌}
use moqt_minimal.Buffer.{ok, err}
use moqt_minimal.Wire.TrackNamespace.{TrackNamespace}
use moqt_minimal.Wire.Subscribe.{SubscribeMessage}
use moqt_minimal.Stream.Transport.{Transport}
use moqt_minimal.Session.Events.{
  SubgroupReader, Arrival, SessionEvent, subscribe, publish_namespace, data_stream, next_event,
}
use moqt_minimal.Relay.State.{SessionId}

-- The tasks that are spawned, with what they are given.
pub data Spawned (R : Type 0) : Type 0 where
  handle_subscribe : SessionId → SubscribeMessage → Spawned R
  register_namespace : TrackNamespace → SessionId → Spawned R
  handle_data_stream : SessionId → SubgroupReader R → Spawned R

-- What the peer opens, up to the end of the connection; after the loop comes `remove_session`.
unfoldable pub event_loop :
    {R : Type 0} → Transport R → SessionId → List (Arrival R) → List (Spawned R)
event_loop t session_id [] = []
event_loop t session_id (arrival ∷ arrivals) =
    let rest = event_loop t session_id arrivals in
    elim (next_event t arrival) [
      | err e ↦ []
      | ok (subscribe m) ↦ handle_subscribe session_id m ∷ rest
      | ok (publish_namespace m) ↦ register_namespace m.track_namespace session_id ∷ rest
      | ok (data_stream group) ↦ handle_data_stream session_id group ∷ rest
    ]
