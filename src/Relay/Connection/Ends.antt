-- ===== src/Relay/Connection/Ends.antt =====
-- What ends the loop over the events of a session.
use moqt_minimal.Stream.Transport.{Transport}
use moqt_minimal.Stream.Request.{
  RequestMessage, publish_namespace, subscribe, subscribe_ok, request_ok, request_error,
  publish_done,
}

-- A message that is an answer, and does not open a request.
abbrev pub IsAnswer : RequestMessage → Type 0
IsAnswer (publish_namespace m) = ⊥
IsAnswer (subscribe m) = ⊥
IsAnswer (subscribe_ok m) = Unit
IsAnswer (request_ok m) = Unit
IsAnswer (request_error m) = Unit
IsAnswer (publish_done m) = Unit
