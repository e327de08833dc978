-- ===== src/Session/Requests.antt =====
-- moqt-core/src/session/: mod.rs (SETUP, `subscribe`, `publish_namespace`, the request branch of
-- `next_event`), subscribe_request.rs, publish_namespace_request.rs and subscription.rs.
pub mod Exchange
use moqt_minimal.Prelude.{ℕ, ◌≡◌, refl, ap, ◌∙◌, List, [], ◌∷◌, ◌++◌, length}
use moqt_minimal.Buffer.{Error, Result, ok, err, unexpected_response, request_rejected}
use moqt_minimal.Wire.Parameter.{MessageParameter}
use moqt_minimal.Wire.TrackNamespace.{TrackNamespace}
use moqt_minimal.Wire.ReasonPhrase.{ReasonPhrase}
use moqt_minimal.Wire.Setup.{SetupMessage, path, authority}
use moqt_minimal.Wire.Subscribe.{SubscribeMessage}
use moqt_minimal.Wire.SubscribeOk.{SubscribeOkMessage}
use moqt_minimal.Wire.PublishNamespace.{PublishNamespaceMessage}
use moqt_minimal.Wire.PublishDone.{PublishDoneMessage, status_track_ended}
use moqt_minimal.Wire.RequestError.{RequestErrorMessage}
use moqt_minimal.Wire.RequestOk as Ok
use moqt_minimal.Stream.Transport.{Transport, Reader, Pulls, ◌>>=◌, lift}
use moqt_minimal.Stream.Request.{
  RequestMessage, publish_namespace, subscribe, subscribe_ok, request_ok, request_error,
  publish_done, read_message, encode_request,
}
use moqt_minimal.Session.RequestIds.{RequestIdAllocator, allocate}

-- What `connect` and `accept` send: "/" and "localhost", or nothing.
abbrev pub client_setup : SetupMessage
client_setup = record {
  setup_options =
      path (47 ∷ []) ∷ authority (108 ∷ 111 ∷ 99 ∷ 97 ∷ 108 ∷ 104 ∷ 111 ∷ 115 ∷ 116 ∷ []) ∷ [];
}

abbrev pub server_setup : SetupMessage
server_setup = record { setup_options = [] }

-- The message of `subscribe`, whose request id is a new one.
unfoldable pub new_subscribe :
    TrackNamespace
    → List ℕ
    → List MessageParameter
    → RequestIdAllocator
    → SubscribeMessage × RequestIdAllocator
new_subscribe namespace track_name parameters a =
    let (id, next) = allocate a in
    (
      record {
        request_id = id;
        required_request_id_delta = 0;
        track_namespace = namespace;
        track_name = track_name;
        parameters = parameters;
      },
      next,
    )

unfoldable pub new_publish_namespace :
    TrackNamespace → RequestIdAllocator → PublishNamespaceMessage × RequestIdAllocator
new_publish_namespace namespace a =
    let (id, next) = allocate a in
    (record { request_id = id; required_request_id_delta = 0; track_namespace = namespace }, next)

-- The `match response` of `subscribe`, of `publish_namespace` and of `recv_publish_done`, and the
-- `match msg` of `next_event`.
unfoldable pub subscribe_response : RequestMessage → Result SubscribeOkMessage
subscribe_response (subscribe_ok m) = ok m
subscribe_response (request_error m) = err request_rejected
subscribe_response (publish_namespace m) = err unexpected_response
subscribe_response (subscribe m) = err unexpected_response
subscribe_response (request_ok m) = err unexpected_response
subscribe_response (publish_done m) = err unexpected_response

unfoldable pub publish_namespace_response : RequestMessage → Result (Unit {0})
publish_namespace_response (request_ok m) = ok tt
publish_namespace_response (request_error m) = err request_rejected
publish_namespace_response (publish_namespace m) = err unexpected_response
publish_namespace_response (subscribe m) = err unexpected_response
publish_namespace_response (subscribe_ok m) = err unexpected_response
publish_namespace_response (publish_done m) = err unexpected_response

unfoldable pub publish_done_response : RequestMessage → Result PublishDoneMessage
publish_done_response (publish_done m) = ok m
publish_done_response (request_ok m) = err unexpected_response
publish_done_response (request_error m) = err unexpected_response
publish_done_response (publish_namespace m) = err unexpected_response
publish_done_response (subscribe m) = err unexpected_response
publish_done_response (subscribe_ok m) = err unexpected_response

pub data Request : Type 0 where
  subscribe_request : SubscribeMessage → Request
  publish_namespace_request : PublishNamespaceMessage → Request

unfoldable pub request_event : RequestMessage → Result Request
request_event (subscribe m) = ok (subscribe_request m)
request_event (publish_namespace m) = ok (publish_namespace_request m)
request_event (subscribe_ok m) = err unexpected_response
request_event (request_ok m) = err unexpected_response
request_event (request_error m) = err unexpected_response
request_event (publish_done m) = err unexpected_response

-- The answers of SubscribeRequest and PublishNamespaceRequest.
unfoldable pub accept : ℕ → RequestMessage
accept track_alias =
    subscribe_ok (record { track_alias = track_alias; parameters = []; track_properties_raw = [] })

unfoldable pub reject : ℕ → List ℕ → RequestMessage
reject error_code reason = request_error (record {
  error_code = error_code;
  retry_interval = 0;
  reason_phrase = record { value = reason };
})

unfoldable pub send_publish_done : ℕ → RequestMessage
send_publish_done stream_count = publish_done (record {
  status_code = status_track_ended;
  stream_count = stream_count;
  reason_phrase = record { value = [] };
})

unfoldable pub forward_subscribe_ok : SubscribeOkMessage → RequestMessage
forward_subscribe_ok m = subscribe_ok m

unfoldable pub forward_publish_done : PublishDoneMessage → RequestMessage
forward_publish_done m = publish_done m

unfoldable pub reject_namespace : RequestErrorMessage → RequestMessage
reject_namespace m = request_error m

unfoldable pub accept_namespace : RequestMessage
accept_namespace = request_ok Ok.request_ok

module _ {R : Type 0} (t : Transport R) where
  -- `subscribe` and `recv_publish_done` once the request has been sent, and the request branch of
  -- `next_event`.
  unfoldable pub await_subscribe_ok : Reader R SubscribeOkMessage
  await_subscribe_ok = do m ← read_message t; lift (subscribe_response m)

  unfoldable pub recv_publish_done : Reader R PublishDoneMessage
  recv_publish_done = do m ← read_message t; lift (publish_done_response m)

  unfoldable pub await_request_ok : Reader R (Unit {0})
  await_request_ok = do m ← read_message t; lift (publish_namespace_response m)

  unfoldable pub next_request : Reader R Request
  next_request = do m ← read_message t; lift (request_event m)
