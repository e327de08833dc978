-- ===== src/Stream/Request.antt =====
-- moqt-core/src/stream/request.rs: typed messages on request streams, and the control streams of
-- stream/control.rs. A writer hands one encoded message to the stream's `write_all`.
pub mod RoundTrip
use moqt_minimal.Prelude.{ℕ, List, [], ◌==◌, if◌then◌else◌}
use moqt_minimal.Buffer.{Result, ok, err, Action, unknown_request_type}
use moqt_minimal.Wire.Varint.{decode_varint}
use moqt_minimal.Wire.Message.{
  msg_subscribe, msg_subscribe_ok, msg_request_error, msg_publish_namespace, msg_request_ok,
  msg_publish_done,
}
use moqt_minimal.Wire.Subscribe
use moqt_minimal.Wire.SubscribeOk
use moqt_minimal.Wire.PublishNamespace
use moqt_minimal.Wire.PublishDone
use moqt_minimal.Wire.RequestOk
use moqt_minimal.Wire.RequestError
use moqt_minimal.Wire.Setup
use moqt_minimal.Stream.Transport.{Transport, Reader, ◌>>=◌, lift, decoded}
use moqt_minimal.Stream.Frame.{read_message_frame}

pub data RequestMessage : Type 0 where
  publish_namespace : PublishNamespace.PublishNamespaceMessage → RequestMessage
  subscribe : Subscribe.SubscribeMessage → RequestMessage
  subscribe_ok : SubscribeOk.SubscribeOkMessage → RequestMessage
  request_ok : RequestOk.RequestOkMessage → RequestMessage
  request_error : RequestError.RequestErrorMessage → RequestMessage
  publish_done : PublishDone.PublishDoneMessage → RequestMessage

-- `Ok(RequestMessage::…(decode(&mut slice)?))`.
abbrev pub wrapped :
    {A : Type 0} → (A → RequestMessage) → Result (A × List ℕ) → Result RequestMessage
wrapped f (ok (a, left)) = ok (f a)
wrapped f (err e) = err e

unfoldable pub parse_as : ℕ → List ℕ → Result RequestMessage
parse_as msg_type bytes =
    if msg_type == msg_publish_namespace
    then wrapped publish_namespace (PublishNamespace.decode bytes)
    else if msg_type == msg_subscribe
    then wrapped subscribe (Subscribe.decode bytes)
    else if msg_type == msg_subscribe_ok
    then wrapped subscribe_ok (SubscribeOk.decode bytes)
    else if msg_type == msg_request_ok
    then wrapped request_ok (RequestOk.decode bytes)
    else if msg_type == msg_request_error
    then wrapped request_error (RequestError.decode bytes)
    else if msg_type == msg_publish_done
    then wrapped publish_done (PublishDone.decode bytes)
    else err unknown_request_type

abbrev pub parse_typed : Result (ℕ × List ℕ) → List ℕ → Result RequestMessage
parse_typed (ok (msg_type, left)) bytes = parse_as msg_type bytes
parse_typed (err e) bytes = err e

unfoldable pub parse_request_message : List ℕ → Result RequestMessage
parse_request_message bytes = parse_typed (decode_varint bytes) bytes

-- The encodings that the `write_…` methods make in a buffer of their own.
unfoldable pub encode_request : RequestMessage → Action (Unit {0})
encode_request (publish_namespace m) = PublishNamespace.encode m
encode_request (subscribe m) = Subscribe.encode m
encode_request (subscribe_ok m) = SubscribeOk.encode m
encode_request (request_ok m) = RequestOk.encode m
encode_request (request_error m) = RequestError.encode m
encode_request (publish_done m) = PublishDone.encode m

module _ {R : Type 0} (t : Transport R) where
  unfoldable pub read_message : Reader R RequestMessage
  read_message = do bytes ← read_message_frame t; lift (parse_request_message bytes)

  unfoldable pub read_setup : Reader R Setup.SetupMessage
  read_setup = do buf ← read_message_frame t; decoded buf Setup.decode
