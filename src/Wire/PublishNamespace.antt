-- ===== src/Wire/PublishNamespace.antt =====
-- moqt-core/src/wire/publish_namespace.rs: the PUBLISH_NAMESPACE message.
pub mod RoundTrip
use moqt_minimal.Prelude.{ℕ, []}
use moqt_minimal.Buffer.{Action, ◌>>=◌, ◌>>◌, pure}
use moqt_minimal.Wire.Varint.{encode_varint, decode_varint}
use moqt_minimal.Wire.Message.{msg_publish_namespace, encode_framed, decode_framed}
use moqt_minimal.Wire.TrackNamespace.{
  TrackNamespace, encode_track_namespace, decode_track_namespace,
}
use moqt_minimal.Wire.Parameter.{encode_parameters, decode_parameters}

pub record PublishNamespaceMessage : Type 0 where
  pub request_id : ℕ
  pub required_request_id_delta : ℕ
  pub track_namespace : TrackNamespace

unfoldable pub encode_body : PublishNamespaceMessage → Action (Unit {0})
encode_body m = do
  encode_varint m.request_id
  encode_varint m.required_request_id_delta
  encode_track_namespace m.track_namespace
  encode_parameters []

-- The parameters are decoded and dropped.
unfoldable pub decode_body : Action PublishNamespaceMessage
decode_body = do
  request_id ← decode_varint
  required_request_id_delta ← decode_varint
  track_namespace ← decode_track_namespace
  params ← decode_parameters
  pure (record {
    request_id = request_id;
    required_request_id_delta = required_request_id_delta;
    track_namespace = track_namespace;
  })

unfoldable pub encode : PublishNamespaceMessage → Action (Unit {0})
unfolding encode_body
encode m = encode_framed msg_publish_namespace (encode_body m)

unfoldable pub decode : Action PublishNamespaceMessage
unfolding decode_body
decode = decode_framed msg_publish_namespace decode_body
