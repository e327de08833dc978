-- ===== src/Wire/Subscribe.antt =====
-- moqt-core/src/wire/subscribe.rs: the SUBSCRIBE message.
pub mod RoundTrip
use moqt_minimal.Prelude.{ℕ, List, length}
use moqt_minimal.Buffer.{Action, ◌>>=◌, ◌>>◌, pure, push, split, track_name_truncated}
use moqt_minimal.Wire.Varint.{encode_varint, decode_varint}
use moqt_minimal.Wire.Message.{msg_subscribe, encode_framed, decode_framed}
use moqt_minimal.Wire.TrackNamespace.{
  TrackNamespace, encode_track_namespace, decode_track_namespace,
}
use moqt_minimal.Wire.Parameter.{MessageParameter, encode_parameters, decode_parameters}

pub record SubscribeMessage : Type 0 where
  pub request_id : ℕ
  pub required_request_id_delta : ℕ
  pub track_namespace : TrackNamespace
  pub track_name : List ℕ
  pub parameters : List MessageParameter

unfoldable pub encode_body : SubscribeMessage → Action (Unit {0})
encode_body m = do
  encode_varint m.request_id
  encode_varint m.required_request_id_delta
  encode_track_namespace m.track_namespace
  encode_varint (length m.track_name)
  push m.track_name
  encode_parameters m.parameters

unfoldable pub decode_body : Action SubscribeMessage
decode_body = do
  request_id ← decode_varint
  required_request_id_delta ← decode_varint
  track_namespace ← decode_track_namespace
  name_len ← decode_varint
  track_name ← split name_len track_name_truncated
  parameters ← decode_parameters
  pure (record {
    request_id = request_id;
    required_request_id_delta = required_request_id_delta;
    track_namespace = track_namespace;
    track_name = track_name;
    parameters = parameters;
  })

unfoldable pub encode : SubscribeMessage → Action (Unit {0})
unfolding encode_body
encode m = encode_framed msg_subscribe (encode_body m)

unfoldable pub decode : Action SubscribeMessage
unfolding decode_body
decode = decode_framed msg_subscribe decode_body
