-- ===== src/Wire/SubscribeOk.antt =====
-- moqt-core/src/wire/subscribe_ok.rs: the SUBSCRIBE_OK message.
pub mod RoundTrip
use moqt_minimal.Prelude.{ℕ, List, length}
use moqt_minimal.Buffer.{Action, ◌>>=◌, ◌>>◌, pure, push, split, track_properties_truncated}
use moqt_minimal.Wire.Varint.{encode_varint, decode_varint}
use moqt_minimal.Wire.Message.{msg_subscribe_ok, encode_framed, decode_framed}
use moqt_minimal.Wire.Parameter.{MessageParameter, encode_parameters, decode_parameters}

pub record SubscribeOkMessage : Type 0 where
  pub track_alias : ℕ
  pub parameters : List MessageParameter
  pub track_properties_raw : List ℕ

unfoldable pub encode_body : SubscribeOkMessage → Action (Unit {0})
encode_body m = do
  encode_varint m.track_alias
  encode_parameters m.parameters
  encode_varint (length m.track_properties_raw)
  push m.track_properties_raw

unfoldable pub decode_body : Action SubscribeOkMessage
decode_body = do
  track_alias ← decode_varint
  parameters ← decode_parameters
  props_len ← decode_varint
  track_properties_raw ← split props_len track_properties_truncated
  pure (record {
    track_alias = track_alias;
    parameters = parameters;
    track_properties_raw = track_properties_raw;
  })

unfoldable pub encode : SubscribeOkMessage → Action (Unit {0})
unfolding encode_body
encode m = encode_framed msg_subscribe_ok (encode_body m)

unfoldable pub decode : Action SubscribeOkMessage
unfolding decode_body
decode = decode_framed msg_subscribe_ok decode_body
