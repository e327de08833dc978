-- ===== src/Wire/RequestOk.antt =====
-- moqt-core/src/wire/request_ok.rs: the REQUEST_OK message, which carries nothing of its own.
pub mod RoundTrip
use moqt_minimal.Prelude.{[]}
use moqt_minimal.Buffer.{Action, ◌>>=◌, pure}
use moqt_minimal.Wire.Message.{msg_request_ok, encode_framed, decode_framed}
use moqt_minimal.Wire.Parameter.{encode_parameters, decode_parameters}

pub data RequestOkMessage : Type 0 where
  request_ok : RequestOkMessage

unfoldable pub encode : RequestOkMessage → Action (Unit {0})
encode request_ok = encode_framed msg_request_ok (encode_parameters [])

unfoldable pub decode : Action RequestOkMessage
decode = decode_framed msg_request_ok (do params ← decode_parameters; pure request_ok)
