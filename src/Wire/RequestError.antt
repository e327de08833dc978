-- ===== src/Wire/RequestError.antt =====
-- moqt-core/src/wire/request_error.rs: the REQUEST_ERROR message.
pub mod RoundTrip
use moqt_minimal.Prelude.{ℕ}
use moqt_minimal.Buffer.{Action, ◌>>=◌, ◌>>◌, pure}
use moqt_minimal.Wire.Varint.{encode_varint, decode_varint}
use moqt_minimal.Wire.Message.{msg_request_error, encode_framed, decode_framed}
use moqt_minimal.Wire.ReasonPhrase.{ReasonPhrase, encode_reason_phrase, decode_reason_phrase}

abbrev pub error_not_supported : ℕ
error_not_supported = 0x3

abbrev pub error_does_not_exist : ℕ
error_does_not_exist = 0x10

pub record RequestErrorMessage : Type 0 where
  pub error_code : ℕ
  pub retry_interval : ℕ
  pub reason_phrase : ReasonPhrase

unfoldable pub encode_body : RequestErrorMessage → Action (Unit {0})
encode_body m = do
  encode_varint m.error_code
  encode_varint m.retry_interval
  encode_reason_phrase m.reason_phrase

unfoldable pub decode_body : Action RequestErrorMessage
decode_body = do
  error_code ← decode_varint
  retry_interval ← decode_varint
  reason_phrase ← decode_reason_phrase
  pure (record {
    error_code = error_code;
    retry_interval = retry_interval;
    reason_phrase = reason_phrase;
  })

unfoldable pub encode : RequestErrorMessage → Action (Unit {0})
unfolding encode_body
encode m = encode_framed msg_request_error (encode_body m)

unfoldable pub decode : Action RequestErrorMessage
unfolding decode_body
decode = decode_framed msg_request_error decode_body
