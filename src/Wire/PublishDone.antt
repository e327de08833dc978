-- ===== src/Wire/PublishDone.antt =====
-- moqt-core/src/wire/publish_done.rs: the PUBLISH_DONE message.
pub mod RoundTrip
use moqt_minimal.Prelude.{ℕ}
use moqt_minimal.Buffer.{Action, ◌>>=◌, ◌>>◌, pure}
use moqt_minimal.Wire.Varint.{encode_varint, decode_varint}
use moqt_minimal.Wire.Message.{msg_publish_done, encode_framed, decode_framed}
use moqt_minimal.Wire.ReasonPhrase.{ReasonPhrase, encode_reason_phrase, decode_reason_phrase}

abbrev pub status_track_ended : ℕ
status_track_ended = 0x2

abbrev pub status_subscription_ended : ℕ
status_subscription_ended = 0x3

pub record PublishDoneMessage : Type 0 where
  pub status_code : ℕ
  pub stream_count : ℕ
  pub reason_phrase : ReasonPhrase

unfoldable pub encode_body : PublishDoneMessage → Action (Unit {0})
encode_body m = do
  encode_varint m.status_code
  encode_varint m.stream_count
  encode_reason_phrase m.reason_phrase

unfoldable pub decode_body : Action PublishDoneMessage
decode_body = do
  status_code ← decode_varint
  stream_count ← decode_varint
  reason_phrase ← decode_reason_phrase
  pure (record {
    status_code = status_code;
    stream_count = stream_count;
    reason_phrase = reason_phrase;
  })

unfoldable pub encode : PublishDoneMessage → Action (Unit {0})
unfolding encode_body
encode m = encode_framed msg_publish_done (encode_body m)

unfoldable pub decode : Action PublishDoneMessage
unfolding decode_body
decode = decode_framed msg_publish_done decode_body
