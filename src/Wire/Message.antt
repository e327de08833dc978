-- ===== src/Wire/Message.antt =====
-- moqt-core/src/wire/mod.rs: message types, and the frame of a control message.
pub mod Frame
pub mod Framed
use moqt_minimal.Prelude.{ℕ, ◌+◌, ◌*◌, ◌/◌, ◌%◌, List, [], ◌∷◌, length, ◌==◌}
use moqt_minimal.Buffer.{
  Action, ◌>>=◌, ◌>>◌, pure, push, split, collect, ensure, on_slice, unexpected_message_type,
}
use moqt_minimal.Buffer.{message_length_truncated, message_payload_truncated}
use moqt_minimal.Wire.Varint.{encode_varint, decode_varint}

abbrev pub msg_subscribe : ℕ
msg_subscribe = 0x03

abbrev pub msg_subscribe_ok : ℕ
msg_subscribe_ok = 0x04

abbrev pub msg_request_error : ℕ
msg_request_error = 0x05

abbrev pub msg_publish_namespace : ℕ
msg_publish_namespace = 0x06

abbrev pub msg_request_ok : ℕ
msg_request_ok = 0x07

abbrev pub msg_publish_done : ℕ
msg_publish_done = 0x0b

abbrev pub msg_setup : ℕ
msg_setup = 0x2f00

-- `u16::to_be_bytes` and `u16::from_be_bytes`.
abbrev pub to_be_bytes : ℕ → List ℕ
to_be_bytes len = len / 256 ∷ len % 256 ∷ []

abbrev pub from_be_bytes : List ℕ → ℕ
from_be_bytes (hi ∷ lo ∷ more) = hi * 256 + lo
from_be_bytes _ = 0

-- `payload.len() as u16` keeps the length modulo 2^16.
unfoldable pub encode_message : ℕ → List ℕ → Action (Unit {0})
encode_message msg_type payload = do
  encode_varint msg_type
  push (to_be_bytes (length payload % 65536))
  push payload

unfoldable pub decode_message : Action (ℕ × List ℕ)
decode_message = do
  msg_type ← decode_varint
  len_bytes ← split 2 message_length_truncated
  payload ← split (from_be_bytes len_bytes) message_payload_truncated
  pure (msg_type, payload)

-- What every `encode` of a message does: a payload of its own, put into a frame.
unfoldable pub encode_framed : ℕ → Action (Unit {0}) → Action (Unit {0})
encode_framed msg_type body = do payload ← collect body; encode_message msg_type payload

-- What every `decode` of a message does: a frame, a check of its type, and its payload as a slice.
unfoldable pub decode_framed {ℓ} : {A : Type ℓ} → ℕ → Action A → Action A
decode_framed msg_type body = do
  (found, payload) ← decode_message
  ensure (found == msg_type) unexpected_message_type
  on_slice payload body
