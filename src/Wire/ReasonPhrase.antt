-- ===== src/Wire/ReasonPhrase.antt =====
-- moqt-core/src/wire/reason_phrase.rs: a length-prefixed string of at most 1024 bytes.
pub mod RoundTrip
use moqt_minimal.Prelude.{ℕ, List, length, leb}
use moqt_minimal.Buffer.{Action, ◌>>=◌, ◌>>◌, pure, push, split, ensure}
use moqt_minimal.Buffer.{reason_too_long, reason_truncated}
use moqt_minimal.Wire.Varint.{encode_varint, decode_varint}

abbrev pub max_length : ℕ
max_length = 1024

pub record ReasonPhrase : Type 0 where
  pub value : List ℕ

unfoldable pub encode_reason_phrase : ReasonPhrase → Action (Unit {0})
encode_reason_phrase rp = do encode_varint (length rp.value); push rp.value

unfoldable pub decode_reason_phrase : Action ReasonPhrase
decode_reason_phrase = do
  len ← decode_varint
  ensure (leb len max_length) reason_too_long
  value ← split len reason_truncated
  pure (record { value = value })
