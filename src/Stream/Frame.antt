-- ===== src/Stream/Frame.antt =====
-- moqt-core/src/stream/mod.rs: a varint and a message frame off a stream.
pub mod RoundTrip
use moqt_minimal.Prelude.{ℕ, ◌-◌, ltb, List, [], ◌∷◌, ◌++◌, if◌then◌else◌}
use moqt_minimal.Wire.Varint.{varint_byte_length, decode_varint}
use moqt_minimal.Wire.Message.{from_be_bytes}
use moqt_minimal.Stream.Transport.{Transport, Reader, ◌>>=◌, pure, lift, decoded}

-- `first[0]`, where `first` has one byte.
abbrev pub first_byte : List ℕ → ℕ
first_byte [] = 0
first_byte (b ∷ bs) = b

module _ {R : Type 0} (t : Transport R) where
  -- `vec![0; n]`, and `read_exact` unless it is empty.
  unfoldable pub read_bytes : ℕ → Reader R (List ℕ)
  read_bytes n = if ltb 0 n then t.read_exact n else pure []

  unfoldable pub read_varint : Reader R (ℕ × List ℕ)
  read_varint = do
    first ← t.read_exact 1
    total_len ← lift (varint_byte_length (first_byte first))
    more ← read_bytes (total_len - 1)
    value ← decoded (first ++ more) decode_varint
    pure (value, first ++ more)

  unfoldable pub read_message_frame : Reader R (List ℕ)
  read_message_frame = do
    (type_val, type_bytes) ← read_varint
    len_bytes ← t.read_exact 2
    payload ← read_bytes (from_be_bytes len_bytes)
    pure (type_bytes ++ (len_bytes ++ payload))
