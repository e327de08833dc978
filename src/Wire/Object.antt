-- ===== src/Wire/Object.antt =====
-- moqt-core/src/wire/object.rs: object headers, and object IDs from deltas.
pub mod RoundTrip
pub mod Ids
use moqt_minimal.Prelude.{ℕ, ◌+◌, ◌%◌, ◌^◌, Bool, Option, none, some, if◌then◌else◌}
use moqt_minimal.Buffer.{Action, ◌>>=◌, ◌>>◌, pure, split, object_properties_truncated}
use moqt_minimal.Wire.Varint.{encode_varint, decode_varint}

pub record ObjectHeader : Type 0 where
  pub object_id_delta : ℕ
  pub payload_length : ℕ

unfoldable pub encode : ObjectHeader → Action (Unit {0})
encode h = do encode_varint h.object_id_delta; encode_varint h.payload_length

-- The properties are skipped.
unfoldable pub skip_properties : Bool → Action (Unit {0})
skip_properties has_properties =
    if has_properties
    then (do
      props_len ← decode_varint
      props ← split props_len object_properties_truncated
      pure tt)
    else pure tt

unfoldable pub decode : Bool → Action ObjectHeader
decode has_properties = do
  object_id_delta ← decode_varint
  payload_length ← decode_varint
  skip_properties has_properties
  pure (record { object_id_delta = object_id_delta; payload_length = payload_length })

-- `prev + delta + 1` on u64, as a release build adds: modulo 2^64.
unfoldable pub resolve_object_id : Option ℕ → ℕ → ℕ
resolve_object_id none delta = delta
resolve_object_id (some prev) delta = (prev + delta + 1) % 2 ^ 64
