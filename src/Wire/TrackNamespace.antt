-- ===== src/Wire/TrackNamespace.antt =====
-- moqt-core/src/wire/track_namespace.rs: a namespace of 0 to 32 fields of at least one byte.
pub mod RoundTrip
pub mod Limits
use moqt_minimal.Prelude.{ℕ, zero, suc, List, [], ◌∷◌, length, is_empty, not, leb, ltb}
use moqt_minimal.Buffer.{Action, ◌>>=◌, ◌>>◌, pure, push, split, ensure}
use moqt_minimal.Buffer.{too_many_fields, empty_field, field_truncated}
use moqt_minimal.Wire.Varint.{encode_varint, decode_varint}

pub record TrackNamespace : Type 0 where
  pub fields : List (List ℕ)

abbrev pub max_fields : ℕ
max_fields = 32

-- `for field in &ns.fields`.
unfoldable pub encode_fields : List (List ℕ) → Action (Unit {0})
encode_fields [] = pure tt
encode_fields (field ∷ fields) = do
  ensure (not (is_empty field)) empty_field
  encode_varint (length field)
  push field
  encode_fields fields

unfoldable pub encode_track_namespace : TrackNamespace → Action (Unit {0})
encode_track_namespace ns = do
  ensure (leb (length ns.fields) max_fields) too_many_fields
  encode_varint (length ns.fields)
  encode_fields ns.fields

-- `for _ in 0..num_fields`.
unfoldable pub decode_fields : ℕ → Action (List (List ℕ))
decode_fields zero = pure []
decode_fields (suc n) = do
  field_len ← decode_varint
  ensure (ltb 0 field_len) empty_field
  field ← split field_len field_truncated
  fields ← decode_fields n
  pure (field ∷ fields)

unfoldable pub decode_track_namespace : Action TrackNamespace
decode_track_namespace = do
  num_fields ← decode_varint
  ensure (leb num_fields max_fields) too_many_fields
  fields ← decode_fields num_fields
  pure (record { fields = fields })
