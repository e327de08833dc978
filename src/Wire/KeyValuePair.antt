-- ===== src/Wire/KeyValuePair.antt =====
-- moqt-core/src/wire/key_value_pair.rs: pairs in ascending order of type, delta-encoded.
pub mod RoundTrip
pub mod Decode
use moqt_minimal.Prelude.{ℕ, zero, suc, ◌-◌, ◌%◌, List, [], ◌∷◌, length}
use moqt_minimal.Prelude.{◌||◌, leb, ◌==◌, if◌then◌else◌}
use moqt_minimal.Buffer.{ok, err, Action, ◌>>=◌, ◌>>◌, pure, fail, push, split, ensure, checked_add}
use moqt_minimal.Buffer.{not_ascending, odd_type_with_varint, even_type_with_bytes}
use moqt_minimal.Buffer.{value_too_long, value_truncated, out_of_fuel}
use moqt_minimal.Wire.Varint.{encode_varint, decode_varint}

abbrev pub max_value_length : ℕ
max_value_length = 65535

pub data KvValue : Type 0 where
  varint : ℕ → KvValue
  bytes : List ℕ → KvValue

pub record KeyValuePair : Type 0 where
  pub type_id : ℕ
  pub value : KvValue

-- `match (&pair.value, pair.type_id % 2)`.
unfoldable pub check_parity : KvValue → ℕ → Action (Unit {0})
check_parity (varint v) parity = if parity == 1 then fail odd_type_with_varint else pure tt
check_parity (bytes bs) parity = if parity == 0 then fail even_type_with_bytes else pure tt

unfoldable pub encode_kv_value : KvValue → Action (Unit {0})
encode_kv_value (varint v) = encode_varint v
encode_kv_value (bytes bs) = do encode_varint (length bs); push bs

-- The loop of `encode_key_value_pairs`.
unfoldable pub encode_pairs_from : ℕ → List KeyValuePair → Action (Unit {0})
encode_pairs_from prev_type [] = pure tt
encode_pairs_from prev_type (pair ∷ pairs) = do
  ensure (leb prev_type pair.type_id || prev_type == 0) not_ascending
  check_parity pair.value (pair.type_id % 2)
  encode_varint (pair.type_id - prev_type)
  encode_kv_value pair.value
  encode_pairs_from pair.type_id pairs

unfoldable pub encode_key_value_pairs : List KeyValuePair → Action (Unit {0})
encode_key_value_pairs pairs = encode_pairs_from 0 pairs

unfoldable pub decode_bytes_value : Action KvValue
decode_bytes_value = do
  len ← decode_varint
  ensure (leb len max_value_length) value_too_long
  bs ← split len value_truncated
  pure (bytes bs)

-- The value of a pair, by the parity of its type.
unfoldable pub decode_kv_value : ℕ → Action KvValue
decode_kv_value type_id =
    if type_id % 2 == 0 then (do v ← decode_varint; pure (varint v)) else decode_bytes_value

-- The body of the loop of `decode_key_value_pairs`.
unfoldable pub decode_pair : ℕ → Action KeyValuePair
decode_pair prev_type = do
  delta ← decode_varint
  type_id ← checked_add prev_type delta
  value ← decode_kv_value type_id
  pure (record { type_id = type_id; value = value })

-- `while !buf.is_empty()`: each round takes at least one byte.
unfoldable pub decode_pairs_from : ℕ → ℕ → Action (List KeyValuePair)
decode_pairs_from fuel prev_type [] = ok ([], [])
decode_pairs_from zero prev_type (b ∷ buf) = err out_of_fuel
decode_pairs_from (suc fuel) prev_type (b ∷ buf) =
    (do
      pair ← decode_pair prev_type
      pairs ← decode_pairs_from fuel pair.type_id
      pure (pair ∷ pairs))
      (b ∷ buf)

unfoldable pub decode_key_value_pairs : Action (List KeyValuePair)
decode_key_value_pairs buf = decode_pairs_from (length buf) 0 buf
