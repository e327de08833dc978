-- ===== src/Stream/Data.antt =====
-- moqt-core/src/stream/data.rs: a subgroup header and objects on a data stream.
pub mod Objects
pub mod Header
pub mod Ending
use moqt_minimal.Prelude.{
  ℕ, ◌/◌, bit_and, Bool, true, false, Option, none, some, List, [], ◌++◌, ◌==◌, if◌then◌else◌,
}
use moqt_minimal.Buffer.{Error, Result, ok, err, Action, ◌>>◌, stream_finished}
use moqt_minimal.Wire.SubgroupHeader
use moqt_minimal.Wire.SubgroupHeader.{SubgroupHeader, subgroup_id_mode}
use moqt_minimal.Wire.Object
use moqt_minimal.Wire.Object.{ObjectHeader}
use moqt_minimal.Buffer
use moqt_minimal.Stream.Transport.{Transport, Reader, ◌>>=◌, pure, decoded}
use moqt_minimal.Stream.Frame.{read_bytes, read_varint}

pub record DataStreamReader (R : Type 0) : Type 0 where
  pub stream : R
  pub has_properties : Bool

-- An object as `read_object` returns it: header, payload and the header's bytes.
abbrev pub RawObject : Type 0
RawObject = ObjectHeader × List ℕ × List ℕ

-- `e.downcast_ref::<ReadExactError>().is_some()`.
abbrev pub is_read_exact_error : Error → Bool
is_read_exact_error stream_finished = true
is_read_exact_error _ = false

module _ {R : Type 0} where
  unfoldable pub new : R → DataStreamReader R
  new stream = record { stream = stream; has_properties = false }

module _ {R : Type 0} (t : Transport R) where
  unfoldable pub read_subgroup_id : ℕ → Reader R (List ℕ)
  read_subgroup_id stream_type =
      if subgroup_id_mode stream_type == 0x02
      then (do (id, subgroup_bytes) ← read_varint t; pure subgroup_bytes)
      else pure []

  unfoldable pub read_priority : ℕ → Reader R (List ℕ)
  read_priority stream_type = if bit_and stream_type 0x20 == 0 then t.read_exact 1 else pure []

  unfoldable pub read_header : Reader R (SubgroupHeader × List ℕ)
  read_header = do
    (stream_type, type_bytes) ← read_varint t
    (track_alias, alias_bytes) ← read_varint t
    (group_id, group_bytes) ← read_varint t
    subgroup_bytes ← read_subgroup_id stream_type
    priority ← read_priority stream_type
    let raw = type_bytes ++ (alias_bytes ++ (group_bytes ++ (subgroup_bytes ++ priority)))
    header ← decoded raw SubgroupHeader.decode
    pure (header, raw)

  abbrev pub header_read :
      Result ((SubgroupHeader × List ℕ) × R)
      → Result ((SubgroupHeader × List ℕ) × DataStreamReader R)
  header_read (ok ((header, raw), r)) =
      ok ((header, raw), record { stream = r; has_properties = header.has_properties })
  header_read (err e) = err e

  unfoldable pub read_subgroup_header :
      DataStreamReader R → Result ((SubgroupHeader × List ℕ) × DataStreamReader R)
  read_subgroup_header reader = header_read (read_header reader.stream)

  -- The length of the properties and the properties, as they stand on the stream.
  unfoldable pub read_properties : Bool → Reader R (List ℕ)
  read_properties has_properties =
      if has_properties
      then (do
        (props_len, props_len_bytes) ← read_varint t
        props ← read_bytes t props_len
        pure (props_len_bytes ++ props))
      else pure []

  -- After `object_id_delta`.
  unfoldable pub read_rest : Bool → ℕ → List ℕ → Reader R RawObject
  read_rest has_properties object_id_delta delta_bytes = do
    (payload_length, len_bytes) ← read_varint t
    props_bytes ← read_properties has_properties
    payload ← read_bytes t payload_length
    pure (
      record { object_id_delta = object_id_delta; payload_length = payload_length },
      payload,
      delta_bytes ++ (len_bytes ++ props_bytes),
    )

  abbrev pub object_read :
      Bool → Result (RawObject × R) → Result (Option RawObject × DataStreamReader R)
  object_read has_properties (ok (object, r)) =
      ok (some object, record { stream = r; has_properties = has_properties })
  object_read has_properties (err e) = err e

  -- The stream of a reader that has returned None is not read again.
  abbrev pub after_delta :
      DataStreamReader R
      → Result ((ℕ × List ℕ) × R)
      → Result (Option RawObject × DataStreamReader R)
  after_delta reader (ok ((delta, delta_bytes), r)) =
      object_read reader.has_properties (read_rest reader.has_properties delta delta_bytes r)
  after_delta reader (err e) = if is_read_exact_error e then ok (none, reader) else err e

  unfoldable pub read_object : DataStreamReader R → Result (Option RawObject × DataStreamReader R)
  read_object reader = after_delta reader (read_varint t reader.stream)

-- What `write_subgroup_header` and `write_object` hand to the stream.
unfoldable pub encode_object : ObjectHeader → List ℕ → Action (Unit {0})
encode_object header payload = Object.encode header >> Buffer.push payload
