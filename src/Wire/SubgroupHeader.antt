-- ===== src/Wire/SubgroupHeader.antt =====
-- moqt-core/src/wire/subgroup_header.rs: the header of a data stream.
pub mod Types
pub mod RoundTrip
pub mod Forwarding
use moqt_minimal.Prelude.{ℕ, ◌/◌, bit_and, bit_or, Bool, true, false, not, ◌&&◌, ◌||◌}
use moqt_minimal.Prelude.{Option, none, some, List, [], ◌∷◌, leb, ◌==◌, if◌then◌else◌}
use moqt_minimal.Buffer.{Action, ◌>>=◌, ◌>>◌, pure, push, ensure, next_byte}
use moqt_minimal.Buffer.{invalid_header_type, publisher_priority_truncated}
use moqt_minimal.Wire.Varint.{encode_varint, decode_varint}

pub record SubgroupHeader : Type 0 where
  pub track_alias : ℕ
  pub group_id : ℕ
  pub has_properties : Bool
  pub end_of_group : Bool
  pub subgroup_id : Option ℕ
  pub publisher_priority : Option ℕ

abbrev pub is_some : Option ℕ → Bool
is_some none = false
is_some (some x) = true

-- `type_byte |= …`, bit by bit.
unfoldable pub type_of_flags : (properties explicit_id end_of_group default_priority : Bool) → ℕ
type_of_flags properties explicit_id end_of_group default_priority =
    let t : ℕ = 0x10 in
    let t = if properties then bit_or t 0x01 else t in
    let t = if explicit_id then bit_or t 0x04 else t in
    let t = if end_of_group then bit_or t 0x08 else t in
    if default_priority then bit_or t 0x20 else t

unfoldable pub type_byte : SubgroupHeader → ℕ
type_byte h =
    type_of_flags h.has_properties (is_some h.subgroup_id) h.end_of_group
      (not (is_some h.publisher_priority))

unfoldable pub encode_subgroup_id : Option ℕ → Action (Unit {0})
encode_subgroup_id none = pure tt
encode_subgroup_id (some id) = encode_varint id

unfoldable pub encode_priority : Option ℕ → Action (Unit {0})
encode_priority none = pure tt
encode_priority (some priority) = push (priority ∷ [])

unfoldable pub encode : SubgroupHeader → Action (Unit {0})
encode h = do
  encode_varint (type_byte h)
  encode_varint h.track_alias
  encode_varint h.group_id
  encode_subgroup_id h.subgroup_id
  encode_priority h.publisher_priority

-- `0x10..=0x15 | 0x18..=0x1D | 0x30..=0x35 | 0x38..=0x3D`.
unfoldable pub is_valid_type : ℕ → Bool
is_valid_type t =
    (leb 0x10 t && leb t 0x15)
    || (leb 0x18 t && leb t 0x1d)
    || (leb 0x30 t && leb t 0x35)
    || (leb 0x38 t && leb t 0x3d)

-- `(stream_type >> 1) & 0x03`.
abbrev pub subgroup_id_mode : ℕ → ℕ
subgroup_id_mode t = bit_and (t / 2) 0x03

unfoldable pub decode_subgroup_id : ℕ → Action (Option ℕ)
decode_subgroup_id t =
    if subgroup_id_mode t == 0x02 then (do id ← decode_varint; pure (some id)) else pure none

unfoldable pub decode_priority : ℕ → Action (Option ℕ)
decode_priority t =
    if bit_and t 0x20 == 0
    then (do v ← next_byte publisher_priority_truncated; pure (some v))
    else pure none

unfoldable pub decode : Action SubgroupHeader
decode = do
  stream_type ← decode_varint
  ensure (is_valid_type stream_type) invalid_header_type
  track_alias ← decode_varint
  group_id ← decode_varint
  subgroup_id ← decode_subgroup_id stream_type
  publisher_priority ← decode_priority stream_type
  pure (record {
    track_alias = track_alias;
    group_id = group_id;
    has_properties = not (bit_and stream_type 0x01 == 0);
    end_of_group = not (bit_and stream_type 0x08 == 0);
    subgroup_id = subgroup_id;
    publisher_priority = publisher_priority;
  })
