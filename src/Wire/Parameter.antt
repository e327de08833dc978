-- ===== src/Wire/Parameter.antt =====
-- moqt-core/src/wire/parameter.rs: message parameters, delta-encoded by type.
pub mod RoundTrip
pub mod Order
pub mod Skipped
use moqt_minimal.Prelude.{ℕ, zero, suc, ◌+◌, ◌-◌, ◌^◌, Option, none, some, List, [], ◌∷◌, length}
use moqt_minimal.Prelude.{◌||◌, leb, ltb, ◌==◌, if◌then◌else◌}
use moqt_minimal.Buffer.{
  Error, Action, ◌>>=◌, ◌>>◌, pure, fail, push, split, ensure, collect, on_slice,
}
use moqt_minimal.Buffer.{next_byte, not_ascending, unsupported_filter, type_overflow}
use moqt_minimal.Buffer.{filter_truncated, unknown_filter, forward_truncated, token_truncated}
use moqt_minimal.Buffer.{subscriber_priority_truncated, group_order_truncated, unknown_parameter}
use moqt_minimal.Wire.Varint.{encode_varint, decode_varint}
use moqt_minimal.Buffer.{checked_add}

abbrev pub param_delivery_timeout : ℕ
param_delivery_timeout = 0x02

abbrev pub param_authorization_token : ℕ
param_authorization_token = 0x03

abbrev pub param_rendezvous_timeout : ℕ
param_rendezvous_timeout = 0x04

abbrev pub param_expires : ℕ
param_expires = 0x08

abbrev pub param_largest_object : ℕ
param_largest_object = 0x09

abbrev pub param_forward : ℕ
param_forward = 0x10

abbrev pub param_subscriber_priority : ℕ
param_subscriber_priority = 0x20

abbrev pub param_subscription_filter : ℕ
param_subscription_filter = 0x21

abbrev pub param_group_order : ℕ
param_group_order = 0x22

abbrev pub param_new_group_request : ℕ
param_new_group_request = 0x32

pub data SubscriptionFilter : Type 0 where
  next_group_start : SubscriptionFilter
  from_largest_object : SubscriptionFilter
  absolute_start : (group object : ℕ) → SubscriptionFilter
  absolute_range : (group object end_group_delta : ℕ) → SubscriptionFilter

pub data MessageParameter : Type 0 where
  subscription_filter : SubscriptionFilter → MessageParameter
  largest_object : (group object : ℕ) → MessageParameter
  forward : ℕ → MessageParameter

unfoldable pub param_type_id : MessageParameter → ℕ
param_type_id (largest_object group object) = param_largest_object
param_type_id (forward v) = param_forward
param_type_id (subscription_filter f) = param_subscription_filter

-- The `match param` of `encode_parameters`; only NextGroupStart is encoded.
unfoldable pub encode_filter : SubscriptionFilter → Action (Unit {0})
encode_filter next_group_start = encode_varint 0x1
encode_filter from_largest_object = fail unsupported_filter
encode_filter (absolute_start group object) = fail unsupported_filter
encode_filter (absolute_range group object end_group_delta) = fail unsupported_filter

unfoldable pub encode_value : MessageParameter → Action (Unit {0})
encode_value (subscription_filter f) = do
  filter_payload ← collect (encode_filter f)
  encode_varint (length filter_payload)
  push filter_payload
encode_value (largest_object group object) = do encode_varint group; encode_varint object
encode_value (forward v) = push (v ∷ [])

-- The loop of `encode_parameters`.
unfoldable pub encode_from : ℕ → List MessageParameter → Action (Unit {0})
encode_from prev_type [] = pure tt
encode_from prev_type (param ∷ params) = do
  ensure (leb prev_type (param_type_id param) || prev_type == 0) not_ascending
  encode_varint (param_type_id param - prev_type)
  encode_value param
  encode_from (param_type_id param) params

unfoldable pub encode_parameters : List MessageParameter → Action (Unit {0})
encode_parameters params = do encode_varint (length params); encode_from 0 params

-- The `match filter_type`, on the filter's own slice.
unfoldable pub decode_filter : ℕ → Action SubscriptionFilter
decode_filter filter_type =
    if filter_type == 0x1
    then pure next_group_start
    else if filter_type == 0x2
    then pure from_largest_object
    else if filter_type == 0x3
    then (do group ← decode_varint; object ← decode_varint; pure (absolute_start group object))
    else if filter_type == 0x4
    then (do
      group ← decode_varint
      object ← decode_varint
      end_group_delta ← decode_varint
      pure (absolute_range group object end_group_delta))
    else fail unknown_filter

unfoldable pub decode_filter_value : Action (Option MessageParameter)
decode_filter_value = do
  len ← decode_varint
  filter_payload ← split len filter_truncated
  filter ← on_slice filter_payload (do filter_type ← decode_varint; decode_filter filter_type)
  pure (some (subscription_filter filter))

unfoldable pub decode_largest_object : Action (Option MessageParameter)
decode_largest_object = do
  group ← decode_varint
  object ← decode_varint
  pure (some (largest_object group object))

unfoldable pub decode_forward : Action (Option MessageParameter)
decode_forward = do v ← next_byte forward_truncated; pure (some (forward v))

-- A parameter that is read and dropped: a varint, a length-prefixed string, or one byte.
unfoldable pub skip_varint : Action (Option MessageParameter)
skip_varint = do value ← decode_varint; pure none

unfoldable pub skip_token : Action (Option MessageParameter)
skip_token = do len ← decode_varint; token ← split len token_truncated; pure none

unfoldable pub skip_byte : Error → Action (Option MessageParameter)
skip_byte truncated = do value ← next_byte truncated; pure none

-- The `match type_id` of `decode_parameters`; `none` where the code says `continue`.
unfoldable pub decode_value : ℕ → Action (Option MessageParameter)
decode_value type_id =
    if type_id == param_subscription_filter
    then decode_filter_value
    else if type_id == param_largest_object
    then decode_largest_object
    else if type_id == param_forward
    then decode_forward
    else if type_id == param_delivery_timeout
    then skip_varint
    else if type_id == param_authorization_token
    then skip_token
    else if type_id == param_rendezvous_timeout
    then skip_varint
    else if type_id == param_expires
    then skip_varint
    else if type_id == param_subscriber_priority
    then skip_byte subscriber_priority_truncated
    else if type_id == param_group_order
    then skip_byte group_order_truncated
    else if type_id == param_new_group_request
    then skip_varint
    else fail unknown_parameter

-- The loop of `decode_parameters`; `continue` leaves `prev_type` as it was.
unfoldable pub decode_from : ℕ → ℕ → Action (List MessageParameter)
decode_from zero prev_type = pure []
decode_from (suc n) prev_type = do
  delta ← decode_varint
  type_id ← checked_add prev_type delta
  found ← decode_value type_id
  elim found [
    | none ↦ decode_from n prev_type
    | some param ↦ do params ← decode_from n type_id; pure (param ∷ params)
  ]

unfoldable pub decode_parameters : Action (List MessageParameter)
decode_parameters = do count ← decode_varint; decode_from count 0
