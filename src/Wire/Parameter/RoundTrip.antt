-- ===== src/Wire/Parameter/RoundTrip.antt =====
-- Parameters: the two directions of moqt-core/src/wire/parameter.rs.
use moqt_minimal.Prelude.{ℕ, ◌-◌, ◌≤◌, ◌≡◌, refl, List, [], ◌∷◌, ◌++◌, length, arith, IsU64}
use moqt_minimal.Buffer.{
  Writes, Writes-bind, Writes-push, Writes-ensure, Writes-pure, Writes-collect,
}
use moqt_minimal.Buffer.{
  Reads-checked_add, Reads, Reads-bind, Reads-last, Reads-pure, Reads-next_byte, Reads-on_slice,
  Reads-exact,
}
use moqt_minimal.Buffer.{Reads-split_at, Reads-eq, RoundTrips, ok, ◌>>=◌}
use moqt_minimal.Wire.Varint.{varint_bytes, decode_varint}
use moqt_minimal.Wire.Varint.RoundTrip.{Reads-varint, Writes-varint}
use moqt_minimal.Wire.Parameter.{MessageParameter, subscription_filter, largest_object, forward}
use moqt_minimal.Wire.Parameter.{
  SubscriptionFilter, next_group_start, from_largest_object, absolute_start, absolute_range,
}
use moqt_minimal.Wire.Parameter.{
  param_type_id, encode_filter, encode_value, encode_from, encode_parameters,
}
use moqt_minimal.Wire.Parameter.{decode_filter, decode_value, decode_from, decode_parameters}
use moqt_minimal.Wire.Parameter.{decode_filter_value, decode_largest_object, decode_forward}
use moqt_minimal.Wire.Parameter.{decode_filter_value, decode_largest_object, decode_forward}
use moqt_minimal.Prelude.{some, All, append-nil, ap, sym}

-- A filter that this implementation encodes.
abbrev pub IsOriginated : SubscriptionFilter → Type 0
IsOriginated next_group_start = Unit
IsOriginated from_largest_object = ⊥
IsOriginated (absolute_start group object) = ⊥
IsOriginated (absolute_range group object end_group_delta) = ⊥

abbrev pub IsEncodable : MessageParameter → Type 0
IsEncodable (subscription_filter f) = IsOriginated f
IsEncodable (largest_object group object) = IsU64 group × IsU64 object
IsEncodable (forward v) = Unit

-- Types that do not fall, from `prev` on.
abbrev pub Ascending : ℕ → List MessageParameter → Type 0
Ascending prev [] = Unit
Ascending prev (p ∷ ps) = (prev ≤ param_type_id p) × Ascending (param_type_id p) ps

abbrev value_bytes : MessageParameter → List ℕ
value_bytes (subscription_filter f) = varint_bytes 1 ++ varint_bytes 1
value_bytes (largest_object group object) = varint_bytes group ++ varint_bytes object
value_bytes (forward v) = v ∷ []

abbrev list_bytes : ℕ → List MessageParameter → List ℕ
list_bytes prev [] = []
list_bytes prev (p ∷ ps) =
    varint_bytes (param_type_id p - prev) ++ (value_bytes p ++ list_bytes (param_type_id p) ps)

abbrev pub parameters_bytes : List MessageParameter → List ℕ
parameters_bytes ps = varint_bytes (length ps) ++ list_bytes 0 ps

one_byte_filter : length (varint_bytes 1) ≡ 1
unfolding varint_bytes
one_byte_filter = refl

Writes-value : (p : MessageParameter) → IsEncodable p → Writes (encode_value p) (value_bytes p)
unfolding encode_value encode_filter
Writes-value (subscription_filter next_group_start) h =
    Writes-collect _ _ (Writes-varint 1)
      (Writes-bind (rw one_byte_filter (Writes-varint 1)) (Writes-push _))
Writes-value (subscription_filter from_largest_object) h = absurd h
Writes-value (subscription_filter (absolute_start group object)) h = absurd h
Writes-value (subscription_filter (absolute_range group object end_group_delta)) h = absurd h
Writes-value (largest_object group object) h =
    Writes-bind (Writes-varint group) (Writes-varint object)
Writes-value (forward v) h = Writes-push _

next_group_filter :
    (do filter_type ← decode_varint; decode_filter filter_type) (varint_bytes 1)
    ≡ ok (next_group_start, [])
unfolding decode_filter
next_group_filter = Reads-exact _ _ (
    Reads-eq (append-nil (varint_bytes 1))
      (Reads-bind _ _ (Reads-varint 1 (omega arith)) (Reads-pure next_group_start)))

Reads-value :
    (p : MessageParameter)
    → IsEncodable p
    → Reads (decode_value (param_type_id p)) (some p) (value_bytes p)
unfolding decode_value param_type_id decode_filter_value decode_largest_object decode_forward
Reads-value (subscription_filter next_group_start) h =
    Reads-eq (ap (λ (t : List ℕ). varint_bytes 1 ++ t) (append-nil (varint_bytes 1))) (
      Reads-bind _ _ (Reads-varint 1 (omega arith)) (
        Reads-bind _ _ (Reads-split_at 1 (varint_bytes 1) _ (sym one_byte_filter))
          (Reads-last _ _ (Reads-on_slice _ _ [] next_group_filter))))
Reads-value (subscription_filter from_largest_object) h = absurd h
Reads-value (subscription_filter (absolute_start group object)) h = absurd h
Reads-value (subscription_filter (absolute_range group object end_group_delta)) h = absurd h
Reads-value (largest_object group object) h =
    Reads-bind _ _ (Reads-varint group h.0) (Reads-last _ _ (Reads-varint object h.1))
Reads-value (forward v) h = Reads-last _ _ (Reads-next_byte v _)

pub type_id_bound : (p : MessageParameter) → IsU64 (param_type_id p)
unfolding param_type_id
type_id_bound (subscription_filter f) = omega arith
type_id_bound (largest_object group object) = omega arith
type_id_bound (forward v) = omega arith

Writes-from :
    (prev : ℕ) (ps : List MessageParameter)
    → Ascending prev ps
    → All IsEncodable ps
    → Writes (encode_from prev ps) (list_bytes prev ps)
unfolding encode_from
Writes-from prev [] ha he = Writes-pure
Writes-from prev (p ∷ ps) (le, ha) (hp, he) = Writes-bind (Writes-ensure _ _ (ground arith)) (
    Writes-bind (Writes-varint _)
      (Writes-bind (Writes-value p hp) (Writes-from (param_type_id p) ps ha he)))

Reads-from :
    (prev : ℕ) (ps : List MessageParameter)
    → Ascending prev ps
    → All IsEncodable ps
    → Reads (decode_from (length ps) prev) ps (list_bytes prev ps)
unfolding decode_from
Reads-from prev [] ha he = Reads-pure []
Reads-from prev (p ∷ ps) (le, ha) (hp, he) =
    Reads-bind _ _ (Reads-varint (param_type_id p - prev) (omega (arith, type_id_bound p))) (
      Reads-bind _ _ (Reads-checked_add prev (param_type_id p) le (type_id_bound p)) (
        Reads-bind _ _ (Reads-value p hp) (Reads-last _ _ (Reads-from (param_type_id p) ps ha he))))

-- What a message can carry: fewer than 2^64 parameters, in ascending order, of an encodable form.
abbrev pub AreEncodable : List MessageParameter → Type 0
AreEncodable ps = IsU64 (length ps) × Ascending 0 ps × All IsEncodable ps

pub Writes-parameters :
    (ps : List MessageParameter)
    → AreEncodable ps
    → Writes (encode_parameters ps) (parameters_bytes ps)
unfolding encode_parameters
Writes-parameters ps h = Writes-bind (Writes-varint _) (Writes-from 0 ps h.1 h.2)

pub Reads-parameters :
    (ps : List MessageParameter)
    → AreEncodable ps
    → Reads decode_parameters ps (parameters_bytes ps)
unfolding decode_parameters
Reads-parameters ps h = Reads-bind _ _ (Reads-varint (length ps) h.0) (Reads-from 0 ps h.1 h.2)

-- Parameters whose types do not fall, with NextGroupStart as the only filter, are read back as
-- they were written.
pub parameters_round_trip :
    (ps : List MessageParameter)
    → AreEncodable ps
    → RoundTrips (encode_parameters ps) decode_parameters ps
parameters_round_trip ps h = (parameters_bytes ps, Writes-parameters ps h, Reads-parameters ps h)
