-- ===== src/Wire/Parameter/Order.antt =====
-- `decode_parameters` on any input: the types and values of its result.
use moqt_minimal.Prelude.{
  ◌==◌, ℕ, zero, suc, ◌≤◌, ◌≡◌, refl, List, [], ◌∷◌, length, arith, IsU64, All, Option, none, some,
}
use moqt_minimal.Buffer.{
  Yields-checked_add, Yields, Yields-pure, Yields-bind, Yields-any, Yields-if, Yields-fail,
}
use moqt_minimal.Buffer.{Error}
use moqt_minimal.Wire.Varint.Decode.{Yields-varint}
use moqt_minimal.Wire.Parameter.{MessageParameter, subscription_filter, largest_object, forward}
use moqt_minimal.Wire.Parameter.{param_type_id, decode_value, decode_from, decode_parameters}
use moqt_minimal.Wire.Parameter.{
  decode_filter_value, decode_largest_object, decode_forward, skip_varint, skip_token, skip_byte,
}
use moqt_minimal.Wire.Parameter.RoundTrip.{Ascending}
use moqt_minimal.Prelude.{==_iff}

-- The numbers of a parameter fit a u64.
abbrev pub InRange : MessageParameter → Type 0
InRange (subscription_filter f) = Unit
InRange (largest_object group object) = IsU64 group × IsU64 object
InRange (forward v) = Unit

-- What is found under type `t`, if it is kept.
abbrev Found : ℕ → Option MessageParameter → Type 0
Found t none = Unit
Found t (some p) = (param_type_id p ≡ t) × InRange p

Found-filter : Yields decode_filter_value (Found 0x21)
unfolding decode_filter_value param_type_id
Found-filter = Yields-bind _ _ (Yields-any _) λ len _.
    Yields-bind _ _ (Yields-any _)
      λ payload _. Yields-bind _ _ (Yields-any _) λ filter _. Yields-pure _ (refl, tt)

Found-largest : Yields decode_largest_object (Found 0x09)
unfolding decode_largest_object param_type_id
Found-largest =
    Yields-bind _ _ Yields-varint
      λ group hg. Yields-bind _ _ Yields-varint λ object ho. Yields-pure _ (refl, (hg, ho))

Found-forward : Yields decode_forward (Found 0x10)
unfolding decode_forward param_type_id
Found-forward = Yields-bind _ _ (Yields-any _) λ v _. Yields-pure _ (refl, tt)

module _ (t : ℕ) where
  Found-varint : Yields skip_varint (Found t)
  unfolding skip_varint
  Found-varint = Yields-bind _ _ (Yields-any _) λ value _. Yields-pure _ tt

  Found-token : Yields skip_token (Found t)
  unfolding skip_token
  Found-token =
      Yields-bind _ _ (Yields-any _)
        λ len _. Yields-bind _ _ (Yields-any _) λ token _. Yields-pure _ tt

  Found-byte : (e : Error) → Yields (skip_byte e) (Found t)
  unfolding skip_byte
  Found-byte e = Yields-bind _ _ (Yields-any _) λ value _. Yields-pure _ tt

  Found-value : Yields (decode_value t) (Found t)
  unfolding decode_value
  Found-value =
      Yields-if (t == 0x21) _ _ (λ e. rw ((==_iff t 0x21).0 e) Found-filter)
        λ _.
          Yields-if (t == 0x09) _ _ (λ e. rw ((==_iff t 0x09).0 e) Found-largest)
            λ _.
              Yields-if (t == 0x10) _ _ (λ e. rw ((==_iff t 0x10).0 e) Found-forward)
                λ _.
                  Yields-if (t == 0x02) _ _ (λ _. Found-varint)
                    λ _.
                      Yields-if (t == 0x03) _ _ (λ _. Found-token)
                        λ _.
                          Yields-if (t == 0x04) _ _ (λ _. Found-varint)
                            λ _.
                              Yields-if (t == 0x08) _ _ (λ _. Found-varint)
                                λ _.
                                  Yields-if (t == 0x20) _ _ (λ _. Found-byte _)
                                    λ _.
                                      Yields-if (t == 0x22) _ _ (λ _. Found-byte _)
                                        λ _.
                                          Yields-if (t == 0x32) _ _ (λ _. Found-varint)
                                            λ _. Yields-fail _

abbrev Decoded : ℕ → ℕ → List MessageParameter → Type 0
Decoded n prev ps = (length ps ≤ n) × Ascending prev ps × All InRange ps

Ascending-weaken :
    {prev t : ℕ} (ps : List MessageParameter) → prev ≤ t → Ascending t ps → Ascending prev ps
Ascending-weaken [] le h = tt
Ascending-weaken (p ∷ ps) le h = (omega arith, h.1)

Decoded-cons :
    {n prev : ℕ} (t : ℕ) (p : MessageParameter) (ps : List MessageParameter)
    → prev ≤ t
    → Found t (some p)
    → Decoded n t ps
    → Decoded (suc n) prev (p ∷ ps)
Decoded-cons {prev = prev} t p ps le (e, r) (count, asc, ranges) =
    (omega arith, (rw e le, rw e asc), (r, ranges))

Yields-from : (n prev : ℕ) → Yields (decode_from n prev) (Decoded n prev)
unfolding decode_from
Yields-from zero prev = Yields-pure _ (omega arith, tt, tt)
Yields-from (suc n) prev = Yields-bind _ _ (Yields-any _) λ delta _.
    Yields-bind _ _ (Yields-checked_add prev delta) λ t ht. Yields-bind _ _ (Found-value t) (elim [
      | none ↦ λ _. record {
        at = λ buf ps out h.
            let (count, asc, ranges) = (Yields-from n prev).at buf ps out h in
            (omega arith, asc, ranges);
      }
      | some p ↦ λ found.
          Yields-bind _ _ (Yields-from n t)
            λ ps hps. Yields-pure _ (Decoded-cons t p ps ht.0 found hps)
    ])

-- The parameters that `decode_parameters` accepts are in ascending order of type, and every number
-- in them is a u64.
pub decoded_parameters :
    Yields decode_parameters (λ ps. IsU64 (length ps) × Ascending 0 ps × All InRange ps)
unfolding decode_parameters
decoded_parameters = Yields-bind _ _ Yields-varint λ count hc. record {
  at = λ buf ps out h.
      let (few, asc, ranges) = (Yields-from count 0).at buf ps out h in (omega arith, asc, ranges);
}
