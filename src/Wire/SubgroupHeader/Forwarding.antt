-- ===== src/Wire/SubgroupHeader/Forwarding.antt =====
-- A header that is decoded and encoded again, as the relay does for each subscriber.
use moqt_minimal.Prelude.{
  ℕ, ◌-◌, ◌<◌, ◌≡◌, refl, bit_and, true, not, ◌||◌, List, arith, ◌==◌, ==_iff, if◌then◌else◌,
}
use moqt_minimal.Prelude.Bits.{every_below, every_below-at}
use moqt_minimal.Buffer.{
  ok, Yields, Yields-bind, Yields-pure, Yields-any, Yields-if, Yields-ensure, >>=-eq-ok,
}
use moqt_minimal.Wire.SubgroupHeader.RoundTrip.{OptionAll}
use moqt_minimal.Wire.Varint.{decode_varint}
use moqt_minimal.Wire.Varint.Decode.{Yields-varint}
use moqt_minimal.Wire.SubgroupHeader.{
  SubgroupHeader, is_some, type_byte, type_of_flags, decode, subgroup_id_mode, is_valid_type,
  decode_subgroup_id, decode_priority,
}
use moqt_minimal.Prelude.{sym, IsU64}
use moqt_minimal.Buffer.{after}

-- The type byte built again from the flags of type `t`.
abbrev rebuilt : ℕ → ℕ
rebuilt t =
    type_of_flags (not (bit_and t 0x01 == 0)) (subgroup_id_mode t == 0x02)
      (not (bit_and t 0x08 == 0)) (not (bit_and t 0x20 == 0))

-- The type byte of mode 01 becomes that of mode 00, and every other one stays.
abbrev pub forwarded_type : ℕ → ℕ
forwarded_type t = if subgroup_id_mode t == 0x01 then t - 2 else t

rebuilt_table : every_below 64 (λ t. not (is_valid_type t) || rebuilt t == forwarded_type t) ≡ true
unfolding every_below is_valid_type type_of_flags
rebuilt_table = refl

valid_type_bound : (t : ℕ) → is_valid_type t ≡ true → t < 64
unfolding is_valid_type
valid_type_bound t h = ground arith

rebuilt-eq : (t : ℕ) → is_valid_type t ≡ true → rebuilt t ≡ forwarded_type t
rebuilt-eq t h =
    (==_iff _ _).0 (ground (arith, every_below-at 64 _ t rebuilt_table (valid_type_bound t h)))

Yields-id :
    (t : ℕ)
    → Yields
        (decode_subgroup_id t)
        (λ o. (is_some o ≡ (subgroup_id_mode t == 0x02)) × OptionAll IsU64 o)
unfolding decode_subgroup_id
Yields-id t =
    Yields-if (subgroup_id_mode t == 0x02) _ _
      (λ e. Yields-bind _ _ Yields-varint λ id h. Yields-pure _ (sym e, h))
      (λ e. Yields-pure _ (sym e, tt))

Yields-priority : (t : ℕ) → Yields (decode_priority t) (λ o. is_some o ≡ (bit_and t 0x20 == 0))
unfolding decode_priority
Yields-priority t =
    Yields-if (bit_and t 0x20 == 0) _ _
      (λ e. Yields-bind _ _ (Yields-any _) λ v _. Yields-pure _ (sym e))
      (λ e. Yields-pure _ (sym e))

-- What `decode` makes of a stream whose type is `t`.
pub record IsDecoded (t : ℕ) (h : SubgroupHeader) : Type 0 where
  pub valid : is_valid_type t ≡ true
  pub forwarded : type_byte h ≡ forwarded_type t
  pub track_alias : IsU64 h.track_alias
  pub group_id : IsU64 h.group_id
  pub subgroup_id : OptionAll IsU64 h.subgroup_id

-- A header that `decode` accepts has a valid type. Encoded again, as the relay does, it has the
-- same type, except that a type of SUBGROUP_ID_MODE 01 (the ID is the first object's) becomes the
-- type of mode 00 (the ID is 0).
pub decode-IsDecoded :
    (buf : List ℕ) {h : SubgroupHeader} {rest : List ℕ}
    → decode buf ≡ ok (h, rest)
    → (t : ℕ) × (mid : List ℕ) × (decode_varint buf ≡ ok (t, mid)) × IsDecoded t h
unfolding decode
decode-IsDecoded buf h =
    let (t, mid, d, h') = >>=-eq-ok decode_varint _ buf h in
    (
      t,
      mid,
      d,
      after {P = IsDecoded t} _ h' (
          Yields-bind _ _ (Yields-ensure _ _) λ _ valid. Yields-bind _ _ Yields-varint λ alias ha.
            Yields-bind _ _ Yields-varint λ group hg. Yields-bind _ _ (Yields-id t) λ id hid.
              Yields-bind _ _ (Yields-priority t) λ priority hp. Yields-pure _ (record {
                valid = valid;
                forwarded = unfold type_byte in rw (hid.0, hp) (rebuilt-eq t valid);
                track_alias = ha;
                group_id = hg;
                subgroup_id = hid.1;
              })),
    )
