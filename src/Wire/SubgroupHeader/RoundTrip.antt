-- ===== src/Wire/SubgroupHeader/RoundTrip.antt =====
-- Subgroup headers: the two directions of moqt-core/src/wire/subgroup_header.rs.
use moqt_minimal.Prelude.{
  ℕ, ◌≡◌, not, Option, none, some, List, [], ◌∷◌, ◌++◌, IsU64, IsByte, arith, ◌==◌, bit_and,
}
use mathlib.Core.Path.{subst}
use moqt_minimal.Buffer.{Writes, Writes-bind, Writes-push, Writes-pure, RoundTrips}
use moqt_minimal.Buffer.{Reads, Reads-bind, Reads-last, Reads-pure, Reads-ensure, Reads-next_byte}
use moqt_minimal.Wire.Varint.{varint_bytes}
use moqt_minimal.Wire.Varint.RoundTrip.{Reads-varint, Writes-varint}
use moqt_minimal.Wire.SubgroupHeader.{
  SubgroupHeader, is_some, type_byte, encode, decode, subgroup_id_mode,
}
use moqt_minimal.Wire.SubgroupHeader.{
  encode_subgroup_id, encode_priority, decode_subgroup_id, decode_priority,
}
use moqt_minimal.Wire.SubgroupHeader.Types.{Reflects, type_of_flags-Reflects}

abbrev pub OptionAll : (ℕ → Type 0) → Option ℕ → Type 0
OptionAll P none = Unit
OptionAll P (some x) = P x

-- The ranges of the field types.
pub record IsValid (h : SubgroupHeader) : Type 0 where
  pub track_alias : IsU64 h.track_alias
  pub group_id : IsU64 h.group_id
  pub subgroup_id : OptionAll IsU64 h.subgroup_id
  pub publisher_priority : OptionAll IsByte h.publisher_priority

abbrev pub id_bytes : Option ℕ → List ℕ
id_bytes none = []
id_bytes (some id) = varint_bytes id

abbrev pub priority_bytes : Option ℕ → List ℕ
priority_bytes none = []
priority_bytes (some priority) = priority ∷ []

abbrev pub header_bytes : SubgroupHeader → List ℕ
header_bytes h =
    varint_bytes (type_byte h)
    ++ (varint_bytes h.track_alias
        ++ (varint_bytes h.group_id
            ++ (id_bytes h.subgroup_id ++ priority_bytes h.publisher_priority)))

Writes-id : (o : Option ℕ) → Writes (encode_subgroup_id o) (id_bytes o)
unfolding encode_subgroup_id
Writes-id none = Writes-pure
Writes-id (some id) = Writes-varint id

Writes-priority : (o : Option ℕ) → Writes (encode_priority o) (priority_bytes o)
unfolding encode_priority
Writes-priority none = Writes-pure
Writes-priority (some priority) = Writes-push _

pub Writes-header : (h : SubgroupHeader) → Writes (encode h) (header_bytes h)
unfolding encode
Writes-header h = Writes-bind (Writes-varint _) (
    Writes-bind (Writes-varint _) (
      Writes-bind (Writes-varint _)
        (Writes-bind (Writes-id h.subgroup_id) (Writes-priority h.publisher_priority))))

Reads-id :
    (t : ℕ) (o : Option ℕ)
    → (subgroup_id_mode t == 0x02) ≡ is_some o
    → OptionAll IsU64 o
    → Reads (decode_subgroup_id t) o (id_bytes o)
unfolding decode_subgroup_id
Reads-id t none e h = rw e (Reads-pure none)
Reads-id t (some id) e h = rw e (Reads-last _ _ (Reads-varint id h))

Reads-priority :
    (t : ℕ) (o : Option ℕ)
    → (bit_and t 0x20 == 0) ≡ not (not (is_some o))
    → Reads (decode_priority t) o (priority_bytes o)
unfolding decode_priority
Reads-priority t none e = rw e (Reads-pure none)
Reads-priority t (some priority) e = rw e (Reads-last _ _ (Reads-next_byte priority _))

abbrev Describes : ℕ → SubgroupHeader → Type 0
Describes t h =
    Reflects t h.has_properties (is_some h.subgroup_id) h.end_of_group
      (not (is_some h.publisher_priority))

-- The header with the flags that `decode` takes from `t`.
abbrev flagged : ℕ → SubgroupHeader → SubgroupHeader
flagged t h = record h {
  has_properties = not (bit_and t 0x01 == 0);
  end_of_group = not (bit_and t 0x08 == 0);
}

flagged_lem : (t : ℕ) (h : SubgroupHeader) → Describes t h → flagged t h ≡ h
flagged_lem t h r =
    λ i. record h { has_properties = r.properties i; end_of_group = r.end_of_group i }

read_header :
    (t : ℕ) (h : SubgroupHeader)
    → Describes t h
    → IsValid h
    → Reads decode (flagged t h) (
        varint_bytes t
        ++ (varint_bytes h.track_alias
            ++ (varint_bytes h.group_id
                ++ (id_bytes h.subgroup_id ++ priority_bytes h.publisher_priority))))
unfolding decode
read_header t h r v = Reads-bind _ _ (Reads-varint t (omega (arith, r.small))) (
    Reads-bind _ _ (Reads-ensure _ _ r.valid) (
      Reads-bind _ _ (Reads-varint h.track_alias v.track_alias) (
        Reads-bind _ _ (Reads-varint h.group_id v.group_id) (
          Reads-bind _ _ (Reads-id t h.subgroup_id r.mode v.subgroup_id)
            (Reads-last _ _ (Reads-priority t h.publisher_priority r.priority))))))

pub Reads-header : (h : SubgroupHeader) → IsValid h → Reads decode h (header_bytes h)
unfolding type_byte
Reads-header h v =
    let r =
      type_of_flags-Reflects h.has_properties (is_some h.subgroup_id) h.end_of_group
        (not (is_some h.publisher_priority)) in
    subst (λ x. Reads decode x (header_bytes h)) (flagged_lem (type_byte h) h r)
      (read_header (type_byte h) h r v)

-- Every header whose fields are in range is read back as it was written.
pub header_round_trip : (h : SubgroupHeader) → IsValid h → RoundTrips (encode h) decode h
header_round_trip h v = (header_bytes h, Writes-header h, Reads-header h v)
