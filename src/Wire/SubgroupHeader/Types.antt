-- ===== src/Wire/SubgroupHeader/Types.antt =====
-- The bits of the type byte.
use moqt_minimal.Prelude.{ℕ, ◌<◌, ◌≡◌, bit_and, Bool, true, not, arith, ◌==◌}
use moqt_minimal.Wire.SubgroupHeader.{type_of_flags, is_valid_type, subgroup_id_mode}

-- Each flag is read back from the type byte.
pub record Reflects (t : ℕ) (p s e d : Bool) : Type 0 where
  pub valid : is_valid_type t ≡ true
  pub properties : not (bit_and t 0x01 == 0) ≡ p
  pub mode : (subgroup_id_mode t == 0x02) ≡ s
  pub end_of_group : not (bit_and t 0x08 == 0) ≡ e
  pub priority : (bit_and t 0x20 == 0) ≡ not d
  pub small : t < 64

pub type_of_flags-Reflects : (p s e d : Bool) → Reflects (type_of_flags p s e d) p s e d
unfolding type_of_flags is_valid_type
type_of_flags-Reflects p s e d = ground arith
