-- ===== src/Wire/Varint/Values.antt =====
-- The value bits of a varint: the decoder's shifts and masks as a big-endian number.
use moqt_minimal.Prelude.{ℕ, ◌+◌, ◌*◌, ◌%◌, ◌^◌, ◌<◌, bit_or, ◌≡◌, sym, ◌∙◌}
use native.Mathlib.Nat.{pow-suc}
use moqt_minimal.Prelude.{length, ap, ◌<◌, List, [], ◌∷◌, All, IsByte, IsU64, arith}
use moqt_minimal.Prelude.Bits.{bit_or_byte}
use moqt_minimal.Wire.Varint.{combine}

-- The bytes as digits to the base 256, the highest first, after the digits of `acc`.
abbrev pub big_endian : ℕ → List ℕ → ℕ
big_endian acc [] = acc
big_endian acc (b ∷ bs) = big_endian (acc * 256 + b) bs

-- One shift by a byte on 64 bits.
shift_in : (acc b : ℕ) → IsByte b → bit_or (acc * 256 % 2 ^ 64) b ≡ (acc * 256 + b) % 2 ^ 64
shift_in acc b h = ground (arith, bit_or_byte (acc % 2 ^ 56) b h)

big_endian-mod :
    (acc : ℕ) (bs : List ℕ) → big_endian (acc % 2 ^ 64) bs % 2 ^ 64 ≡ big_endian acc bs % 2 ^ 64
big_endian-mod acc [] = omega arith
big_endian-mod acc (b ∷ bs) =
    sym (big_endian-mod (acc % 2 ^ 64 * 256 + b) bs)
    ∙ ground (arith, big_endian-mod (acc * 256 + b) bs)

-- The loop of `decode_varint` keeps the lowest 64 bits of the big-endian number.
pub combine-big_endian :
    (acc : ℕ) (bs : List ℕ)
    → IsU64 acc
    → All IsByte bs
    → combine acc bs ≡ big_endian acc bs % 2 ^ 64
unfolding combine
combine-big_endian acc [] hacc h = omega arith
combine-big_endian acc (b ∷ bs) hacc (hb, hbs) = ground (
  arith,
  shift_in acc b hb,
  combine-big_endian ((acc * 256 + b) % 2 ^ 64) bs (omega arith) hbs,
  big_endian-mod (acc * 256 + b) bs,
)

pub big_endian-place :
    (acc : ℕ) (bs : List ℕ) → big_endian acc bs ≡ acc * 256 ^ length bs + big_endian 0 bs
big_endian-place acc [] = omega arith
big_endian-place acc (b ∷ bs) = omega (
  arith,
  big_endian-place (acc * 256 + b) bs,
  big_endian-place (0 * 256 + b) bs,
  ap (λ (t : ℕ). acc * t) (pow-suc 256 (length bs)),
)

pub big_endian_bound : (bs : List ℕ) → All IsByte bs → big_endian 0 bs < 256 ^ length bs
big_endian_bound [] h = omega arith
big_endian_bound (b ∷ bs) (hb, hbs) =
    grind
      (arith, big_endian-place (0 * 256 + b) bs, pow-suc 256 (length bs), big_endian_bound bs hbs)
