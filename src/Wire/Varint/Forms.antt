-- ===== src/Wire/Varint/Forms.antt =====
-- The first byte of a varint: the tests on its prefix bits as ranges.
use moqt_minimal.Prelude.{ℕ, ◌*◌, ◌/◌, bit_and, ◌≡◌, refl, IsByte, arith}
use moqt_minimal.Prelude.{true, ltb, ◌==◌, ==_iff, if◌then◌else◌}
use moqt_minimal.Prelude.Bits.{every_below, every_below-at}
use moqt_minimal.Buffer.{Result, ok, err, invalid_code_point}
use moqt_minimal.Wire.Varint.{varint_form}

prefix_bits :
    (mask unit x : ℕ)
    → every_below 256 (λ b. bit_and b mask == b / unit * unit) ≡ true
    → IsByte x
    → bit_and x mask ≡ x / unit * unit
prefix_bits mask unit x table h = (==_iff _ _).0 (every_below-at 256 _ x table h)

module _ (x : ℕ) (h : IsByte x) where
  top_1 : bit_and x 0x80 ≡ x / 128 * 128
  unfolding every_below
  top_1 = prefix_bits 0x80 128 x refl h

  top_2 : bit_and x 0xc0 ≡ x / 64 * 64
  unfolding every_below
  top_2 = prefix_bits 0xc0 64 x refl h

  top_3 : bit_and x 0xe0 ≡ x / 32 * 32
  unfolding every_below
  top_3 = prefix_bits 0xe0 32 x refl h

  top_4 : bit_and x 0xf0 ≡ x / 16 * 16
  unfolding every_below
  top_4 = prefix_bits 0xf0 16 x refl h

  top_5 : bit_and x 0xf8 ≡ x / 8 * 8
  unfolding every_below
  top_5 = prefix_bits 0xf8 8 x refl h

  top_6 : bit_and x 0xfc ≡ x / 4 * 4
  unfolding every_below
  top_6 = prefix_bits 0xfc 4 x refl h

-- The first byte by ranges: its length, and how many bits of value the whole encoding has.
abbrev pub form_of_range : ℕ → Result (ℕ × ℕ)
form_of_range x =
    if ltb x 128
    then ok (1, 0x7f)
    else if ltb x 192
    then ok (2, 0x3fff)
    else if ltb x 224
    then ok (3, 0x1fffff)
    else if ltb x 240
    then ok (4, 0x0fffffff)
    else if ltb x 248
    then ok (5, 0x07ffffffff)
    else if ltb x 252
    then ok (6, 0x03ffffffffff)
    else if x == 252
    then err invalid_code_point
    else if x == 254
    then ok (8, 0x00ffffffffffffff)
    else ok (9, 0xffffffffffffffff)

pub varint_form-eq-range : (x : ℕ) → IsByte x → varint_form x ≡ form_of_range x
unfolding varint_form
varint_form-eq-range x h =
    ground (arith, top_1 x h, top_2 x h, top_3 x h, top_4 x h, top_5 x h, top_6 x h)
