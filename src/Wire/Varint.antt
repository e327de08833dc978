-- ===== src/Wire/Varint.antt =====
-- moqt-core/src/wire/varint.rs: variable-length integers of 1 to 9 bytes. A u8 or u64 is a number;
-- `as u8` is `% 256`, and a shift to the left drops what passes 64 bits.
pub mod Forms
pub mod Values
pub mod RoundTrip
pub mod Decode
use moqt_minimal.Prelude.{ℕ, ◌*◌, ◌/◌, ◌%◌, ◌^◌, bit_and, bit_or, Bool, true, false}
use moqt_minimal.Prelude.{List, [], ◌∷◌, ◌++◌, ltb, leb, ◌==◌, if◌then◌else◌, length, take, drop}
use moqt_minimal.Buffer.{Result, ok, err, Action, push}
use moqt_minimal.Buffer.{empty_buffer, need_bytes, invalid_code_point}

unfoldable pub varint_byte_length : ℕ → Result ℕ
varint_byte_length first_byte =
    if bit_and first_byte 0x80 == 0
    then ok 1
    else if bit_and first_byte 0xc0 == 0x80
    then ok 2
    else if bit_and first_byte 0xe0 == 0xc0
    then ok 3
    else if bit_and first_byte 0xf0 == 0xe0
    then ok 4
    else if bit_and first_byte 0xf8 == 0xf0
    then ok 5
    else if bit_and first_byte 0xfc == 0xf8
    then ok 6
    else if first_byte == 0xfc
    then err invalid_code_point
    else if first_byte == 0xfe
    then ok 8
    else ok 9

-- `(value >> k) as u8`.
abbrev pub byte_at : ℕ → ℕ → ℕ
byte_at value k = value / 2 ^ k % 256

-- What `encode_varint` pushes.
unfoldable pub varint_bytes : ℕ → List ℕ
varint_bytes value =
    if leb value 0x7f
    then byte_at value 0 ∷ []
    else if leb value 0x3fff
    then bit_or 0x80 (byte_at value 8) ∷ byte_at value 0 ∷ []
    else if leb value 0x1fffff
    then bit_or 0xc0 (byte_at value 16) ∷ byte_at value 8 ∷ byte_at value 0 ∷ []
    else if leb value 0x0fffffff
    then bit_or 0xe0 (byte_at value 24) ∷ byte_at value 16 ∷ byte_at value 8 ∷ byte_at value 0 ∷ []
    else if leb value 0x07ffffffff
    then bit_or 0xf0 (byte_at value 32)
      ∷ byte_at value 24
      ∷ byte_at value 16
      ∷ byte_at value 8
      ∷ byte_at value 0
      ∷ []
    else if leb value 0x03ffffffffff
    then bit_or 0xf8 (byte_at value 40)
      ∷ byte_at value 32
      ∷ byte_at value 24
      ∷ byte_at value 16
      ∷ byte_at value 8
      ∷ byte_at value 0
      ∷ []
    else if leb value 0x00ffffffffffffff
    then 0xfe
      ∷ byte_at value 48
      ∷ byte_at value 40
      ∷ byte_at value 32
      ∷ byte_at value 24
      ∷ byte_at value 16
      ∷ byte_at value 8
      ∷ byte_at value 0
      ∷ []
    else 0xff
      ∷ byte_at value 56
      ∷ byte_at value 48
      ∷ byte_at value 40
      ∷ byte_at value 32
      ∷ byte_at value 24
      ∷ byte_at value 16
      ∷ byte_at value 8
      ∷ byte_at value 0
      ∷ []

unfoldable pub encode_varint : ℕ → Action (Unit {0})
encode_varint value = push (varint_bytes value)

-- The length and the value mask that `decode_varint` takes from the first byte.
unfoldable pub varint_form : ℕ → Result (ℕ × ℕ)
varint_form first =
    if bit_and first 0x80 == 0
    then ok (1, 0x7f)
    else if bit_and first 0xc0 == 0x80
    then ok (2, 0x3fff)
    else if bit_and first 0xe0 == 0xc0
    then ok (3, 0x1fffff)
    else if bit_and first 0xf0 == 0xe0
    then ok (4, 0x0fffffff)
    else if bit_and first 0xf8 == 0xf0
    then ok (5, 0x07ffffffff)
    else if bit_and first 0xfc == 0xf8
    then ok (6, 0x03ffffffffff)
    else if first == 0xfc
    then err invalid_code_point
    else if first == 0xfe
    then ok (8, 0x00ffffffffffffff)
    else ok (9, 0xffffffffffffffff)

-- `for &byte in …`: `value = (value << 8) | byte as u64`.
unfoldable pub combine : ℕ → List ℕ → ℕ
combine value [] = value
combine value (byte ∷ bytes) = combine (bit_or (value * 256 % 2 ^ 64) byte) bytes

unfoldable pub read_form : List ℕ → Result (ℕ × ℕ) → Result (ℕ × List ℕ)
unfolding combine
read_form buf (ok (len, value_mask)) =
    if leb len (length buf)
    then ok (bit_and (combine 0 (take len buf)) value_mask, drop len buf)
    else err need_bytes
read_form buf (err e) = err e

unfoldable pub decode_varint : Action ℕ
unfolding varint_form read_form
decode_varint [] = err empty_buffer
decode_varint (first ∷ more) = read_form (first ∷ more) (varint_form first)
