-- ===== src/Wire/Varint/RoundTrip.antt =====
-- Varints: the two directions of moqt-core/src/wire/varint.rs.
use moqt_minimal.Prelude.{ℕ, suc, ◌+◌, ◌-◌, ◌%◌, ◌^◌, ◌≤◌, ◌<◌, bit_or, ◌≡◌, refl, IsU64}
use moqt_minimal.Prelude.{true, List, [], ◌∷◌, ◌++◌, length, All, IsByte, arith, le→leb}
use moqt_minimal.Prelude.{◌==◌, ==_iff, length-append, take-length_append, drop-length_append}
use moqt_minimal.Prelude.Bits.{every_below, every_below-at, bit_and_mask}
use moqt_minimal.Buffer.{ok, Reads, Writes, Writes-push, RoundTrips}
use moqt_minimal.Wire.Varint.{byte_at, varint_form, read_form, varint_bytes, encode_varint}
use moqt_minimal.Wire.Varint.{decode_varint}
use moqt_minimal.Wire.Varint.Forms.{varint_form-eq-range}
use moqt_minimal.Wire.Varint.Values.{big_endian, combine-big_endian}

read_form-append :
    (k : ℕ) (bs rest : List ℕ)
    → All IsByte bs
    → read_form (bs ++ rest) (ok (length bs, 2 ^ k - 1))
      ≡ ok (big_endian 0 bs % 2 ^ 64 % 2 ^ k, rest)
unfolding read_form
read_form-append k bs rest h = rw (
  le→leb (length bs) (length (bs ++ rest)) (omega (arith, length-append bs rest)),
  take-length_append bs rest,
  drop-length_append bs rest,
  combine-big_endian 0 bs (omega arith) h,
  bit_and_mask k (big_endian 0 bs % 2 ^ 64),
)

-- A first byte that announces `more`, with `k` bits of value.
pub reads_width :
    (v k first : ℕ) (more rest : List ℕ)
    → All IsByte (first ∷ more)
    → varint_form first ≡ ok (suc (length more), 2 ^ k - 1)
    → big_endian 0 (first ∷ more) % 2 ^ 64 % 2 ^ k ≡ v
    → decode_varint ((first ∷ more) ++ rest) ≡ ok (v, rest)
unfolding decode_varint
reads_width v k first more rest h form value =
    rw (form, ← value) (read_form-append k (first ∷ more) rest h)

or_prefix :
    (mark top x : ℕ)
    → every_below top (λ b. bit_or mark b == mark + b) ≡ true
    → x < top
    → bit_or mark x ≡ mark + x
or_prefix mark top x table h = (==_iff _ _).0 (every_below-at top _ x table h)

-- The same where the first byte is a mark and the top bits of the value.
reads_marked :
    (v k mark top x : ℕ) (more rest : List ℕ)
    → every_below top (λ b. bit_or mark b == mark + b) ≡ true
    → x < top
    → All IsByte ((mark + x) ∷ more)
    → varint_form (mark + x) ≡ ok (suc (length more), 2 ^ k - 1)
    → big_endian 0 ((mark + x) ∷ more) % 2 ^ 64 % 2 ^ k ≡ v
    → decode_varint ((bit_or mark x ∷ more) ++ rest) ≡ ok (v, rest)
reads_marked v k mark top x more rest table fits h form value =
    rw (or_prefix mark top x table fits) (reads_width v k (mark + x) more rest h form value)

module _ (v : ℕ) (rest : List ℕ) where
  one_byte : v ≤ 0x7f → decode_varint ((byte_at v 0 ∷ []) ++ rest) ≡ ok (v, rest)
  one_byte h =
      reads_width v 7 (byte_at v 0) [] rest (omega arith)
        (ground (arith, varint_form-eq-range (byte_at v 0))) (omega arith)

  two_bytes :
      v ≤ 0x3fff
      → decode_varint ((bit_or 0x80 (byte_at v 8) ∷ byte_at v 0 ∷ []) ++ rest) ≡ ok (v, rest)
  unfolding every_below
  two_bytes h =
      reads_marked v 14 0x80 64 (byte_at v 8) (byte_at v 0 ∷ []) rest refl (omega arith)
        (omega arith) (ground (arith, varint_form-eq-range (0x80 + byte_at v 8))) (omega arith)

  three_bytes :
      v ≤ 0x1fffff
      → decode_varint ((bit_or 0xc0 (byte_at v 16) ∷ byte_at v 8 ∷ byte_at v 0 ∷ []) ++ rest)
        ≡ ok (v, rest)
  unfolding every_below
  three_bytes h =
      reads_marked v 21 0xc0 32 (byte_at v 16) (byte_at v 8 ∷ byte_at v 0 ∷ []) rest refl
        (omega arith) (omega arith) (ground (arith, varint_form-eq-range (0xc0 + byte_at v 16)))
        (omega arith)

  four_bytes :
      v ≤ 0xfffffff
      → decode_varint
          ((bit_or 0xe0 (byte_at v 24) ∷ byte_at v 16 ∷ byte_at v 8 ∷ byte_at v 0 ∷ []) ++ rest)
        ≡ ok (v, rest)
  unfolding every_below
  four_bytes h =
      reads_marked v 28 0xe0 16 (byte_at v 24) (byte_at v 16 ∷ byte_at v 8 ∷ byte_at v 0 ∷ []) rest
        refl (omega arith) (omega arith)
        (ground (arith, varint_form-eq-range (0xe0 + byte_at v 24))) (omega arith)

  five_bytes :
      v ≤ 0x7ffffffff
      → decode_varint (
          (bit_or 0xf0 (byte_at v 32)
            ∷ byte_at v 24
            ∷ byte_at v 16
            ∷ byte_at v 8
            ∷ byte_at v 0
            ∷ [])
          ++ rest)
        ≡ ok (v, rest)
  unfolding every_below
  five_bytes h =
      reads_marked v 35 0xf0 8 (byte_at v 32)
        (byte_at v 24 ∷ byte_at v 16 ∷ byte_at v 8 ∷ byte_at v 0 ∷ []) rest refl (omega arith)
        (omega arith) (ground (arith, varint_form-eq-range (0xf0 + byte_at v 32))) (omega arith)

  six_bytes :
      v ≤ 0x3ffffffffff
      → decode_varint (
          (bit_or 0xf8 (byte_at v 40)
            ∷ byte_at v 32
            ∷ byte_at v 24
            ∷ byte_at v 16
            ∷ byte_at v 8
            ∷ byte_at v 0
            ∷ [])
          ++ rest)
        ≡ ok (v, rest)
  unfolding every_below
  six_bytes h =
      reads_marked v 42 0xf8 4 (byte_at v 40)
        (byte_at v 32 ∷ byte_at v 24 ∷ byte_at v 16 ∷ byte_at v 8 ∷ byte_at v 0 ∷ []) rest refl
        (omega arith) (omega arith) (ground (arith, varint_form-eq-range (0xf8 + byte_at v 40)))
        (omega arith)

  eight_bytes :
      v ≤ 0xffffffffffffff
      → decode_varint (
          (0xfe
            ∷ byte_at v 48
            ∷ byte_at v 40
            ∷ byte_at v 32
            ∷ byte_at v 24
            ∷ byte_at v 16
            ∷ byte_at v 8
            ∷ byte_at v 0
            ∷ [])
          ++ rest)
        ≡ ok (v, rest)
  eight_bytes h =
      reads_width v 56 0xfe
        (byte_at v 48
          ∷ byte_at v 40
          ∷ byte_at v 32
          ∷ byte_at v 24
          ∷ byte_at v 16
          ∷ byte_at v 8
          ∷ byte_at v 0
          ∷ [])
        rest (omega arith) (ground (arith, varint_form-eq-range 0xfe)) (omega arith)

  nine_bytes :
      IsU64 v
      → decode_varint (
          (0xff
            ∷ byte_at v 56
            ∷ byte_at v 48
            ∷ byte_at v 40
            ∷ byte_at v 32
            ∷ byte_at v 24
            ∷ byte_at v 16
            ∷ byte_at v 8
            ∷ byte_at v 0
            ∷ [])
          ++ rest)
        ≡ ok (v, rest)
  nine_bytes h =
      reads_width v 64 0xff
        (byte_at v 56
          ∷ byte_at v 48
          ∷ byte_at v 40
          ∷ byte_at v 32
          ∷ byte_at v 24
          ∷ byte_at v 16
          ∷ byte_at v 8
          ∷ byte_at v 0
          ∷ [])
        rest (omega arith) (ground (arith, varint_form-eq-range 0xff)) (omega arith)

-- `decode_varint` takes off what `encode_varint` wrote for a u64, and nothing of what follows it.
pub decode-encode :
    (v : ℕ) (rest : List ℕ) → IsU64 v → decode_varint (varint_bytes v ++ rest) ≡ ok (v, rest)
unfolding varint_bytes
decode-encode v rest h = ground (
  arith,
  one_byte v rest,
  two_bytes v rest,
  three_bytes v rest,
  four_bytes v rest,
  five_bytes v rest,
  six_bytes v rest,
  eight_bytes v rest,
  nine_bytes v rest,
)

pub Reads-varint : (v : ℕ) → IsU64 v → Reads decode_varint v (varint_bytes v)
Reads-varint v h = record { on = λ rest. decode-encode v rest h }

pub Writes-varint : (v : ℕ) → Writes (encode_varint v) (varint_bytes v)
unfolding encode_varint
Writes-varint v = Writes-push (varint_bytes v)

-- A u64 is read back as it was written, whatever follows it on the wire.
pub varint_round_trip : (v : ℕ) → IsU64 v → RoundTrips (encode_varint v) decode_varint v
varint_round_trip v h = (varint_bytes v, Writes-varint v, Reads-varint v h)
