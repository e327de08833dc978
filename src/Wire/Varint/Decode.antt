-- ===== src/Wire/Varint/Decode.antt =====
-- `decode_varint` on any input, well formed or not.
use moqt_minimal.Prelude.{ℕ, ◌^◌, ◌≤◌, ◌<◌, bit_and, ◌≡◌, refl, IsU64, All, IsByte, ◌∷◌, ◌+◌, []}
use moqt_minimal.Prelude.{List, length, take, drop, arith, ◌++◌, length-drop, is_empty, ◌%◌, ap}
use moqt_minimal.Prelude.{leb, take-append-drop, append-nil, length-append, ◌*◌, ◌≢◌}
use moqt_minimal.Prelude.{if◌then◌else◌}
use moqt_minimal.Prelude.Bits.{bit_and_mask}
use moqt_minimal.Buffer.{Yields, Result, ok, err, need_bytes, invalid_code_point, empty_buffer}
use moqt_minimal.Wire.Varint.{varint_byte_length, varint_bytes, varint_form, combine, read_form}
use moqt_minimal.Wire.Varint.{decode_varint}
use moqt_minimal.Wire.Varint.Values.{big_endian, big_endian-place, big_endian_bound}
use moqt_minimal.Wire.Varint.RoundTrip.{decode-encode, reads_width}
use moqt_minimal.Buffer.{Runs, out_of_fuel}

-- How many bytes `encode_varint` writes.
pub length-varint_bytes :
    (v : ℕ)
    → length (varint_bytes v) ≡ (
        if leb v 0x7f
        then 1
        else if leb v 0x3fff
        then 2
        else if leb v 0x1fffff
        then 3
        else if leb v 0x0fffffff
        then 4
        else if leb v 0x07ffffffff
        then 5
        else if leb v 0x03ffffffffff
        then 6
        else if leb v 0x00ffffffffffffff
        then 8
        else 9)
unfolding varint_bytes
length-varint_bytes v = ground arith

read_form-eq-ok :
    (buf : List ℕ) (form : Result (ℕ × ℕ)) {v : ℕ} {rest : List ℕ}
    → read_form buf form ≡ ok (v, rest)
    → (n : ℕ) × (mask : ℕ) × (form ≡ ok (n, mask))
      × (n ≤ length buf)
      × (v ≡ bit_and (combine 0 (take n buf)) mask)
      × (rest ≡ drop n buf)
unfolding read_form
read_form-eq-ok buf (ok (n, mask)) h = (n, mask, refl, ground arith, ground arith, ground arith)
read_form-eq-ok buf (err e) h = cc

-- What a successful `decode_varint` found.
decode_varint-eq-ok :
    (first : ℕ) (more : List ℕ) {v : ℕ} {rest : List ℕ}
    → decode_varint (first ∷ more) ≡ ok (v, rest)
    → (n : ℕ) × (mask : ℕ) × (varint_form first ≡ ok (n, mask))
      × (n ≤ length (first ∷ more))
      × (v ≡ bit_and (combine 0 (take n (first ∷ more))) mask)
      × (rest ≡ drop n (first ∷ more))
unfolding decode_varint
decode_varint-eq-ok first more h = read_form-eq-ok (first ∷ more) (varint_form first) h

masked_width :
    (first n mask x : ℕ)
    → varint_form first ≡ ok (n, mask)
    → (1 ≤ n) × (length (varint_bytes (bit_and x mask)) ≤ n) × (bit_and x mask < 2 ^ 64)
unfolding varint_form
masked_width first n mask x h = ground (
  arith,
  length-varint_bytes (bit_and x mask),
  bit_and_mask 7 x,
  bit_and_mask 14 x,
  bit_and_mask 21 x,
  bit_and_mask 28 x,
  bit_and_mask 35 x,
  bit_and_mask 42 x,
  bit_and_mask 56 x,
  bit_and_mask 64 x,
)

-- `varint_byte_length` gives the length that `decode_varint` goes by.
pub byte_length-form :
    (first n mask : ℕ) → varint_form first ≡ ok (n, mask) → varint_byte_length first ≡ ok n
unfolding varint_form varint_byte_length
byte_length-form first n mask h = ground arith

-- A successful `decode_varint` takes exactly the bytes that `varint_byte_length` announces for the
-- first one, at least as many as `encode_varint` writes for the value, which is a u64.
pub decode_varint_splits :
    (first : ℕ) (more : List ℕ) {v : ℕ} {rest : List ℕ}
    → decode_varint (first ∷ more) ≡ ok (v, rest)
    → (n : ℕ) × (varint_byte_length first ≡ ok n)
      × (1 ≤ n)
      × (length rest + n ≡ length (first ∷ more))
      × (take n (first ∷ more) ++ rest ≡ first ∷ more)
      × (length (varint_bytes v) ≤ n)
      × IsU64 v
decode_varint_splits first more h =
    let (n, mask, form, fits, value, left) = decode_varint-eq-ok first more h in
    let width = masked_width first n mask (combine 0 (take n (first ∷ more))) form in
    (
      n,
      byte_length-form first n mask form,
      width.0,
      ground (arith, length-drop n (first ∷ more)),
      ground (arith, left, take-append-drop n (first ∷ more)),
      ground (arith, value, width.1),
      ground (arith, value, width.2),
    )

pub decode_varint_shrinks :
    (buf : List ℕ) {v : ℕ} {rest : List ℕ}
    → decode_varint buf ≡ ok (v, rest)
    → (length rest < length buf) × IsU64 v
decode_varint_shrinks [] h = unfold decode_varint in cc
decode_varint_shrinks (first ∷ more) h =
    let s = decode_varint_splits first more h in (omega (arith, s.2, s.3), s.6)

pub Yields-varint : Yields decode_varint IsU64
Yields-varint = record { at = λ buf v out h. (decode_varint_shrinks buf h).1 }

-- Where the first byte announces more bytes than there are, the error is `need_bytes`.
pub decode_varint_short :
    (first : ℕ) (more : List ℕ) (n mask : ℕ)
    → varint_form first ≡ ok (n, mask)
    → length (first ∷ more) < n
    → decode_varint (first ∷ more) ≡ err need_bytes
unfolding decode_varint read_form
decode_varint_short first more n mask form short = rw form (ground arith)

-- Every proper prefix of an encoding is refused: as empty if it is, else for want of bytes.
pub decode_varint_truncated :
    (v : ℕ) (front : List ℕ) (x : ℕ) (back : List ℕ)
    → IsU64 v
    → varint_bytes v ≡ front ++ (x ∷ back)
    → decode_varint front ≡ err (if is_empty front then empty_buffer else need_bytes)
decode_varint_truncated v [] x back h e = unfold decode_varint in refl
decode_varint_truncated v (first ∷ more) x back h e =
    let whole : decode_varint (first ∷ (more ++ x ∷ back)) ≡ ok (v, []) =
      rw (append-nil, e) at (decode-encode v [] h) in
    let (n, mask, form, fits, value, left) = decode_varint-eq-ok first (more ++ x ∷ back) whole in
    decode_varint_short first more n mask form (
      omega (
        arith,
        ap length left,
        length-drop n (first ∷ (more ++ x ∷ back)),
        length-append more (x ∷ back),
      ))

-- A prefix of eight one bits carries no value bits: they are shifted out of the u64.
shifted_out :
    (mark : ℕ) (bytes : List ℕ)
    → All IsByte bytes
    → length bytes ≡ 8
    → big_endian 0 (mark ∷ bytes) % 2 ^ 64 % 2 ^ 64 ≡ big_endian 0 bytes
shifted_out mark bytes h e = ground (
  arith,
  big_endian-place (0 * 256 + mark) bytes,
  big_endian_bound bytes h,
  ap (λ (t : ℕ). 256 ^ t) e,
)

nine_bytes_read :
    (mark : ℕ) (bytes rest : List ℕ)
    → IsByte mark
    → All IsByte bytes
    → length bytes ≡ 8
    → varint_form mark ≡ ok (9, 0xffffffffffffffff)
    → decode_varint (mark ∷ (bytes ++ rest)) ≡ ok (big_endian 0 bytes, rest)
nine_bytes_read mark bytes rest hm h e form =
    reads_width (big_endian 0 bytes) 64 mark bytes rest (hm, h) (rw e form)
      (shifted_out mark bytes h e)

-- Of the code points that the table of the module's comment reserves, 0xFC is refused, and 0xFD is
-- read as 0xFF is: as a prefix without value bits before eight bytes of value.
pub decode_varint_reserved :
    (bytes rest : List ℕ)
    → All IsByte bytes
    → length bytes ≡ 8
    → (decode_varint (0xfc ∷ (bytes ++ rest)) ≡ err invalid_code_point)
      × (decode_varint (0xfd ∷ (bytes ++ rest)) ≡ ok (big_endian 0 bytes, rest))
      × (decode_varint (0xff ∷ (bytes ++ rest)) ≡ ok (big_endian 0 bytes, rest))
decode_varint_reserved bytes rest h e = (
  unfold decode_varint in refl,
  nine_bytes_read 0xfd bytes rest (omega arith) h e (unfold varint_form in refl),
  nine_bytes_read 0xff bytes rest (omega arith) h e (unfold varint_form in refl),
)

pub varint_bytes-nonempty : (v : ℕ) → 1 ≤ length (varint_bytes v)
varint_bytes-nonempty v = ground (arith, length-varint_bytes v)

read_form-ends :
    (buf : List ℕ) (form : Result (ℕ × ℕ))
    → form ≢ err out_of_fuel
    → read_form buf form ≢ err out_of_fuel
unfolding read_form
read_form-ends buf (ok (n, mask)) hf h = ground arith
read_form-ends buf (err e) hf h = hf (ground arith)

decode_varint-ends : (buf : List ℕ) → decode_varint buf ≢ err out_of_fuel
unfolding decode_varint
decode_varint-ends [] h = cc
decode_varint-ends (first ∷ more) h =
    read_form-ends (first ∷ more) (varint_form first) (λ e. unfold varint_form in ground arith) h

pub Runs-varint : Runs 1 decode_varint
Runs-varint = record {
  takes = λ buf v out h. omega (arith, (decode_varint_shrinks buf h).0);
  ends = decode_varint-ends;
}

pub length-varint_le : (v : ℕ) → length (varint_bytes v) ≤ 9
length-varint_le v = ground (arith, length-varint_bytes v)
