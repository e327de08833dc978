-- ===== src/Stream/Frame/RoundTrip.antt =====
-- The readers of moqt-core/src/stream/mod.rs on encodings that a stream delivers.
use moqt_minimal.Prelude.{
  ℕ, ◌-◌, ◌≡◌, refl, sym, ap, ◌∙◌, List, [], ◌∷◌, length, arith, append-nil, IsU64, IsU16, lt→ltb,
}
use mathlib.Core.Path.{subst}
use moqt_minimal.Buffer.{ok}
use moqt_minimal.Wire.Varint.{varint_bytes, varint_byte_length, decode_varint}
use moqt_minimal.Wire.Varint.RoundTrip.{decode-encode}
use moqt_minimal.Wire.Varint.Decode.{decode_varint_splits, varint_bytes-nonempty}
use moqt_minimal.Wire.Message.{to_be_bytes, from_be_bytes}
use moqt_minimal.Wire.Message.Frame.{message_bytes}
use moqt_minimal.Stream.Transport.{
  Transport, Pulls, Pulls-bind, Pulls-last, Pulls-pure, Pulls-lift, Pulls-decoded, Pulls-read_exact,
}
use moqt_minimal.Stream.Frame.{read_bytes, read_varint, read_message_frame}
use moqt_minimal.Prelude.{◌%◌}

alone :
    (v first : ℕ) (more : List ℕ)
    → IsU64 v
    → varint_bytes v ≡ first ∷ more
    → decode_varint (first ∷ more) ≡ ok (v, [])
alone v first more h e =
    ap decode_varint (sym (append-nil (varint_bytes v) ∙ e)) ∙ decode-encode v [] h

-- The first byte of an encoding tells its length.
pub announced_length :
    (v first : ℕ) (more : List ℕ)
    → IsU64 v
    → varint_bytes v ≡ first ∷ more
    → varint_byte_length first ≡ ok (length (first ∷ more))
announced_length v first more h e =
    let s = decode_varint_splits first more (alone v first more h e) in
    let whole : s.0 ≡ length (first ∷ more) = omega (arith, s.3) in s.1 ∙ ap ok whole

module _ {R : Type 0} (t : Transport R) where
  pub Pulls-read_bytes : (bytes : List ℕ) → Pulls t (read_bytes t (length bytes)) bytes bytes
  unfolding read_bytes
  Pulls-read_bytes [] = Pulls-pure t []
  Pulls-read_bytes (b ∷ bs) =
      rw (lt→ltb 0 (length (b ∷ bs)) (omega arith)) (Pulls-read_exact t (b ∷ bs))

  after_first :
      (first : ℕ) (more : List ℕ) → Pulls t (read_bytes t (length (first ∷ more) - 1)) more more
  after_first first more =
      subst (λ n. Pulls t (read_bytes t n) more more) (omega arith) (Pulls-read_bytes more)

  Pulls-split :
      (v first : ℕ) (more : List ℕ)
      → IsU64 v
      → varint_bytes v ≡ first ∷ more
      → Pulls t (read_varint t) (v, first ∷ more) (first ∷ more)
  unfolding read_varint
  Pulls-split v first more h e = Pulls-bind t _ _ (Pulls-read_exact t (first ∷ [])) (
      Pulls-bind t _ _ (Pulls-lift t _ (announced_length v first more h e)) (
        Pulls-last t _ _ (after_first first more) (
          Pulls-bind t _ _
            (Pulls-decoded t (first ∷ more) [] decode_varint (alone v first more h e))
            (Pulls-pure t (v, first ∷ more)))))

  pub Pulls-varint :
      (v : ℕ) → IsU64 v → Pulls t (read_varint t) (v, varint_bytes v) (varint_bytes v)
  Pulls-varint v h = from_bytes (varint_bytes v) refl
    where
      from_bytes :
          (bytes : List ℕ) → varint_bytes v ≡ bytes → Pulls t (read_varint t) (v, bytes) bytes
      from_bytes [] e = absurd (omega (arith, varint_bytes-nonempty v, ap length e))
      from_bytes (first ∷ more) e = Pulls-split v first more h e

  of_length :
      (payload : List ℕ)
      → IsU16 (length payload)
      → Pulls t
          (read_bytes t (from_be_bytes (to_be_bytes (length payload % 65536))))
          payload
          payload
  of_length payload fits =
      let n : from_be_bytes (to_be_bytes (length payload % 65536)) ≡ length payload = omega arith in
      subst (λ n. Pulls t (read_bytes t n) payload payload) (sym n) (Pulls-read_bytes payload)

  pub Pulls-frame :
      (ty : ℕ) (payload : List ℕ)
      → IsU64 ty
      → IsU16 (length payload)
      → Pulls t (read_message_frame t) (message_bytes ty payload) (message_bytes ty payload)
  unfolding read_message_frame
  Pulls-frame ty payload ht fits = Pulls-bind t _ _ (Pulls-varint ty ht) (
      Pulls-bind t _ _ (Pulls-read_exact t (to_be_bytes (length payload % 65536)))
        (Pulls-last t _ _ (of_length payload fits) (Pulls-pure t _)))
