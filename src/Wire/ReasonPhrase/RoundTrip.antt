-- ===== src/Wire/ReasonPhrase/RoundTrip.antt =====
-- Reason phrases: the two directions of moqt-core/src/wire/reason_phrase.rs.
use moqt_minimal.Prelude.{ℕ, ◌≤◌, ◌<◌, ◌≡◌, List, ◌++◌, length, leb, le→leb, arith, IsU64, inl}
use moqt_minimal.Buffer.{
  ok, err, ◌>>=◌, ensure, Writes, Writes-bind, Writes-push, Reads, Reads-bind,
}
use moqt_minimal.Buffer.{Reads-last, Reads-ensure, Reads-split, reason_too_long}
use moqt_minimal.Wire.Varint.{varint_bytes}
use moqt_minimal.Wire.Varint.RoundTrip.{Reads-varint, Writes-varint}
use moqt_minimal.Wire.ReasonPhrase.{
  ReasonPhrase, max_length, encode_reason_phrase, decode_reason_phrase,
}
use moqt_minimal.Prelude.{if◌then◌else◌, append_assoc, Bool-cases, leb→le, inr}

abbrev pub reason_phrase_bytes : ReasonPhrase → List ℕ
reason_phrase_bytes rp = varint_bytes (length rp.value) ++ rp.value

pub Writes-reason_phrase :
    (rp : ReasonPhrase) → Writes (encode_reason_phrase rp) (reason_phrase_bytes rp)
unfolding encode_reason_phrase
Writes-reason_phrase rp = Writes-bind (Writes-varint _) (Writes-push rp.value)

pub Reads-reason_phrase :
    (rp : ReasonPhrase)
    → length rp.value ≤ max_length
    → Reads decode_reason_phrase rp (reason_phrase_bytes rp)
unfolding decode_reason_phrase
Reads-reason_phrase rp h =
    Reads-bind _ _ (Reads-varint (length rp.value) (omega arith))
      (Reads-bind _ _ (Reads-ensure _ _ (le→leb _ _ h)) (Reads-last _ _ (Reads-split rp.value _)))

-- Past the limit the receiver refuses the phrase, whatever follows it.
pub decode_long_reason_phrase :
    (rp : ReasonPhrase) (rest : List ℕ)
    → max_length < length rp.value
    → IsU64 (length rp.value)
    → decode_reason_phrase (reason_phrase_bytes rp ++ rest) ≡ err reason_too_long
unfolding decode_reason_phrase ◌>>=◌ ensure
decode_long_reason_phrase rp rest long h =
    rw (append_assoc _ rp.value rest, (Reads-varint (length rp.value) h).on (rp.value ++ rest))
      (ground arith)

-- `encode_reason_phrase` writes a phrase of any length below 2^64. `decode_reason_phrase` reads it
-- back, whatever follows, if it has at most 1024 bytes, and else fails with `reason_too_long`.
pub reason_phrase_outcome :
    (rp : ReasonPhrase) (rest : List ℕ)
    → IsU64 (length rp.value)
    → (bytes : List ℕ) × Writes (encode_reason_phrase rp) bytes
      × (decode_reason_phrase (bytes ++ rest)
          ≡ (if leb (length rp.value) max_length then ok (rp, rest) else err reason_too_long))
reason_phrase_outcome rp rest h = (
  reason_phrase_bytes rp,
  Writes-reason_phrase rp,
  elim (Bool-cases (leb (length rp.value) max_length)) [
    | inl short ↦ rw short ((Reads-reason_phrase rp (leb→le _ _ short)).on rest)
    | inr long ↦ rw long (decode_long_reason_phrase rp rest (ground arith) h)
  ],
)
