-- ===== src/Wire/Message/Framed.antt =====
-- Messages by their payloads.
use moqt_minimal.Prelude.{ℕ, ◌≡◌, ◌≢◌, ==_refl, List, [], ◌++◌, length, IsU16, IsU64}
use moqt_minimal.Buffer.{
  ok, err, Action, ◌>>=◌, Writes, Writes-collect, Reads, Reads-bind, Reads-ensure, Reads-on_slice,
  Reads-exact, Reads-eq, ensure, unexpected_message_type,
}
use moqt_minimal.Wire.Message.{encode_framed, decode_framed}
use moqt_minimal.Wire.Message.Frame.{message_bytes, Writes-message, Reads-message}
use moqt_minimal.Prelude.{arith, append-nil}

pub Writes-framed :
    (t : ℕ) (body : Action (Unit {0})) {payload : List ℕ}
    → Writes body payload
    → Writes (encode_framed t body) (message_bytes t payload)
unfolding encode_framed
Writes-framed t body {payload} h = Writes-collect body _ h (Writes-message t payload)

module _ {ℓ} {A : Type ℓ} (t : ℕ) (body : Action A) where
  -- The body need not read the whole payload.
  pub Reads-framed_prefix :
      {a : A} (payload left : List ℕ)
      → IsU64 t
      → IsU16 (length payload)
      → body payload ≡ ok (a, left)
      → Reads (decode_framed t body) a (message_bytes t payload)
  unfolding decode_framed
  Reads-framed_prefix payload left ht fits h = Reads-eq (append-nil (message_bytes t payload)) (
      Reads-bind _ _ (Reads-message t payload ht fits)
        (Reads-bind _ _ (Reads-ensure _ _ (==_refl t)) (Reads-on_slice body payload left h)))

  pub Reads-framed :
      {a : A} (payload : List ℕ)
      → IsU64 t
      → IsU16 (length payload)
      → Reads body a payload
      → Reads (decode_framed t body) a (message_bytes t payload)
  Reads-framed payload ht fits h =
      Reads-framed_prefix payload [] ht fits (Reads-exact body payload h)

  -- A frame of another type is refused, whatever its payload.
  pub decode_framed-other :
      (other : ℕ) (payload rest : List ℕ)
      → IsU64 other
      → IsU16 (length payload)
      → other ≢ t
      → decode_framed t body (message_bytes other payload ++ rest) ≡ err unexpected_message_type
  unfolding decode_framed ensure ◌>>=◌
  decode_framed-other other payload rest ho fits ne =
      rw ((Reads-message other payload ho fits).on rest) (ground arith)
