-- ===== src/Wire/Message/Frame.antt =====
-- Frames: the two directions of moqt-core/src/wire/mod.rs.
use moqt_minimal.Prelude.{
  ℕ, ◌%◌, ◌≡◌, refl, sym, ap, ◌∙◌, List, ◌++◌, length, take, drop, arith, IsU16, IsU64,
}
use moqt_minimal.Prelude.{length-take, take-append-drop, append_assoc}
use moqt_minimal.Buffer.{
  RoundTrips, ok, Reads, Reads-bind, Reads-last, Reads-split_at, Writes, Writes-bind, Writes-push,
}
use moqt_minimal.Wire.Varint.{varint_bytes}
use moqt_minimal.Wire.Varint.RoundTrip.{Reads-varint, Writes-varint}
use moqt_minimal.Wire.Message.{to_be_bytes, encode_message, decode_message}

-- The frame that `encode_message` appends.
abbrev pub message_bytes : ℕ → List ℕ → List ℕ
message_bytes t payload = varint_bytes t ++ (to_be_bytes (length payload % 65536) ++ payload)

pub Writes-message :
    (t : ℕ) (payload : List ℕ) → Writes (encode_message t payload) (message_bytes t payload)
unfolding encode_message
Writes-message t payload =
    Writes-bind (Writes-varint t) (Writes-bind (Writes-push _) (Writes-push payload))

read_frame :
    (t n : ℕ) (payload : List ℕ)
    → IsU64 t
    → IsU16 n
    → n ≡ length payload
    → Reads decode_message (t, payload) (varint_bytes t ++ (to_be_bytes n ++ payload))
unfolding decode_message
read_frame t n payload ht hn e = Reads-bind _ _ (Reads-varint t ht) (
    Reads-bind _ _ (Reads-split_at 2 (to_be_bytes n) _ refl)
      (Reads-last _ _ (Reads-split_at _ payload _ (omega arith))))

regroup :
    (t n : ℕ) (payload rest : List ℕ)
    → (varint_bytes t ++ (to_be_bytes n ++ payload)) ++ rest
      ≡ (varint_bytes t ++ (to_be_bytes n ++ take n payload)) ++ (drop n payload ++ rest)
regroup t n payload rest =
    ap (λ (p : List ℕ). (varint_bytes t ++ (to_be_bytes n ++ p)) ++ rest)
      (sym (take-append-drop n payload))
    ∙ simp append_assoc

-- The receiver of a frame takes as much of the payload as its length modulo 2^16 says, and leaves
-- the rest of the payload in front of what follows the frame.
pub decode-encode_message :
    (t : ℕ) (payload rest : List ℕ)
    → IsU64 t
    → decode_message (message_bytes t payload ++ rest)
      ≡ ok (
        (t, take (length payload % 65536) payload),
        drop (length payload % 65536) payload ++ rest,
      )
decode-encode_message t payload rest ht =
    let n : ℕ = length payload % 65536 in
    let kept = take n payload in
    let frame = read_frame t n kept ht (omega arith) (sym (length-take n payload (omega arith))) in
    ap decode_message (regroup t n payload rest) ∙ frame.on (drop n payload ++ rest)

pub Reads-message :
    (t : ℕ) (payload : List ℕ)
    → IsU64 t
    → IsU16 (length payload)
    → Reads decode_message (t, payload) (message_bytes t payload)
Reads-message t payload ht fits =
    read_frame t (length payload % 65536) payload ht (omega arith) (omega arith)

-- A control message whose payload's length fits 16 bits is read back as it was written.
pub message_round_trip :
    (t : ℕ) (payload : List ℕ)
    → IsU64 t
    → IsU16 (length payload)
    → RoundTrips (encode_message t payload) decode_message (t, payload)
message_round_trip t payload ht fits =
    (message_bytes t payload, Writes-message t payload, Reads-message t payload ht fits)

-- A control message of any length: the receiver takes the payload's length modulo 2^16 off the
-- front of the payload, and meets what is left of it as if it were the next message.
pub message_cut :
    (t : ℕ) (payload rest : List ℕ)
    → IsU64 t
    → (bytes : List ℕ) × Writes (encode_message t payload) bytes
      × (decode_message (bytes ++ rest)
          ≡ ok (
            (t, take (length payload % 65536) payload),
            drop (length payload % 65536) payload ++ rest,
          ))
message_cut t payload rest ht =
    (message_bytes t payload, Writes-message t payload, decode-encode_message t payload rest ht)
