-- ===== src/Wire/PublishDone/RoundTrip.antt =====
-- PUBLISH_DONE: the two directions of moqt-core/src/wire/publish_done.rs.
use moqt_minimal.Prelude.{List, ◌++◌, ◌≤◌, length, IsU16, IsU64, arith, ℕ, length-append}
use moqt_minimal.Buffer.{RoundTrips, Writes, Writes-bind, Reads, Reads-bind, Reads-last}
use moqt_minimal.Wire.Varint.{varint_bytes}
use moqt_minimal.Wire.Varint.RoundTrip.{Writes-varint, Reads-varint}
use moqt_minimal.Wire.Varint.Decode.{length-varint_le}
use moqt_minimal.Wire.Message.{msg_publish_done}
use moqt_minimal.Wire.Message.Frame.{message_bytes}
use moqt_minimal.Wire.Message.Framed.{Writes-framed, Reads-framed}
use moqt_minimal.Wire.ReasonPhrase.{max_length}
use moqt_minimal.Wire.ReasonPhrase.RoundTrip.{
  reason_phrase_bytes, Writes-reason_phrase, Reads-reason_phrase,
}
use moqt_minimal.Wire.PublishDone.{PublishDoneMessage, encode_body, decode_body, encode, decode}

abbrev pub payload : PublishDoneMessage → List ℕ
payload m =
    varint_bytes m.status_code
    ++ (varint_bytes m.stream_count ++ reason_phrase_bytes m.reason_phrase)

pub record IsValid (m : PublishDoneMessage) : Type 0 where
  pub status_code : IsU64 m.status_code
  pub stream_count : IsU64 m.stream_count
  pub reason : length m.reason_phrase.value ≤ max_length

-- Within the limit of the reason phrase the payload fits its frame.
pub payload_fits : (m : PublishDoneMessage) → IsValid m → IsU16 (length (payload m))
payload_fits m v =
    let phrase = m.reason_phrase.value in
    omega (
      arith,
      length-append (varint_bytes m.status_code)
          (varint_bytes m.stream_count ++ reason_phrase_bytes m.reason_phrase),
      length-append (varint_bytes m.stream_count) (reason_phrase_bytes m.reason_phrase),
      length-append (varint_bytes (length phrase)) phrase,
      length-varint_le m.status_code,
      length-varint_le m.stream_count,
      length-varint_le (length phrase),
    )

Writes-body : (m : PublishDoneMessage) → Writes (encode_body m) (payload m)
unfolding encode_body
Writes-body m =
    Writes-bind (Writes-varint _) (Writes-bind (Writes-varint _) (Writes-reason_phrase _))

Reads-body : (m : PublishDoneMessage) → IsValid m → Reads decode_body m (payload m)
unfolding decode_body
Reads-body m v = Reads-bind _ _ (Reads-varint _ v.status_code) (
    Reads-bind _ _ (Reads-varint _ v.stream_count)
      (Reads-last _ _ (Reads-reason_phrase _ v.reason)))

pub Writes-publish_done :
    (m : PublishDoneMessage) → Writes (encode m) (message_bytes msg_publish_done (payload m))
unfolding encode
Writes-publish_done m = Writes-framed msg_publish_done _ (Writes-body m)

pub Reads-publish_done :
    (m : PublishDoneMessage)
    → IsValid m
    → Reads decode m (message_bytes msg_publish_done (payload m))
unfolding decode
Reads-publish_done m v =
    Reads-framed msg_publish_done _ (payload m) (omega arith) (payload_fits m v) (Reads-body m v)

-- A PUBLISH_DONE message with a reason of at most 1024 bytes is read back as it was written.
pub publish_done_round_trip : (m : PublishDoneMessage) → IsValid m → RoundTrips (encode m) decode m
publish_done_round_trip m v =
    (message_bytes msg_publish_done (payload m), Writes-publish_done m, Reads-publish_done m v)
