-- ===== src/Wire/RequestError/RoundTrip.antt =====
-- REQUEST_ERROR: the two directions of moqt-core/src/wire/request_error.rs.
use moqt_minimal.Prelude.{List, ◌++◌, ◌≤◌, length, IsU16, IsU64, arith, length-append, ℕ}
use moqt_minimal.Buffer.{RoundTrips, Writes, Writes-bind, Reads, Reads-bind, Reads-last}
use moqt_minimal.Wire.Varint.{varint_bytes}
use moqt_minimal.Wire.Varint.RoundTrip.{Writes-varint, Reads-varint}
use moqt_minimal.Wire.Varint.Decode.{length-varint_le}
use moqt_minimal.Wire.Message.{msg_request_error}
use moqt_minimal.Wire.Message.Frame.{message_bytes}
use moqt_minimal.Wire.Message.Framed.{Writes-framed, Reads-framed}
use moqt_minimal.Wire.ReasonPhrase.{max_length}
use moqt_minimal.Wire.ReasonPhrase.RoundTrip.{
  reason_phrase_bytes, Writes-reason_phrase, Reads-reason_phrase,
}
use moqt_minimal.Wire.RequestError.{RequestErrorMessage, encode_body, decode_body, encode, decode}

abbrev pub payload : RequestErrorMessage → List ℕ
payload m =
    varint_bytes m.error_code
    ++ (varint_bytes m.retry_interval ++ reason_phrase_bytes m.reason_phrase)

pub record IsValid (m : RequestErrorMessage) : Type 0 where
  pub error_code : IsU64 m.error_code
  pub retry_interval : IsU64 m.retry_interval
  pub reason : length m.reason_phrase.value ≤ max_length

-- Within the limit of the reason phrase the payload fits its frame.
pub payload_fits : (m : RequestErrorMessage) → IsValid m → IsU16 (length (payload m))
payload_fits m v =
    let phrase = m.reason_phrase.value in
    omega (
      arith,
      length-append (varint_bytes m.error_code)
          (varint_bytes m.retry_interval ++ reason_phrase_bytes m.reason_phrase),
      length-append (varint_bytes m.retry_interval) (reason_phrase_bytes m.reason_phrase),
      length-append (varint_bytes (length phrase)) phrase,
      length-varint_le m.error_code,
      length-varint_le m.retry_interval,
      length-varint_le (length phrase),
    )

Writes-body : (m : RequestErrorMessage) → Writes (encode_body m) (payload m)
unfolding encode_body
Writes-body m =
    Writes-bind (Writes-varint _) (Writes-bind (Writes-varint _) (Writes-reason_phrase _))

Reads-body : (m : RequestErrorMessage) → IsValid m → Reads decode_body m (payload m)
unfolding decode_body
Reads-body m v = Reads-bind _ _ (Reads-varint _ v.error_code) (
    Reads-bind _ _ (Reads-varint _ v.retry_interval)
      (Reads-last _ _ (Reads-reason_phrase _ v.reason)))

pub Writes-request_error :
    (m : RequestErrorMessage) → Writes (encode m) (message_bytes msg_request_error (payload m))
unfolding encode
Writes-request_error m = Writes-framed msg_request_error _ (Writes-body m)

pub Reads-request_error :
    (m : RequestErrorMessage)
    → IsValid m
    → Reads decode m (message_bytes msg_request_error (payload m))
unfolding decode
Reads-request_error m v =
    Reads-framed msg_request_error _ (payload m) (omega arith) (payload_fits m v) (Reads-body m v)

-- A REQUEST_ERROR message with a reason of at most 1024 bytes is read back as it was written.
pub request_error_round_trip :
    (m : RequestErrorMessage) → IsValid m → RoundTrips (encode m) decode m
request_error_round_trip m v =
    (message_bytes msg_request_error (payload m), Writes-request_error m, Reads-request_error m v)
