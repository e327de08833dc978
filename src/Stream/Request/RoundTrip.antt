-- ===== src/Stream/Request/RoundTrip.antt =====
-- Request messages: the writers of moqt-core/src/stream/request.rs and the reader.
use moqt_minimal.Prelude.{ℕ, ◌≡◌, ◌≢◌, ap, ◌∙◌, List, [], length, IsU64, IsU16, arith}
use moqt_minimal.Buffer.{ok, err, Action, Writes, Reads, Reads-exact, unknown_request_type}
use moqt_minimal.Wire.Varint.{varint_bytes}
use moqt_minimal.Wire.Varint.RoundTrip.{decode-encode}
use moqt_minimal.Wire.Message.{
  msg_subscribe, msg_subscribe_ok, msg_request_error, msg_publish_namespace, msg_request_ok,
  msg_publish_done,
}
use moqt_minimal.Wire.Message.Frame.{message_bytes}
use moqt_minimal.Wire.Parameter.RoundTrip.{parameters_bytes}
use moqt_minimal.Wire.Subscribe.RoundTrip as Sub
use moqt_minimal.Wire.SubscribeOk.RoundTrip as SubOk
use moqt_minimal.Wire.PublishNamespace.RoundTrip as PubNs
use moqt_minimal.Wire.PublishDone.RoundTrip as PubDone
use moqt_minimal.Wire.RequestError.RoundTrip as ReqError
use moqt_minimal.Wire.RequestOk.RoundTrip.{Writes-request_ok, Reads-request_ok}
use moqt_minimal.Stream.Transport.{Transport, Pulls, Pulls-last, Pulls-lift}
use moqt_minimal.Stream.Frame.RoundTrip.{Pulls-frame}
use moqt_minimal.Stream.Request.{
  RequestMessage, publish_namespace, subscribe, subscribe_ok, request_ok, request_error,
  publish_done, parse_request_message, parse_as, parse_typed, wrapped, encode_request, read_message,
}
use moqt_minimal.Prelude.{◌≢◌}

abbrev pub request_type : RequestMessage → ℕ
request_type (publish_namespace m) = msg_publish_namespace
request_type (subscribe m) = msg_subscribe
request_type (subscribe_ok m) = msg_subscribe_ok
request_type (request_ok m) = msg_request_ok
request_type (request_error m) = msg_request_error
request_type (publish_done m) = msg_publish_done

abbrev pub request_payload : RequestMessage → List ℕ
request_payload (publish_namespace m) = PubNs.payload m
request_payload (subscribe m) = Sub.payload m
request_payload (subscribe_ok m) = SubOk.payload m
request_payload (request_ok m) = parameters_bytes []
request_payload (request_error m) = ReqError.payload m
request_payload (publish_done m) = PubDone.payload m

abbrev pub IsValid : RequestMessage → Type 0
IsValid (publish_namespace m) = PubNs.IsValid m
IsValid (subscribe m) = Sub.IsValid m
IsValid (subscribe_ok m) = SubOk.IsValid m
IsValid (request_ok m) = Unit
IsValid (request_error m) = ReqError.IsValid m
IsValid (publish_done m) = PubDone.IsValid m

abbrev pub request_bytes : RequestMessage → List ℕ
request_bytes m = message_bytes (request_type m) (request_payload m)

pub Writes-request : (m : RequestMessage) → IsValid m → Writes (encode_request m) (request_bytes m)
unfolding encode_request
Writes-request (publish_namespace m) v = PubNs.Writes-publish_namespace m v
Writes-request (subscribe m) v = Sub.Writes-subscribe m v
Writes-request (subscribe_ok m) v = SubOk.Writes-subscribe_ok m v
Writes-request (request_ok m) v = Writes-request_ok m
Writes-request (request_error m) v = ReqError.Writes-request_error m
Writes-request (publish_done m) v = PubDone.Writes-publish_done m

request_type-IsU64 : (m : RequestMessage) → IsU64 (request_type m)
request_type-IsU64 (publish_namespace m) = omega arith
request_type-IsU64 (subscribe m) = omega arith
request_type-IsU64 (subscribe_ok m) = omega arith
request_type-IsU64 (request_ok m) = omega arith
request_type-IsU64 (request_error m) = omega arith
request_type-IsU64 (publish_done m) = omega arith

wrapped-read :
    {A : Type 0} (f : A → RequestMessage) (dec : Action A) (bytes : List ℕ) {a : A}
    → Reads dec a bytes
    → wrapped f (dec bytes) ≡ ok (f a)
wrapped-read f dec bytes h = ap (wrapped f) (Reads-exact dec bytes h)

parsed_as : (m : RequestMessage) → IsValid m → parse_as (request_type m) (request_bytes m) ≡ ok m
unfolding parse_as
parsed_as (publish_namespace m) v =
    wrapped-read publish_namespace _ _ (PubNs.Reads-publish_namespace m v)
parsed_as (subscribe m) v = wrapped-read subscribe _ _ (Sub.Reads-subscribe m v)
parsed_as (subscribe_ok m) v = wrapped-read subscribe_ok _ _ (SubOk.Reads-subscribe_ok m v)
parsed_as (request_ok m) v = wrapped-read request_ok _ _ (Reads-request_ok m)
parsed_as (request_error m) v = wrapped-read request_error _ _ (ReqError.Reads-request_error m v)
parsed_as (publish_done m) v = wrapped-read publish_done _ _ (PubDone.Reads-publish_done m v)

-- The type in front of any frame decides how it is parsed.
parse-frame :
    (ty : ℕ) (payload : List ℕ)
    → IsU64 ty
    → parse_request_message (message_bytes ty payload) ≡ parse_as ty (message_bytes ty payload)
unfolding parse_request_message
parse-frame ty payload h = ap (λ m. parse_typed m (message_bytes ty payload)) (decode-encode ty _ h)

request_fits : (m : RequestMessage) → IsValid m → IsU16 (length (request_payload m))
unfolding varint_bytes
request_fits (publish_namespace m) v = v.fits
request_fits (subscribe m) v = v.fits
request_fits (subscribe_ok m) v = v.fits
request_fits (request_ok m) v = omega arith
request_fits (request_error m) v = ReqError.payload_fits m v
request_fits (publish_done m) v = PubDone.payload_fits m v

parse_as-other :
    (ty : ℕ) (bytes : List ℕ)
    → ty ≢ msg_publish_namespace
    → ty ≢ msg_subscribe
    → ty ≢ msg_subscribe_ok
    → ty ≢ msg_request_ok
    → ty ≢ msg_request_error
    → ty ≢ msg_publish_done
    → parse_as ty bytes ≡ err unknown_request_type
unfolding parse_as
parse_as-other ty bytes a b c d e f = ground arith

pub Pulls-request :
    {R : Type 0} (t : Transport R) (m : RequestMessage)
    → IsValid m
    → Pulls t (read_message t) m (request_bytes m)
unfolding read_message
Pulls-request t m v =
    let ty = request_type-IsU64 m in
    Pulls-last t _ _ (Pulls-frame t (request_type m) (request_payload m) ty (request_fits m v))
      (Pulls-lift t _ (parse-frame (request_type m) (request_payload m) ty ∙ parsed_as m v))

-- For each kind of request message, where the message is valid: its `write_…` method hands bytes to
-- the stream, `read_message` takes these bytes and no more off a stream that delivers them, and
-- returns the message. Valid means that the numbers are u64s, that the payload has at most 65535
-- bytes, that a reason has at most 1024, that a namespace has at most 32 fields and none of them
-- empty, and that parameters do not fall in type and have no filter but NextGroupStart.
pub request_round_trip :
    {R : Type 0} (t : Transport R) (m : RequestMessage)
    → IsValid m
    → (bytes : List ℕ) × Writes (encode_request m) bytes × Pulls t (read_message t) m bytes
request_round_trip t m v = (request_bytes m, Writes-request m v, Pulls-request t m v)

-- A frame of any type but the six is refused, whatever its payload.
pub parse-unknown :
    (ty : ℕ) (payload : List ℕ)
    → IsU64 ty
    → ty ≢ msg_publish_namespace
    → ty ≢ msg_subscribe
    → ty ≢ msg_subscribe_ok
    → ty ≢ msg_request_ok
    → ty ≢ msg_request_error
    → ty ≢ msg_publish_done
    → parse_request_message (message_bytes ty payload) ≡ err unknown_request_type
parse-unknown ty payload h a b c d e f =
    parse-frame ty payload h ∙ parse_as-other ty (message_bytes ty payload) a b c d e f
