-- ===== src/Wire/RequestOk/RoundTrip.antt =====
-- REQUEST_OK: the two directions of moqt-core/src/wire/request_ok.rs.
use moqt_minimal.Prelude.{[], arith, length, IsU16}
use moqt_minimal.Buffer.{Reads-last, Writes, Reads}
use moqt_minimal.Wire.Varint.{varint_bytes}
use moqt_minimal.Wire.Message.{msg_request_ok}
use moqt_minimal.Wire.Message.Frame.{message_bytes}
use moqt_minimal.Wire.Message.Framed.{Writes-framed, Reads-framed}
use moqt_minimal.Wire.Parameter.RoundTrip.{parameters_bytes, Writes-parameters, Reads-parameters}
use moqt_minimal.Wire.RequestOk.{RequestOkMessage, request_ok, encode, decode}

empty_fits : IsU16 (length (parameters_bytes []))
unfolding varint_bytes
empty_fits = omega arith

pub Writes-request_ok :
    (m : RequestOkMessage) → Writes (encode m) (message_bytes msg_request_ok (parameters_bytes []))
unfolding encode
Writes-request_ok request_ok =
    Writes-framed msg_request_ok _ (Writes-parameters [] (omega arith, tt, tt))

pub Reads-request_ok :
    (m : RequestOkMessage) → Reads decode m (message_bytes msg_request_ok (parameters_bytes []))
unfolding decode
Reads-request_ok request_ok =
    Reads-framed msg_request_ok _ (parameters_bytes []) (omega arith) empty_fits
      (Reads-last _ _ (Reads-parameters [] (omega arith, tt, tt)))
