-- ===== src/Wire/SubscribeOk/RoundTrip.antt =====
-- SUBSCRIBE_OK: the two directions of moqt-core/src/wire/subscribe_ok.rs.
use moqt_minimal.Prelude.{List, ◌++◌, length, IsU16, IsU64, arith, ℕ}
use moqt_minimal.Buffer.{
  RoundTrips, Writes, Writes-bind, Writes-push, Reads, Reads-bind, Reads-last, Reads-split,
}
use moqt_minimal.Wire.Varint.{varint_bytes}
use moqt_minimal.Wire.Varint.RoundTrip.{Writes-varint, Reads-varint}
use moqt_minimal.Wire.Message.{msg_subscribe_ok}
use moqt_minimal.Wire.Message.Frame.{message_bytes}
use moqt_minimal.Wire.Message.Framed.{Writes-framed, Reads-framed}
use moqt_minimal.Wire.Parameter.RoundTrip.{
  AreEncodable, parameters_bytes, Writes-parameters, Reads-parameters,
}
use moqt_minimal.Wire.SubscribeOk.{SubscribeOkMessage, encode_body, decode_body, encode, decode}

abbrev pub payload : SubscribeOkMessage → List ℕ
payload m =
    varint_bytes m.track_alias
    ++ (parameters_bytes m.parameters
        ++ (varint_bytes (length m.track_properties_raw) ++ m.track_properties_raw))

pub record IsValid (m : SubscribeOkMessage) : Type 0 where
  pub track_alias : IsU64 m.track_alias
  pub parameters : AreEncodable m.parameters
  pub properties : IsU64 (length m.track_properties_raw)
  pub fits : IsU16 (length (payload m))

Writes-body : (m : SubscribeOkMessage) → IsValid m → Writes (encode_body m) (payload m)
unfolding encode_body
Writes-body m v =
    Writes-bind (Writes-varint _) (
      Writes-bind (Writes-parameters _ v.parameters)
        (Writes-bind (Writes-varint _) (Writes-push _)))

Reads-body : (m : SubscribeOkMessage) → IsValid m → Reads decode_body m (payload m)
unfolding decode_body
Reads-body m v = Reads-bind _ _ (Reads-varint _ v.track_alias) (
    Reads-bind _ _ (Reads-parameters _ v.parameters) (
      Reads-bind _ _ (Reads-varint _ v.properties)
        (Reads-last _ _ (Reads-split m.track_properties_raw _))))

pub Writes-subscribe_ok :
    (m : SubscribeOkMessage)
    → IsValid m
    → Writes (encode m) (message_bytes msg_subscribe_ok (payload m))
unfolding encode
Writes-subscribe_ok m v = Writes-framed msg_subscribe_ok _ (Writes-body m v)

pub Reads-subscribe_ok :
    (m : SubscribeOkMessage)
    → IsValid m
    → Reads decode m (message_bytes msg_subscribe_ok (payload m))
unfolding decode
Reads-subscribe_ok m v =
    Reads-framed msg_subscribe_ok _ (payload m) (omega arith) v.fits (Reads-body m v)

-- A SUBSCRIBE_OK message with encodable parameters and a payload of at most 65535 bytes is read
-- back as it was written, with its track properties byte for byte.
pub subscribe_ok_round_trip : (m : SubscribeOkMessage) → IsValid m → RoundTrips (encode m) decode m
subscribe_ok_round_trip m v =
    (message_bytes msg_subscribe_ok (payload m), Writes-subscribe_ok m v, Reads-subscribe_ok m v)
