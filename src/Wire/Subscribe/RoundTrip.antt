-- ===== src/Wire/Subscribe/RoundTrip.antt =====
-- SUBSCRIBE: the two directions of moqt-core/src/wire/subscribe.rs.
use moqt_minimal.Prelude.{List, ◌++◌, length, IsU16, IsU64, arith, ℕ}
use moqt_minimal.Buffer.{
  RoundTrips, Writes, Writes-bind, Writes-push, Reads, Reads-bind, Reads-last, Reads-split,
}
use moqt_minimal.Wire.Varint.{varint_bytes}
use moqt_minimal.Wire.Varint.RoundTrip.{Writes-varint, Reads-varint}
use moqt_minimal.Wire.Message.{msg_subscribe}
use moqt_minimal.Wire.Message.Frame.{message_bytes}
use moqt_minimal.Wire.Message.Framed.{Writes-framed, Reads-framed}
use moqt_minimal.Wire.TrackNamespace.RoundTrip as Namespace
use moqt_minimal.Wire.TrackNamespace.RoundTrip.{namespace_bytes, Writes-namespace, Reads-namespace}
use moqt_minimal.Wire.Parameter.RoundTrip.{
  AreEncodable, parameters_bytes, Writes-parameters, Reads-parameters,
}
use moqt_minimal.Wire.Subscribe.{SubscribeMessage, encode_body, decode_body, encode, decode}

abbrev pub payload : SubscribeMessage → List ℕ
payload m =
    varint_bytes m.request_id
    ++ (varint_bytes m.required_request_id_delta
        ++ (namespace_bytes m.track_namespace
            ++ (varint_bytes (length m.track_name)
                ++ (m.track_name ++ parameters_bytes m.parameters))))

pub record IsValid (m : SubscribeMessage) : Type 0 where
  pub request_id : IsU64 m.request_id
  pub delta : IsU64 m.required_request_id_delta
  pub track_namespace : Namespace.IsValid m.track_namespace
  pub track_name : IsU64 (length m.track_name)
  pub parameters : AreEncodable m.parameters
  pub fits : IsU16 (length (payload m))

Writes-body : (m : SubscribeMessage) → IsValid m → Writes (encode_body m) (payload m)
unfolding encode_body
Writes-body m v = Writes-bind (Writes-varint _) (
    Writes-bind (Writes-varint _) (
      Writes-bind (Writes-namespace _ v.track_namespace) (
        Writes-bind (Writes-varint _)
          (Writes-bind (Writes-push _) (Writes-parameters _ v.parameters)))))

Reads-body : (m : SubscribeMessage) → IsValid m → Reads decode_body m (payload m)
unfolding decode_body
Reads-body m v = Reads-bind _ _ (Reads-varint _ v.request_id) (
    Reads-bind _ _ (Reads-varint _ v.delta) (
      Reads-bind _ _ (Reads-namespace _ v.track_namespace) (
        Reads-bind _ _ (Reads-varint _ v.track_name) (
          Reads-bind _ _ (Reads-split m.track_name _)
            (Reads-last _ _ (Reads-parameters _ v.parameters))))))

pub Writes-subscribe :
    (m : SubscribeMessage) → IsValid m → Writes (encode m) (message_bytes msg_subscribe (payload m))
unfolding encode
Writes-subscribe m v = Writes-framed msg_subscribe _ (Writes-body m v)

pub Reads-subscribe :
    (m : SubscribeMessage) → IsValid m → Reads decode m (message_bytes msg_subscribe (payload m))
unfolding decode
Reads-subscribe m v = Reads-framed msg_subscribe _ (payload m) (omega arith) v.fits (Reads-body m v)

-- A SUBSCRIBE message with a valid namespace, encodable parameters and a payload of at most 65535
-- bytes is read back as it was written.
pub subscribe_round_trip : (m : SubscribeMessage) → IsValid m → RoundTrips (encode m) decode m
subscribe_round_trip m v =
    (message_bytes msg_subscribe (payload m), Writes-subscribe m v, Reads-subscribe m v)
