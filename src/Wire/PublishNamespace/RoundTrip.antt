-- ===== src/Wire/PublishNamespace/RoundTrip.antt =====
-- PUBLISH_NAMESPACE: the two directions of moqt-core/src/wire/publish_namespace.rs.
use moqt_minimal.Prelude.{List, [], ◌++◌, length, IsU16, IsU64, arith, ℕ}
use moqt_minimal.Buffer.{RoundTrips, Writes, Writes-bind, Reads, Reads-bind, Reads-last}
use moqt_minimal.Wire.Varint.{varint_bytes}
use moqt_minimal.Wire.Varint.RoundTrip.{Writes-varint, Reads-varint}
use moqt_minimal.Wire.Message.{msg_publish_namespace}
use moqt_minimal.Wire.Message.Frame.{message_bytes}
use moqt_minimal.Wire.Message.Framed.{Writes-framed, Reads-framed}
use moqt_minimal.Wire.TrackNamespace.RoundTrip as Namespace
use moqt_minimal.Wire.TrackNamespace.RoundTrip.{namespace_bytes, Writes-namespace, Reads-namespace}
use moqt_minimal.Wire.Parameter.RoundTrip.{parameters_bytes, Writes-parameters, Reads-parameters}
use moqt_minimal.Wire.PublishNamespace.{
  PublishNamespaceMessage, encode_body, decode_body, encode, decode,
}

abbrev pub payload : PublishNamespaceMessage → List ℕ
payload m =
    varint_bytes m.request_id
    ++ (varint_bytes m.required_request_id_delta
        ++ (namespace_bytes m.track_namespace ++ parameters_bytes []))

pub record IsValid (m : PublishNamespaceMessage) : Type 0 where
  pub request_id : IsU64 m.request_id
  pub delta : IsU64 m.required_request_id_delta
  pub track_namespace : Namespace.IsValid m.track_namespace
  pub fits : IsU16 (length (payload m))

Writes-body : (m : PublishNamespaceMessage) → IsValid m → Writes (encode_body m) (payload m)
unfolding encode_body
Writes-body m v = Writes-bind (Writes-varint _) (
    Writes-bind (Writes-varint _) (
      Writes-bind (Writes-namespace _ v.track_namespace)
        (Writes-parameters [] (omega arith, tt, tt))))

Reads-body : (m : PublishNamespaceMessage) → IsValid m → Reads decode_body m (payload m)
unfolding decode_body
Reads-body m v = Reads-bind _ _ (Reads-varint _ v.request_id) (
    Reads-bind _ _ (Reads-varint _ v.delta) (
      Reads-bind _ _ (Reads-namespace _ v.track_namespace)
        (Reads-last _ _ (Reads-parameters [] (omega arith, tt, tt)))))

pub Writes-publish_namespace :
    (m : PublishNamespaceMessage)
    → IsValid m
    → Writes (encode m) (message_bytes msg_publish_namespace (payload m))
unfolding encode
Writes-publish_namespace m v = Writes-framed msg_publish_namespace _ (Writes-body m v)

pub Reads-publish_namespace :
    (m : PublishNamespaceMessage)
    → IsValid m
    → Reads decode m (message_bytes msg_publish_namespace (payload m))
unfolding decode
Reads-publish_namespace m v =
    Reads-framed msg_publish_namespace _ (payload m) (omega arith) v.fits (Reads-body m v)

-- A PUBLISH_NAMESPACE message with a valid namespace and a payload of at most 65535 bytes is read
-- back as it was written.
pub publish_namespace_round_trip :
    (m : PublishNamespaceMessage) → IsValid m → RoundTrips (encode m) decode m
publish_namespace_round_trip m v = (
  message_bytes msg_publish_namespace (payload m),
  Writes-publish_namespace m v,
  Reads-publish_namespace m v,
)
