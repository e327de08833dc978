-- ===== src/Session/Events.antt =====
-- moqt-core/src/session/: `next_event` of mod.rs, which makes an event of what the peer opens, and
-- the SubgroupReader of subgroup.rs.
pub mod Received
use moqt_minimal.Prelude.{ℕ, Option, none, some, List}
use moqt_minimal.Buffer.{Result, ok, err, connection_closed}
use moqt_minimal.Wire.Subscribe.{SubscribeMessage}
use moqt_minimal.Wire.PublishNamespace.{PublishNamespaceMessage}
use moqt_minimal.Wire.SubgroupHeader.{SubgroupHeader}
use moqt_minimal.Stream.Transport.{Transport}
use moqt_minimal.Stream.Data
use moqt_minimal.Stream.Data.{DataStreamReader, RawObject, read_subgroup_header}
use moqt_minimal.Session.Requests.{
  Request, subscribe_request, publish_namespace_request, next_request,
}

pub record SubgroupReader (R : Type 0) : Type 0 where
  pub header : SubgroupHeader
  pub reader : DataStreamReader R

-- What `accept_bi` and `accept_uni` give: the peer's streams in the order in which `select!` takes
-- them, or an error.
pub data Arrival (R : Type 0) : Type 0 where
  bi : R → Arrival R
  uni : R → Arrival R
  closed : Arrival R

pub data SessionEvent (R : Type 0) : Type 0 where
  subscribe : SubscribeMessage → SessionEvent R
  publish_namespace : PublishNamespaceMessage → SessionEvent R
  data_stream : SubgroupReader R → SessionEvent R

module _ {R : Type 0} where
  abbrev pub of_request : Result (Request × R) → Result (SessionEvent R)
  of_request (ok (subscribe_request m, r)) = ok (subscribe m)
  of_request (ok (publish_namespace_request m, r)) = ok (publish_namespace m)
  of_request (err e) = err e

  abbrev pub of_header :
      Result ((SubgroupHeader × List ℕ) × DataStreamReader R) → Result (SessionEvent R)
  of_header (ok ((header, raw), reader)) =
      ok (data_stream (record { header = header; reader = reader }))
  of_header (err e) = err e

  abbrev pub payload_of :
      SubgroupHeader
      → Result (Option RawObject × DataStreamReader R)
      → Result (Option (List ℕ) × SubgroupReader R)
  payload_of h (ok (some (header, payload, header_bytes), reader)) =
      ok (some payload, record { header = h; reader = reader })
  payload_of h (ok (none, reader)) = ok (none, record { header = h; reader = reader })
  payload_of h (err e) = err e

module _ {R : Type 0} (t : Transport R) where
  unfoldable pub next_event : Arrival R → Result (SessionEvent R)
  next_event (bi recv) = of_request (next_request t recv)
  next_event (uni recv) = of_header (read_subgroup_header t (Data.new recv))
  next_event closed = err connection_closed

  -- SubgroupReader::read_object: the payload alone.
  unfoldable pub read_object : SubgroupReader R → Result (Option (List ℕ) × SubgroupReader R)
  read_object group = payload_of group.header (Data.read_object t group.reader)
