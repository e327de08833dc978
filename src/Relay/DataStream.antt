-- ===== src/Relay/DataStream.antt =====
-- moqt-relay/src/relay.rs, handle_data_stream: a publisher's data stream is copied to the streams
-- of the subscribers.
pub mod Forwarding
pub mod Delivered
pub mod Early
use moqt_minimal.Prelude.{
  ℕ, zero, suc, Bool, true, false, Option, none, some, List, [], ◌∷◌, is_empty, if◌then◌else◌,
}
use moqt_minimal.Buffer.{Error, Result, ok, err, Action, out_of_fuel}
use moqt_minimal.Wire.SubgroupHeader
use moqt_minimal.Wire.SubgroupHeader.{SubgroupHeader}
use moqt_minimal.Stream.Transport.{Transport}
use moqt_minimal.Stream.Data.{DataStreamReader, RawObject, read_object}
use moqt_minimal.Session.Streams.{Sink, if_written, open_data_stream}
use moqt_minimal.Relay.State.{RelayState, SessionId, SessionRef, find_subscriber_sessions}

module _ {W : Type 0} (sink : Sink W) where
  -- `for session in &sub_sessions`; a stream that does not open is left out.
  unfoldable pub open_writers : SubgroupHeader → List SessionRef → List W
  open_writers header [] = []
  open_writers header (session ∷ sessions) =
      let rest = open_writers header sessions in
      elim (open_data_stream sink header session) [ none ↦ rest | some w ↦ w ∷ rest ]

  abbrev pub then_write : List ℕ → Option W → Option W
  then_write bytes none = none
  then_write bytes (some w) = if_written (sink.write_all bytes w)

  -- `w.write_raw(&obj_header_bytes)` and then `w.write_raw(&payload)`.
  unfoldable pub write_object : RawObject → W → Option W
  write_object (header, payload, header_bytes) w =
      then_write payload (if_written (sink.write_all header_bytes w))

  -- `for writer in active_writers`: those that failed are left out.
  unfoldable pub write_to_all : RawObject → List W → List W
  write_to_all object [] = []
  write_to_all object (w ∷ ws) =
      let rest = write_to_all object ws in
      elim (write_object object w) [ none ↦ rest | some w ↦ w ∷ rest ]

  unfoldable pub finish_all : List W → List W
  finish_all [] = []
  finish_all (w ∷ ws) = (sink.finish w).1 ∷ finish_all ws

-- What the task leaves: the error of a `?`, if there is one; the streams that it still writes to; and
-- the publisher's stream, unless reading has ended with an error.
abbrev pub Handled : Type 0 → Type 0 → Type 0
Handled R W = Option Error × List W × Option (DataStreamReader R)

module _ {R W : Type 0} (t : Transport R) (sink : Sink W) where
  -- `while let Some(…) = read_object_raw().await?`, and the ends of the streams.
  unfoldable pub relay_objects : ℕ → DataStreamReader R → List W → Handled R W
  relay_objects zero reader writers = (some out_of_fuel, writers, some reader)
  relay_objects (suc fuel) reader writers = elim (read_object t reader) [
    | err e ↦ (some e, writers, none)
    | ok (none, reader) ↦ (none, finish_all sink writers, some reader)
    | ok (some object, reader) ↦ relay_objects fuel reader (write_to_all sink object writers)
  ]

  -- `while let Ok(Some(_)) = …`, whose errors only end the loop.
  unfoldable pub drain : ℕ → DataStreamReader R → Handled R W
  drain zero reader = (some out_of_fuel, [], some reader)
  drain (suc fuel) reader = elim (read_object t reader) [
    | err e ↦ (none, [], none)
    | ok (none, reader) ↦ (none, [], some reader)
    | ok (some object, reader) ↦ drain fuel reader
  ]

  unfoldable pub handle_data_stream :
      ℕ → SessionId → SubgroupHeader → DataStreamReader R → RelayState → Handled R W
  handle_data_stream fuel sender header reader s =
      let sessions = find_subscriber_sessions sender header.track_alias s in
      if is_empty sessions
      then drain fuel reader
      else relay_objects fuel reader (open_writers sink header sessions)
