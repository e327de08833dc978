-- ===== src/Session/Streams.antt =====
-- moqt-core/src/session/: `open_data_stream` and `open_subgroup` of mod.rs and the SubgroupWriter of
-- subgroup.rs, on streams whose calls may fail.
pub mod Lossless
pub mod Logs
use moqt_minimal.Prelude.{ℕ, Bool, true, false, Option, none, some, List, [], if◌then◌else◌}
use mathlib.Core.Option
use moqt_minimal.Buffer.{Result, ok, err}
use moqt_minimal.Wire.SubgroupHeader
use moqt_minimal.Wire.SubgroupHeader.{SubgroupHeader}
use moqt_minimal.Stream.Data.{encode_object}
use moqt_minimal.Session.Subgroups.{subgroup_header, payload_header, appended}

-- What is used of web_transport_quinn's SendStream: `open_uni` of the session with the given
-- address, `write_all` and `finish`; a Bool tells whether the call succeeded.
pub record Sink (W : Type 0) : Type 0 where
  pub open_uni : ℕ → Option W
  pub write_all : List ℕ → W → Bool × W
  pub finish : W → Bool × W

-- Where an action appends to an empty vector.
abbrev pub written : Result (Unit {0} × List ℕ) → List ℕ
written (ok (u, bytes)) = bytes
written (err e) = []

-- The writer with its stream.
pub record SubgroupWriter (W : Type 0) : Type 0 where
  pub stream : W
  pub finished : Bool

module _ {W : Type 0} where
  abbrev pub if_written : Bool × W → Option W
  if_written (true, w) = some w
  if_written (false, w) = none

  abbrev pub as_writer : Option W → Option (SubgroupWriter W)
  as_writer none = none
  as_writer (some w) = some (record { stream = w; finished = false })

  abbrev pub restored : Bool → Option W → Option (SubgroupWriter W)
  restored finished none = none
  restored finished (some w) = some (record { stream = w; finished = finished })

module _ {W : Type 0} (sink : Sink W) where
  abbrev pub with_header : SubgroupHeader → Option W → Option W
  with_header header none = none
  with_header header (some w) =
      if_written (sink.write_all (written (SubgroupHeader.encode header [])) w)

  -- MoqtSession::open_data_stream.
  unfoldable pub open_data_stream : SubgroupHeader → ℕ → Option W
  open_data_stream header session = with_header header (sink.open_uni session)

  unfoldable pub open_subgroup :
      ℕ → (track_alias group_id subgroup_id : ℕ) → Option (SubgroupWriter W)
  open_subgroup session track_alias group_id subgroup_id =
      as_writer (open_data_stream (subgroup_header track_alias group_id subgroup_id) session)

  -- With the error of `?`, the value is none.
  unfoldable pub write_object : List ℕ → SubgroupWriter W → Option (SubgroupWriter W)
  write_object payload w = restored w.finished (
      if_written
        (sink.write_all (appended (encode_object (payload_header payload) payload [])) w.stream))

  unfoldable pub finish : SubgroupWriter W → Option (SubgroupWriter W)
  finish w = elim w.finished [
    | true ↦ some w
    | false ↦ restored true (if_written (sink.finish w.stream))
  ]
