-- ===== src/Clients/Subscriber.antt =====
-- moqt-sub/src/main.rs: the receive loop, which writes the objects of the groups to stdout as an IVF
-- file in pipe mode, and reports them on stderr in demo mode.
pub mod Stdout
pub mod Stderr
pub mod File
use moqt_minimal.Prelude.{
  ℕ, zero, suc, ◌+◌, ◌%◌, ◌^◌, Bool, true, false, not, Option, none, some, List, [], ◌∷◌, ◌++◌,
  length, if◌then◌else◌,
}
use moqt_minimal.Map.{and_then}
use moqt_minimal.Buffer.{Result, ok, err}
use moqt_minimal.Stream.Transport.{Transport}
use moqt_minimal.Session.Events.{
  SubgroupReader, Arrival, SessionEvent, subscribe, publish_namespace, data_stream, next_event,
  read_object,
}
use moqt_minimal.Clients.Ivf.{ivf_header, ivf_frame}

-- What demo mode reports, less the words around the numbers.
pub data Line : Type 0 where
  group_line : (group_id track_alias : ℕ) → Line
  object_line : (object_id size : ℕ) → Line

-- The variables of the task, and what it has written to stdout and stderr; the result of a write is
-- dropped in the source, and stdout here takes every byte.
pub record Output : Type 0 where
  pub ivf_header_written : Bool
  pub frame_index : ℕ
  pub stdout : List ℕ
  pub stderr : List Line

unfoldable pub nothing_written : Output
nothing_written = record { ivf_header_written = false; frame_index = 0; stdout = []; stderr = [] }

unfoldable pub write_header : Output → Output
write_header out =
    if not out.ivf_header_written
    then record out { stdout = out.stdout ++ ivf_header; ivf_header_written = true }
    else out

unfoldable pub write_payload : List ℕ → Output → Output
write_payload payload out = record out {
  stdout = out.stdout ++ ivf_frame out.frame_index payload;
  frame_index = (out.frame_index + 1) % 2 ^ 64;
}

unfoldable pub report : Line → Output → Output
report line out = record out { stderr = out.stderr ++ (line ∷ []) }

module _ {R : Type 0} (t : Transport R) where
  -- `while let Ok(Some(payload)) = group.read_object()`; none only where the model's rounds run out.
  unfoldable pub write_group : ℕ → SubgroupReader R → Output → Option Output
  unfolding write_payload
  write_group zero group out = none
  write_group (suc fuel) group out = elim (read_object t group) [
    | err e ↦ some out
    | ok (none, group) ↦ some out
    | ok (some payload, group) ↦ write_group fuel group (write_payload payload out)
  ]

  -- The same loop of demo mode.
  unfoldable pub show_group : ℕ → SubgroupReader R → ℕ → Output → Option Output
  unfolding report
  show_group zero group object_id out = none
  show_group (suc fuel) group object_id out = elim (read_object t group) [
    | err e ↦ some out
    | ok (none, group) ↦ some out
    | ok (some payload, group) ↦
        show_group fuel group ((object_id + 1) % 2 ^ 64)
          (report (object_line object_id (length payload)) out)
  ]

  -- What is done with one group.
  unfoldable pub receive_group : Bool → ℕ → SubgroupReader R → Output → Option Output
  unfolding write_group write_header show_group report
  receive_group pipe_mode fuel group out =
      if pipe_mode
      then write_group fuel group (write_header out)
      else show_group fuel group 0
          (report (group_line group.header.group_id group.header.track_alias) out)

  -- The loop over `next_event`: a data stream is received, another event is ignored, and an error
  -- ends the loop, as the end of the connection does. The next streams wait until this one ends.
  unfoldable pub receive : Bool → ℕ → List (Arrival R) → Output → Option Output
  unfolding receive_group
  receive pipe_mode fuel [] out = some out
  receive pipe_mode fuel (arrival ∷ arrivals) out = elim (next_event t arrival) [
    | err e ↦ some out
    | ok (subscribe m) ↦ receive pipe_mode fuel arrivals out
    | ok (publish_namespace m) ↦ receive pipe_mode fuel arrivals out
    | ok (data_stream group) ↦
        and_then (receive_group pipe_mode fuel group out) (receive pipe_mode fuel arrivals)
  ]
