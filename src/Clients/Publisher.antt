-- ===== src/Clients/Publisher.antt =====
-- moqt-pub/src/main.rs: the frames of stdin as groups, one stream for each, and the demo groups.
pub mod Groups
pub mod Steps
pub mod Sent
pub mod Demo
pub mod Published
use moqt_minimal.Prelude.{
  ℕ, zero, suc, ◌+◌, ◌%◌, ◌^◌, Bool, true, false, ◌&&◌, Option, none, some, List, [], ◌∷◌, ◌++◌,
  if◌then◌else◌,
}
use moqt_minimal.Map.{and_then}
use moqt_minimal.Session.Streams.{Sink, SubgroupWriter, open_subgroup, write_object, finish}
use moqt_minimal.Clients.Ivf.{IvfFrame, read_ivf}

-- The variables of `send_from_stdin`, and the streams of the groups that it has finished.
pub record Sending (W : Type 0) : Type 0 where
  pub group_id : ℕ
  pub object_id : ℕ
  pub current_group : Option (SubgroupWriter W)
  pub stream_count : ℕ
  pub group_started : Bool
  pub sent : List W

abbrev pub plus_one : ℕ → ℕ
plus_one v = (v + 1) % 2 ^ 64

module _ {W : Type 0} where
  unfoldable pub start : Sending W
  start = record {
    group_id = 0;
    object_id = 0;
    current_group = none;
    stream_count = 0;
    group_started = false;
    sent = [];
  }

  abbrev pub taken : Sending W → Option (SubgroupWriter W) → Option (Sending W)
  taken s none = none
  taken s (some w) = some (record s { current_group = none; sent = s.sent ++ (w.stream ∷ []) })

  abbrev pub opened : Sending W → Option (SubgroupWriter W) → Option (Sending W)
  opened s none = none
  opened s (some w) = some (record s { current_group = some w; group_started = true })

  abbrev pub written : Sending W → Option (SubgroupWriter W) → Option (Sending W)
  written s none = none
  written s (some w) = some (record s { current_group = some w; object_id = plus_one s.object_id })

  abbrev pub counted : Sending W → Sending W
  counted s = record s { stream_count = plus_one s.stream_count }

  abbrev pub next_group : Sending W → Sending W
  next_group s = record s {
    stream_count = plus_one s.stream_count;
    group_id = plus_one s.group_id;
    object_id = 0;
  }

  abbrev pub result : Sending W → Option (ℕ × List W)
  result s = some (s.stream_count, s.sent)

module _ {W : Type 0} (sink : Sink W) (session : ℕ) where
  -- `if let Some(mut group) = current_group.take()`; none is the error of `?`, here and below.
  unfoldable pub take_group : Sending W → Option (Sending W)
  take_group s = elim s.current_group [ none ↦ some s | some w ↦ taken s (finish sink w) ]

  unfoldable pub end_group : IvfFrame → Sending W → Option (Sending W)
  unfolding take_group
  end_group frame s =
      if frame.is_keyframe && s.group_started
      then and_then (take_group s) (λ (s : Sending W). some (next_group s))
      else some s

  unfoldable pub open_group : Sending W → Option (Sending W)
  open_group s = elim s.current_group [
    | none ↦ opened s (open_subgroup sink session 1 s.group_id 0)
    | some w ↦ some s
  ]

  unfoldable pub write_frame : IvfFrame → Sending W → Option (Sending W)
  write_frame frame s = elim s.current_group [
    | none ↦ some s
    | some w ↦ written s (write_object sink frame.bytes w)
  ]

  -- `while let Some(frame) = frame_rx.recv().await`.
  unfoldable pub send_frame : IvfFrame → Sending W → Option (Sending W)
  unfolding end_group open_group write_frame
  send_frame frame s =
      and_then (end_group frame s) (λ (s : Sending W). and_then (open_group s) (write_frame frame))

  unfoldable pub send_frames : List IvfFrame → Sending W → Option (Sending W)
  unfolding send_frame
  send_frames [] s = some s
  send_frames (frame ∷ frames) s = and_then (send_frame frame s) (send_frames frames)

  -- The last group.
  unfoldable pub close_group : Sending W → Option (Sending W)
  close_group s = elim s.current_group [
    | none ↦ some s
    | some w ↦ and_then (taken s (finish sink w)) (λ (s : Sending W). some (counted s))
  ]

  -- The count that is returned, and the streams.
  unfoldable pub send_from_stdin : List IvfFrame → Option (ℕ × List W)
  unfolding send_frames close_group start
  send_from_stdin frames = and_then (and_then (send_frames frames start) close_group) result
