-- ===== src/Clients/Publisher/Steps.antt =====
-- One round of `send_from_stdin`, with a group under way and between two groups.
use moqt_minimal.Prelude.{
  ℕ, ◌≡◌, ap, ◌∙◌, Bool, true, false, none, some, List, [], ◌∷◌, ◌++◌, arith,
}
use moqt_minimal.Map.{and_then}
use moqt_minimal.Session.Streams.{Sink, SubgroupWriter, open_subgroup, write_object, finish}
use moqt_minimal.Clients.Ivf.{IvfFrame}
use moqt_minimal.Clients.Publisher.{
  Sending, plus_one, take_group, end_group, open_group, write_frame, send_frame,
}

abbrev pub payload : IvfFrame → List ℕ
payload frame = frame.bytes

module _ {W : Type 0} where
  -- The state with a group under way.
  abbrev pub under : (group_id object_id stream_count : ℕ) → List W → SubgroupWriter W → Sending W
  under group_id object_id stream_count sent w = record {
    group_id = group_id;
    object_id = object_id;
    current_group = some w;
    stream_count = stream_count;
    group_started = true;
    sent = sent;
  }

  -- The state between two groups.
  abbrev pub between : (group_id object_id stream_count : ℕ) → Bool → List W → Sending W
  between group_id object_id stream_count started sent = record {
    group_id = group_id;
    object_id = object_id;
    current_group = none;
    stream_count = stream_count;
    group_started = started;
    sent = sent;
  }

module _ {W : Type 0} (sink : Sink W) (session : ℕ) where
  pub ends_group :
      (frame : IvfFrame) (g o c : ℕ) (sent : List W) (w v : SubgroupWriter W)
      → frame.is_keyframe ≡ true
      → finish sink w ≡ some v
      → end_group sink session frame (under g o c sent w)
        ≡ some (between (plus_one g) 0 (plus_one c) true (sent ++ (v.stream ∷ [])))
  unfolding end_group take_group
  ends_group frame g o c sent w v key done = ground arith

  keeps_group :
      (frame : IvfFrame) (g o c : ℕ) (sent : List W) (w : SubgroupWriter W)
      → frame.is_keyframe ≡ false
      → end_group sink session frame (under g o c sent w) ≡ some (under g o c sent w)
  unfolding end_group
  keeps_group frame g o c sent w inter = ground arith

  pub no_group :
      (frame : IvfFrame) (g o c : ℕ) (sent : List W)
      → end_group sink session frame (between g o c false sent) ≡ some (between g o c false sent)
  unfolding end_group
  no_group frame g o c sent = ground arith

  opens_group :
      (g o c : ℕ) (started : Bool) (sent : List W) (w : SubgroupWriter W)
      → open_subgroup sink session 1 g 0 ≡ some w
      → open_group sink session (between g o c started sent) ≡ some (under g o c sent w)
  unfolding open_group
  opens_group g o c started sent w e = ground arith

  writes_frame :
      (frame : IvfFrame) (g o c : ℕ) (sent : List W) (w v : SubgroupWriter W)
      → write_object sink frame.bytes w ≡ some v
      → write_frame sink session frame (under g o c sent w) ≡ some (under g (plus_one o) c sent v)
  unfolding write_frame
  writes_frame frame g o c sent w v e = ground arith

  -- A frame that begins a group, after `end_group` has left the state between two groups.
  pub sends_first :
      (frame : IvfFrame) (s : Sending W) (g o c : ℕ) (started : Bool) (sent : List W)
      (w v : SubgroupWriter W)
      → end_group sink session frame s ≡ some (between g o c started sent)
      → open_subgroup sink session 1 g 0 ≡ some w
      → write_object sink frame.bytes w ≡ some v
      → send_frame sink session frame s ≡ some (under g (plus_one o) c sent v)
  unfolding send_frame
  sends_first frame s g o c started sent w v e opens writes =
      ap
        (λ r.
          and_then r (λ s. and_then (open_group sink session s) (write_frame sink session frame)))
        e
      ∙ (ap (λ r. and_then r (write_frame sink session frame))
            (opens_group g o c started sent w opens)
          ∙ writes_frame frame g o c sent w v writes)

  pub sends_more :
      (frame : IvfFrame) (g o c : ℕ) (sent : List W) (w v : SubgroupWriter W)
      → frame.is_keyframe ≡ false
      → write_object sink frame.bytes w ≡ some v
      → send_frame sink session frame (under g o c sent w) ≡ some (under g (plus_one o) c sent v)
  unfolding send_frame open_group
  sends_more frame g o c sent w v inter writes =
      ap
        (λ r.
          and_then r (λ s. and_then (open_group sink session s) (write_frame sink session frame)))
        (keeps_group frame g o c sent w inter)
      ∙ writes_frame frame g o c sent w v writes
