-- ===== src/Clients/Pipeline.antt =====
-- The two ends of a run: the groups of a file on the stdin of moqt-pub, and what moqt-sub writes when
-- they reach it.
use moqt_minimal.Prelude.{
  ℕ, suc, ◌^◌, ◌<◌, ◌≡◌, sym, ap, ◌∙◌, true, some, List, [], ◌∷◌, ◌++◌, length, map, arith, All,
}
use mathlib.Core.Path.{subst}
use moqt_minimal.Stream.Transport.{Transport}
use moqt_minimal.Session.Events.{uni}
use moqt_minimal.Session.Streams.{Sink}
use moqt_minimal.Session.Streams.Lossless.{IsLossless}
use moqt_minimal.Clients.Ivf.{IvfFrame, ivf_header, read_ivf}
use moqt_minimal.Clients.Ivf.Frames.{Stamped, IsStamped, frame_of}
use moqt_minimal.Clients.Publisher.{send_from_stdin}
use moqt_minimal.Clients.Publisher.Groups.{groups, joined, groups-AreGroups, length-groups}
use moqt_minimal.Clients.Publisher.Sent.{payloads, AllCarry, send_from_stdin-AllCarry}
use moqt_minimal.Clients.Subscriber.{nothing_written, receive}
use moqt_minimal.Clients.Subscriber.Stdout.{ivf_frames, Deliver, Enough, IsValid, at_index}
use moqt_minimal.Clients.Subscriber.Stdout.{receive-stdout}
use moqt_minimal.Clients.Subscriber.File.{read_written}
use moqt_minimal.Clients.Delivery.{
  as_groups, all_payloads-groups, length-payloads, Fits, groups-IsValid, groups-Enough,
  map-frame_of, frames-Fits, Fits-payloads, length-frames, some_group,
}

-- What a file must be for its frames to be sent, and read again, in `fuel` rounds.
pub record IsFile (fuel : ℕ) (fs : List Stamped) : Type 0 where
  pub some_frame : 0 < length fs
  pub enough : length fs < fuel
  pub small : suc (length fs) < 2 ^ 64
  pub stamped : All IsStamped fs

-- The groups of a file.
length-grouped : (fs : List Stamped) → length (joined (groups (map frame_of fs))) ≡ length fs
length-grouped fs = ap length (groups-AreGroups (map frame_of fs)).0 ∙ length-frames fs

pub file-IsValid :
    (fuel : ℕ) (fs : List Stamped)
    → IsFile fuel fs
    → All IsValid (as_groups 0 (groups (map frame_of fs)))
file-IsValid fuel fs f =
    let frames = map frame_of fs in
    groups-IsValid 0 (groups frames)
      (omega (arith, length-groups frames, length-frames fs, f.small))
      (subst (All Fits) (sym (groups-AreGroups frames).0) (frames-Fits fs f.stamped))

pub file-Enough :
    (fuel : ℕ) (fs : List Stamped)
    → IsFile fuel fs
    → All (Enough fuel) (as_groups 0 (groups (map frame_of fs)))
file-Enough fuel fs f =
    groups-Enough 0 fuel (groups (map frame_of fs)) (omega (arith, length-grouped fs, f.enough))

-- The streams of the publisher, one for each group.
pub file-Sent :
    {W : Type 0} (sink : Sink W) (session : ℕ) (l : IsLossless sink session) (fuel : ℕ)
    (fs : List Stamped)
    → IsFile fuel fs
    → (ws : List W) × (send_from_stdin sink session (map frame_of fs)
        ≡ some (length (groups (map frame_of fs)), ws))
      × AllCarry sink session l 0 (groups (map frame_of fs)) ws
file-Sent sink session l fuel fs f =
    send_from_stdin-AllCarry sink session l (map frame_of fs)
      (omega (arith, length-frames fs, f.small))

module _ {R : Type 0} (t : Transport R) where
  -- The subscriber writes, from these streams, a file with these frames.
  abbrev pub Writes : ℕ → List R → List IvfFrame → Type 0
  Writes fuel rs frames =
      (next : ℕ) × (stdout : List ℕ) × (receive t true fuel (map uni rs) nothing_written
        ≡ some (at_index next stdout))
      × (read_ivf fuel stdout ≡ some frames)

  pub delivered-Writes :
      (fs : List Stamped) (fuel : ℕ) (rs : List R)
      → IsFile fuel fs
      → Deliver t (as_groups 0 (groups (map frame_of fs))) rs
      → Writes fuel rs (map frame_of fs)
  delivered-Writes fs fuel rs f d =
      let frames = map frame_of fs in
      let parts = (groups-AreGroups frames).0 in
      let (next, e) =
        receive-stdout t (as_groups 0 (groups frames)) rs fuel
          (some_group (groups frames) (omega (arith, length-grouped fs, f.some_frame)))
          (file-IsValid fuel fs f) (file-Enough fuel fs f) d in
      let written = all_payloads-groups 0 (groups frames) ∙ ap payloads parts in
      (
        next,
        ivf_header ++ ivf_frames 0 (payloads frames),
        e ∙ ap (λ ps. some (at_index next (ivf_header ++ ivf_frames 0 ps))) written,
        read_written (payloads frames) fuel
              (omega (arith, length-payloads frames, length-frames fs, f.enough))
              (Fits-payloads frames (frames-Fits fs f.stamped))
            ∙ ap some (map-frame_of fs),
      )

module _ {W R : Type 0} (sink : Sink W) (session : ℕ) (l : IsLossless sink session)
    (t : Transport R) where
  -- The streams that the publisher has written are those that the subscriber gets, in their order.
  abbrev pub Connected : List W → List R → Type 0
  Connected [] [] = Unit
  Connected [] (r ∷ rs) = ⊥
  Connected (w ∷ ws) [] = ⊥
  Connected (w ∷ ws) (r ∷ rs) = (t.pending r ≡ l.content w) × Connected ws rs

  pub carried-Deliver :
      (i : ℕ) (gs : List (List IvfFrame)) (ws : List W) (rs : List R)
      → AllCarry sink session l i gs ws
      → Connected ws rs
      → Deliver t (as_groups i gs) rs
  carried-Deliver i [] [] [] c k = tt
  carried-Deliver i [] [] (r ∷ rs) c k = elim k [ ]
  carried-Deliver i [] (w ∷ ws) rs c k = elim c [ ]
  carried-Deliver i (g ∷ gs) [] rs c k = elim c [ ]
  carried-Deliver i (g ∷ gs) (w ∷ ws) [] c k = elim k [ ]
  carried-Deliver i (g ∷ gs) (w ∷ ws) (r ∷ rs) c k =
      (k.0 ∙ c.0.content, carried-Deliver (suc i) gs ws rs c.1 k.1)
