-- ===== src/Clients/Relayed.antt =====
-- From the stdin of moqt-pub through moqt-relay to the stdout of moqt-sub.
use moqt_minimal.Prelude.{
  ℕ, suc, ◌<◌, ◌≡◌, refl, true, none, some, List, [], ◌∷◌, ◌++◌, length, map, arith, All,
}
use mathlib.Core.Path.{subst}
use moqt_minimal.Buffer.{ok}
use moqt_minimal.Stream.Transport.{Transport}
use moqt_minimal.Session.Subgroups.{subgroup_header}
use moqt_minimal.Session.Subgroups.Payloads.{as_object, objects-IsValid, length-objects}
use moqt_minimal.Session.Events.{SubgroupReader, uni, data_stream, next_event}
use moqt_minimal.Session.Events.Received.{group_bytes, at_stream, next_event-data_stream}
use moqt_minimal.Session.Streams.{Sink}
use moqt_minimal.Session.Streams.Lossless.{IsLossless}
use moqt_minimal.Stream.Data.{DataStreamReader}
use moqt_minimal.Relay.State.{RelayState, SessionId, find_subscriber_sessions}
use moqt_minimal.Relay.State.Membership.{In}
use moqt_minimal.Relay.DataStream.{handle_data_stream}
use moqt_minimal.Relay.DataStream.Delivered.{handle_data_stream-delivered}
use moqt_minimal.Clients.Ivf.{IvfFrame, read_ivf}
use moqt_minimal.Clients.Ivf.Frames.{Stamped, frames_bytes, frame_of, BrokenOff, read_ivf-frames}
use moqt_minimal.Clients.Publisher.{send_from_stdin}
use moqt_minimal.Clients.Publisher.Groups.{groups}
use moqt_minimal.Clients.Publisher.Sent.{payloads, AllCarry}
use moqt_minimal.Clients.Subscriber.Stdout.{IsValid, Enough, Deliver}
use moqt_minimal.Clients.Delivery.{as_groups}
use moqt_minimal.Clients.Pipeline.{
  IsFile, Writes, Connected, carried-Deliver, delivered-Writes, file-IsValid, file-Enough,
  file-Sent,
}

alias_one : (i : ℕ) → 1 ≡ (subgroup_header 1 i 0).track_alias
unfolding subgroup_header
alias_one i = refl

-- The relay: what it reads, the streams that it opens, and its state.
module _ {R V : Type 0} (t : Transport R) (out : Sink V) (sender : SessionId) (s : RelayState) where
  -- The relay takes the stream `r` for a data stream and leaves `v` among the streams that it has
  -- written.
  pub record Passes (fuel : ℕ) (r : R) (v : V) : Type 0 where
    pub group : SubgroupReader R
    pub writers : List V
    pub event : next_event t (uni r) ≡ ok (data_stream group)
    pub left : DataStreamReader R
    pub handled :
        handle_data_stream t out fuel sender group.header group.reader s
        ≡ (none, writers, some left)
    pub read : t.pending left.stream ≡ []
    pub among : In v writers

  abbrev pub AllPass : ℕ → List R → List V → Type 0
  AllPass fuel [] [] = Unit
  AllPass fuel [] (v ∷ vs) = ⊥
  AllPass fuel (r ∷ rs) [] = ⊥
  AllPass fuel (r ∷ rs) (v ∷ vs) = Passes fuel r v × AllPass fuel rs vs

  module _ (receiver : ℕ) (l : IsLossless out receiver) where
    group-Passes :
        (i fuel : ℕ) (ps : List (List ℕ)) (r : R)
        → In receiver (find_subscriber_sessions sender 1 s)
        → IsValid (record { header = subgroup_header 1 i 0; payloads = ps })
        → length ps < fuel
        → t.pending r ≡ group_bytes (subgroup_header 1 i 0) ps
        → (v : V) × Passes fuel r v
          × (l.content v ≡ group_bytes (subgroup_header 1 i 0) ps)
          × (l.ended v ≡ true)
    group-Passes i fuel ps r subscribed valid enough p =
        let h = subgroup_header 1 i 0 in
        let (u, event, left) = next_event-data_stream t h r _ valid.header p in
        let (ws, rest, handled, empty, (v, among, content, ended)) =
          handle_data_stream-delivered out receiver l t sender h h.has_properties (map as_object ps)
            u fuel s
            (subst (λ a. In receiver (find_subscriber_sessions sender a s)) (alias_one i)
              subscribed)
            (omega (arith, length-objects ps, enough)) (objects-IsValid ps valid.payloads) left in
        (
          v,
          record {
            group = at_stream h u;
            writers = ws;
            left = rest;
            read = empty;
            event = event;
            handled = handled;
            among = among;
          },
          content,
          ended,
        )

    groups-AllPass :
        (i fuel : ℕ) (gs : List (List IvfFrame)) (rs : List R)
        → In receiver (find_subscriber_sessions sender 1 s)
        → All IsValid (as_groups i gs)
        → All (Enough fuel) (as_groups i gs)
        → Deliver t (as_groups i gs) rs
        → (vs : List V) × AllPass fuel rs vs × AllCarry out receiver l i gs vs
    groups-AllPass i fuel [] [] subscribed valid enough d = ([], tt, tt)
    groups-AllPass i fuel [] (r ∷ rs) subscribed valid enough d = elim d [ ]
    groups-AllPass i fuel (g ∷ gs) [] subscribed valid enough d = elim d [ ]
    groups-AllPass i fuel (g ∷ gs) (r ∷ rs) subscribed valid enough d =
        let (v, passes, content, ended) =
          group-Passes i fuel (payloads g) r subscribed valid.0 enough.0 d.0 in
        let (vs, all, carry) = groups-AllPass (suc i) fuel gs rs subscribed valid.1 enough.1 d.1 in
        (v ∷ vs, (passes, all), (record { content = content; ended = ended }, carry))

module _ {W R V Q : Type 0} (sink : Sink W) (session : ℕ) (l : IsLossless sink session)
    (t : Transport R) (out : Sink V) (sender : SessionId) (s : RelayState) (receiver : ℕ)
    (k : IsLossless out receiver) (t2 : Transport Q) where
  -- The frames of one run: what the publisher has sent, what the relay has copied for the
  -- subscriber, and what the subscriber has written.
  pub record Arrives (fuel : ℕ) (stdin : List ℕ) (frames : List IvfFrame) : Type 0 where
    pub read : read_ivf fuel stdin ≡ some frames
    pub streams : List W
    pub sent : send_from_stdin sink session frames ≡ some (length (groups frames), streams)
    pub relayed :
        (rs : List R)
        → Connected sink session l t streams rs
        → (vs : List V) × AllPass t out sender s fuel rs vs
          × ((qs : List Q) → Connected out receiver k t2 vs qs → Writes t2 fuel qs frames)

  -- An IVF file with at least one frame that stands on the publisher's stdin reaches a subscriber
  -- through the relay, while it is subscribed to the publisher's track, when the publisher's and
  -- the subscriber's sessions stay connected: the publisher sends it group by group; the relay takes
  -- each of the streams for a data stream and handles it without an error, whatever becomes of its
  -- streams to other subscribers, and among the streams that it has written is one that, when the
  -- subscriber gets these in the publisher's order, makes it write an IVF file with the same frames
  -- in the same order. A frame in which the first file breaks off is not sent.
  pub frames-Arrives :
      (file_header : List ℕ) (fs : List Stamped) (tail : List ℕ) (fuel : ℕ)
      → length file_header ≡ 32
      → IsFile fuel fs
      → BrokenOff tail
      → In receiver (find_subscriber_sessions sender 1 s)
      → Arrives fuel (file_header ++ (frames_bytes fs ++ tail)) (map frame_of fs)
  frames-Arrives file_header fs tail fuel h f broken subscribed =
      let gs = groups (map frame_of fs) in
      let (ws, sent, carry) = file-Sent sink session l fuel fs f in
      record {
        read = read_ivf-frames file_header fs tail fuel h f.enough f.stamped broken;
        streams = ws;
        sent = sent;
        relayed = λ rs c.
            let (vs, pass, copies) =
              groups-AllPass t out sender s receiver k 0 fuel gs rs subscribed
                (file-IsValid fuel fs f) (file-Enough fuel fs f)
                (carried-Deliver sink session l t 0 gs ws rs carry c) in
            (
              vs,
              pass,
              λ qs d.
                  delivered-Writes t2 fs fuel qs f
                    (carried-Deliver out receiver k t2 0 gs vs qs copies d),
            );
      }
