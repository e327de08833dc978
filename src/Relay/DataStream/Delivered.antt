-- ===== src/Relay/DataStream/Delivered.antt =====
-- handle_data_stream of moqt-relay/src/relay.rs, seen by one subscriber that stays connected.
use moqt_minimal.Prelude.{
  ℕ, ◌<◌, ◌≡◌, refl, sym, ap, ◌∙◌, Bool, true, false, Option, none, some, List, [], ◌∷◌, ◌++◌, All,
  map, length, append_assoc, append-nil, if◌then◌else◌,
}
use mathlib.Core.Path.{subst}
use moqt_minimal.Map.{and_then}
use moqt_minimal.Wire.Varint.{varint_bytes}
use moqt_minimal.Wire.SubgroupHeader.{SubgroupHeader}
use moqt_minimal.Wire.SubgroupHeader.RoundTrip.{header_bytes}
use moqt_minimal.Stream.Transport.{Transport}
use moqt_minimal.Stream.Data.{DataStreamReader, RawObject}
use moqt_minimal.Stream.Data.Objects.{
  Object, IsValid, as_read, stream_bytes, object_bytes, raw_header, properties_bytes,
}
use moqt_minimal.Session.Streams.{Sink, if_written, open_data_stream}
use moqt_minimal.Session.Streams.Lossless.{IsLossless, open_data_stream-header}
use moqt_minimal.Relay.State.{RelayState, SessionId, find_subscriber_sessions}
use moqt_minimal.Relay.State.Membership.{In, here, there, In-filled}
use moqt_minimal.Relay.DataStream.{
  open_writers, then_write, write_object, finish_all, handle_data_stream, drain, relay_objects,
}
use moqt_minimal.Relay.DataStream.Forwarding.{fed, fed_all, kept, relay_objects-fed}

module _ {W : Type 0} (sink : Sink W) where
  opened_next :
      (h : SubgroupHeader) (first : ℕ) (sessions : List ℕ) {w : W}
      → In w (open_writers sink h sessions)
      → In w (open_writers sink h (first ∷ sessions))
  unfolding open_writers
  opened_next h first sessions {w} i =
      elim (open_data_stream sink h first)
        as (λ o. In w (elim o [
          | none ↦ open_writers sink h sessions
          | some v ↦ v ∷ open_writers sink h sessions
        ])) [ none ↦ i | some v ↦ there i ]

  opened_first :
      (h : SubgroupHeader) (session : ℕ) (sessions : List ℕ) {w : W}
      → open_data_stream sink h session ≡ some w
      → In w (open_writers sink h (session ∷ sessions))
  unfolding open_writers
  opened_first h session sessions {w} e =
      subst
        (λ o. In w (elim o [
          | none ↦ open_writers sink h sessions
          | some v ↦ v ∷ open_writers sink h sessions
        ]))
        (sym e) here

  In-open_writers :
      (h : SubgroupHeader) {session : ℕ} {sessions : List ℕ} {w : W}
      → open_data_stream sink h session ≡ some w
      → In session sessions
      → In w (open_writers sink h sessions)
  In-open_writers h e (here {xs}) = opened_first h _ xs e
  In-open_writers h e (there {x} {xs} i) = opened_next h x xs (In-open_writers h e i)

  In-kept_rest : (o : Option W) {w : W} {ws : List W} → In w ws → In w (kept sink o ws)
  In-kept_rest none i = i
  In-kept_rest (some v) i = there i

  In-fed_all :
      (os : List RawObject) {w v : W} {ws : List W}
      → fed sink os w ≡ some v
      → In w ws
      → In v (fed_all sink os ws)
  unfolding fed_all
  In-fed_all os {v = v} e (here {xs}) =
      subst (λ o. In v (kept sink o (fed_all sink os xs))) (sym e) here
  In-fed_all os e (there {x} i) = In-kept_rest (fed sink os x) (In-fed_all os e i)

  In-finish_all : {w : W} {ws : List W} → In w ws → In (sink.finish w).1 (finish_all sink ws)
  unfolding finish_all
  In-finish_all here = here
  In-finish_all (there i) = there (In-finish_all i)

raw-object :
    (b : Bool) (o : Object) (before : List ℕ)
    → (before ++ raw_header b o) ++ o.payload ≡ before ++ object_bytes b o
raw-object b o before =
    append_assoc before (raw_header b o) o.payload
    ∙ ap (λ (t : List ℕ). before ++ t)
        (append_assoc (varint_bytes o.delta) _ o.payload
          ∙ ap (λ (t : List ℕ). varint_bytes o.delta ++ t)
              (append_assoc (varint_bytes (length o.payload)) (properties_bytes b o.properties)
                o.payload))

module _ {W : Type 0} (sink : Sink W) (session : ℕ) (l : IsLossless sink session) where
  -- A stream under way that holds `bytes`.
  abbrev IsOpen : List ℕ → W → Type 0
  IsOpen bytes w = (l.content w ≡ bytes) × (l.ended w ≡ false)

  writes_object :
      (b : Bool) (o : Object) (bytes : List ℕ) (w : W)
      → IsOpen bytes w
      → (v : W) × (write_object sink (as_read b o) w ≡ some v)
        × IsOpen (bytes ++ object_bytes b o) v
  unfolding write_object
  writes_object b o bytes w (c, n) =
      let (u, e, cu, nu) = l.writes (raw_header b o) w n in
      let (v, d, cv, nv) = l.writes o.payload u nu in
      (
        v,
        ap (λ r. then_write sink o.payload (if_written r)) e ∙ ap if_written d,
        (
          cv
              ∙ (ap (λ (t : List ℕ). t ++ o.payload)
                    (cu ∙ ap (λ (t : List ℕ). t ++ raw_header b o) c)
                  ∙ raw-object b o bytes),
          nv,
        ),
      )

  feeds :
      (b : Bool) (os : List Object) (bytes : List ℕ) (w : W)
      → IsOpen bytes w
      → (v : W) × (fed sink (map (as_read b) os) w ≡ some v) × IsOpen (bytes ++ stream_bytes b os) v
  unfolding fed
  feeds b [] bytes w (c, n) = (w, refl, (c ∙ sym (append-nil bytes), n))
  feeds b (o ∷ os) bytes w k =
      let (u, e, ku) = writes_object b o bytes w k in
      let (v, d, (cv, nv)) = feeds b os (bytes ++ object_bytes b o) u ku in
      (
        v,
        ap (λ r. and_then r (fed sink (map (as_read b) os))) e ∙ d,
        (cv ∙ append_assoc bytes (object_bytes b o) (stream_bytes b os), nv),
      )

  -- The objects of a publisher's stream, whose header has been read, come out unchanged at every
  -- subscriber of the track that stays connected, whatever becomes of the streams to the others:
  -- `handle_data_stream` reads the stream to its end and has no error, and among the streams that it leaves is one of that
  -- subscriber's session with the header as `encode` writes it, the objects behind it byte for byte
  -- as they came, and the end. The header's own bytes are not passed on, and may have been others.
  pub handle_data_stream-delivered :
      {R : Type 0} (t : Transport R) (sender : SessionId) (header : SubgroupHeader) (b : Bool)
      (os : List Object) (r : R) (fuel : ℕ) (s : RelayState)
      → In session (find_subscriber_sessions sender header.track_alias s)
      → length os < fuel
      → All IsValid os
      → t.pending r ≡ stream_bytes b os
      → (ws : List W) × (left : DataStreamReader R) × (handle_data_stream t sink fuel sender header
            (record { stream = r; has_properties = b })
            s
          ≡ (none, ws, some left))
        × (t.pending left.stream ≡ [])
        × ((w : W) × In w ws
            × (l.content w ≡ header_bytes header ++ stream_bytes b os)
            × (l.ended w ≡ true))
  unfolding handle_data_stream
  handle_data_stream-delivered {R} t sender header b os r fuel s among enough v p =
      let reader : DataStreamReader R = record { stream = r; has_properties = b } in
      let sessions = find_subscriber_sessions sender header.track_alias s in
      let (w, opens, content, still) = open_data_stream-header sink session l header in
      let (u, fed_u, (content_u, still_u)) = feeds b os (header_bytes header) w (content, still) in
      let (x, done, content_x, ended) = l.finishes u still_u in
      let ws =
        finish_all sink (fed_all sink (map (as_read b) os) (open_writers sink header sessions)) in
      let listed =
        In-finish_all sink
          (In-fed_all sink (map (as_read b) os) fed_u (In-open_writers sink header opens among)) in
      let (left, e, empty) =
        relay_objects-fed t sink b os r fuel (open_writers sink header sessions) enough v p in
      (
        ws,
        left,
        ap
              (λ (e : Bool).
                if e
                then drain t sink fuel reader
                else relay_objects t sink fuel reader (open_writers sink header sessions))
              (In-filled among)
            ∙ e,
        empty,
        (
          x,
          subst (λ (y : W). In y ws) (ap (λ (q : Bool × W). q.1) done) listed,
          content_x ∙ content_u,
          ended,
        ),
      )
