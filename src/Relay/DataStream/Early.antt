-- ===== src/Relay/DataStream/Early.antt =====
-- A data stream that reaches moqt-relay/src/relay.rs before its subscription has been recorded.
use moqt_minimal.Prelude.{
  ℕ, zero, suc, ◌<◌, ◌≡◌, ◌≢◌, refl, sym, ap, ◌∙◌, Bool, none, some, List, [], ◌∷◌, All, length,
  arith, is_empty, if◌then◌else◌, Bool-cases, inl, inr,
}
use moqt_minimal.Map.{get}
use moqt_minimal.Buffer.{ok}
use moqt_minimal.Wire.SubgroupHeader.{SubgroupHeader}
use moqt_minimal.Stream.Transport.{Transport}
use moqt_minimal.Stream.Data.{DataStreamReader, RawObject, read_object}
use moqt_minimal.Stream.Data.Objects.{
  Object, IsValid, stream_bytes, read_object-next, read_object-end,
}
use moqt_minimal.Session.Streams.{Sink}
use moqt_minimal.Relay.Keys.{FullTrackName, track_key}
use moqt_minimal.Relay.State.{
  RelayState, SessionId, SessionRef, Subscription, find_subscriber_sessions,
}
use moqt_minimal.Relay.State.Membership.{In, here}
use moqt_minimal.Relay.State.Receivers.{find_subscriber_sessions-IsReceiver}
use moqt_minimal.Relay.Registry.Lookups.{In-values}
use moqt_minimal.Relay.Subscribe.{subscribing}
use moqt_minimal.Relay.World.{World, Reachable, upstream}
use moqt_minimal.Relay.World.Safety.{Reachable-IsSafe, upstream-subscribing}
use moqt_minimal.Relay.DataStream.{Handled, drain, relay_objects, open_writers, handle_data_stream}

module _ {W R : Type 0} (sink : Sink W) (t : Transport R) where
  drain-end :
      (fuel : ℕ) (reader : DataStreamReader R)
      → read_object t reader ≡ ok (none, reader)
      → drain t sink (suc fuel) reader ≡ (none, [], some reader)
  unfolding drain
  drain-end fuel reader e = ground arith

  drain-next :
      (fuel : ℕ) (reader next : DataStreamReader R) (o : RawObject)
      → read_object t reader ≡ ok (some o, next)
      → drain t sink (suc fuel) reader ≡ drain t sink fuel next
  unfolding drain
  drain-next fuel reader next o e = ground arith

  -- A stream with some objects is read to its end.
  abbrev pub Drained : Handled R W → Type 0
  Drained h =
      (left : DataStreamReader R) × (h ≡ (none, [], some left)) × (t.pending left.stream ≡ [])

  drain-Drained :
      (b : Bool) (os : List Object) (r : R) (fuel : ℕ)
      → length os < fuel
      → All IsValid os
      → t.pending r ≡ stream_bytes b os
      → Drained (drain t sink fuel (record { stream = r; has_properties = b }))
  drain-Drained b os r zero enough v p = absurd (omega arith)
  drain-Drained b [] r (suc fuel) enough v p =
      (record { stream = r; has_properties = b }, drain-end fuel _ (read_object-end t _ p), p)
  drain-Drained b (o ∷ os) r (suc fuel) enough v p =
      let (s, e, rest) = read_object-next t b o r (stream_bytes b os) v.0 p in
      let (left, d, empty) = drain-Drained b os s fuel (omega arith) v.1 rest in
      (left, drain-next fuel _ _ _ e ∙ d, empty)

none-In : {A : Type 0} (xs : List A) → ((x : A) → In x xs → ⊥) → xs ≡ []
none-In [] h = refl
none-In (x ∷ xs) h = absurd (h x here)

none-some : {A : Type 0} {a : A} → none ≢ some a
none-some e = absurd (ground arith)

-- No other track has a subscription of the publisher with the alias.
abbrev pub OthersDiffer : FullTrackName → SessionId → ℕ → RelayState → Type 0
OthersDiffer track publisher alias s =
    (u : FullTrackName) (sub : Subscription)
    → u ≢ track
    → get u s.subscriptions ≡ some sub
    → sub.publisher_session ≡ publisher
    → sub.publisher_track_alias ≢ alias

nobody_listens :
    {w : World} {i : ℕ} {track : FullTrackName} {publisher : SessionId} (alias : ℕ)
    → Reachable w
    → w.phases i ≡ subscribing track publisher
    → OthersDiffer track publisher alias w.state
    → find_subscriber_sessions publisher alias w.state ≡ []
nobody_listens {w} {i} {track} {publisher} alias r h differ =
    let safe = Reachable-IsSafe r in
    let absent = safe.absent i track (ap upstream h ∙ upstream-subscribing track publisher) in
    none-In _ (λ session listed.
      let c = (find_subscriber_sessions-IsReceiver publisher alias w.state session).0 listed in
      let (u, e) = In-values w.state.subscriptions safe.unique c.of_sub in
      elim (Bool-cases (track_key.same u track)) [
        | inl same ↦ none-some (
            sym absent
            ∙ (ap (λ v. get v w.state.subscriptions) (sym ((track_key.same_iff u track).0 same))
                ∙ e))
        | inr other ↦
            differ u c.sub (λ d. ground (arith, track_key.same_iff u track)) e c.from_publisher
              c.with_alias
      ])

-- While a task awaits the publisher's answer, or has not yet recorded it, a data stream that the
-- publisher already sends for the track is read to its end, where nothing is left on it, and goes to
-- nobody, when no other track has a subscription of this publisher with the stream's alias: its
-- objects are lost.
pub subscribing-Drained :
    {W R : Type 0} (sink : Sink W) (t : Transport R) {w : World} {i : ℕ} {track : FullTrackName}
    {publisher : SessionId} (header : SubgroupHeader) (b : Bool) (os : List Object) (r : R)
    (fuel : ℕ)
    → Reachable w
    → w.phases i ≡ subscribing track publisher
    → OthersDiffer track publisher header.track_alias w.state
    → length os < fuel
    → All IsValid os
    → t.pending r ≡ stream_bytes b os
    → Drained sink t (
        handle_data_stream t sink fuel publisher header
          (record { stream = r; has_properties = b })
          w.state)
unfolding handle_data_stream
subscribing-Drained {W} {R} sink t {publisher = publisher} header b os r fuel reached h differ
      enough v p =
    let reader : DataStreamReader R = record { stream = r; has_properties = b } in
    let (left, e, empty) = drain-Drained sink t b os r fuel enough v p in
    (
      left,
      ap
            (λ (sessions : List SessionRef).
              if is_empty sessions
              then drain t sink fuel reader
              else relay_objects t sink fuel reader (open_writers sink header sessions))
            (nobody_listens header.track_alias reached h differ)
          ∙ e,
      empty,
    )
