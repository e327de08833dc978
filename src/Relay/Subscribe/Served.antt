-- ===== src/Relay/Subscribe/Served.antt =====
-- From SUBSCRIBE to the objects: `handle_subscribe` and then `handle_data_stream` of
-- moqt-relay/src/relay.rs.
use moqt_minimal.Prelude.{
  ℕ, ◌<◌, ◌≡◌, refl, sym, ap, ◌∙◌, Bool, true, none, some, List, [], ◌∷◌, ◌++◌, All, length,
}
use mathlib.Core.Path.{subst}
use moqt_minimal.Map.{get}
use moqt_minimal.Buffer.{ok}
use moqt_minimal.Wire.SubscribeOk.{SubscribeOkMessage}
use moqt_minimal.Wire.SubgroupHeader.{SubgroupHeader}
use moqt_minimal.Wire.SubgroupHeader.RoundTrip as Header
use moqt_minimal.Session.Events.{SubgroupReader, uni, data_stream, next_event}
use moqt_minimal.Session.Events.Received.{at_stream, next_event-data_stream}
use moqt_minimal.Stream.Transport.{Transport}
use moqt_minimal.Stream.Data.Objects.{Object, IsValid, stream_bytes}
use moqt_minimal.Session.Streams.{Sink}
use moqt_minimal.Session.Streams.Lossless.{IsLossless}
use moqt_minimal.Relay.Keys.{FullTrackName, session_id_key, track_key}
use moqt_minimal.Relay.State.{
  RelayState, SessionId, SessionRef, Subscription, SubscriberEntry, push_subscriber, add_subscriber,
  push_to_existing, find_publisher, find_subscriber_sessions,
}
use moqt_minimal.Relay.State.Membership.{In, here, In-append_right}
use moqt_minimal.Relay.State.Receivers.{find_subscriber_sessions-IsReceiver}
use moqt_minimal.Relay.Registry.Lookups.{get-In}
use moqt_minimal.Relay.Subscribe.{Task, Outcome, run, checking, ready, sent, answered, set_lock}
use moqt_minimal.Relay.Subscribe.Outcomes.{
  IsAdmitted, track_of, entry_of, admitted, joined, established, publisher_locked, run-established,
  run-aggregated,
}
use moqt_minimal.Relay.DataStream.{Handled, handle_data_stream}
use moqt_minimal.Relay.DataStream.Delivered.{handle_data_stream-delivered}

-- A subscriber of a recorded subscription is among the receivers.
subscriber-found :
    (track : FullTrackName) (sub : Subscription) (e : SubscriberEntry) (s : RelayState)
    (session : SessionRef)
    → get track s.subscriptions ≡ some sub
    → In e sub.subscribers
    → get e.session_id s.sessions ≡ some session
    → In session (find_subscriber_sessions sub.publisher_session sub.publisher_track_alias s)
subscriber-found track sub e s session h among c =
    (find_subscriber_sessions-IsReceiver sub.publisher_session sub.publisher_track_alias s
        session).1
      (record {
        sub = sub;
        entry = e;
        of_sub = get-In s.subscriptions track h;
        from_publisher = refl;
        with_alias = refl;
        of_entry = among;
        connected = c;
      })

sessions-joined :
    (task : Task) (sub : Subscription) (b : Bool) (s : RelayState)
    → IsAdmitted task s
    → get (track_of task) s.subscriptions ≡ some sub
    → (run task checking (ready ∷ ready ∷ ready ∷ sent b ∷ []) s).1.sessions ≡ s.sessions
unfolding set_lock push_to_existing
sessions-joined task sub b s a h =
    let t = track_of task in
    ap (λ (o : Outcome). o.1.sessions)
      (admitted task (ready ∷ sent b ∷ []) s a ∙ joined task t sub b (set_lock true t s) h)

sessions-established :
    (task : Task) (publisher : SessionId) (session : SessionRef) (answer : SubscribeOkMessage)
    (s : RelayState)
    → IsAdmitted task s
    → get (track_of task) s.subscriptions ≡ none
    → find_publisher task.message.track_namespace s ≡ some (publisher, session)
    → (run task checking
        (ready ∷ ready ∷ ready ∷ ready ∷ answered (some answer) ∷ ready ∷ sent true ∷ [])
        s).1.sessions
      ≡ s.sessions
unfolding set_lock add_subscriber
sessions-established task publisher session answer s a h p =
    let t = track_of task in
    ap (λ (o : Outcome). o.1.sessions)
      (admitted task (ready ∷ ready ∷ answered (some answer) ∷ ready ∷ sent true ∷ []) s a
        ∙ established task t publisher session answer (set_lock true t s) h
            (publisher_locked t _ s ∙ p))

module _ {R : Type 0} (t : Transport R) where
  -- A data stream as `encode` writes its header, and the objects behind it.
  pub record IsStream (fuel : ℕ) (header : SubgroupHeader) (os : List Object) (r : R) : Type 0 where
    pub well_formed : Header.IsValid header
    pub objects : All IsValid os
    pub enough : length os < fuel
    pub bytes : t.pending r ≡ Header.header_bytes header ++ stream_bytes header.has_properties os

module _ {W R : Type 0} (sink : Sink W) (receiver : SessionRef) (l : IsLossless sink receiver)
    (t : Transport R) where
  -- The data stream has come to its end without an error, and one of the streams that are left is
  -- the receiver's, with these bytes and its end.
  abbrev pub Delivered : Handled R W → List ℕ → Type 0
  Delivered result bytes =
      (result.0 ≡ none) × ((w : W) × In w result.1 × (l.content w ≡ bytes) × (l.ended w ≡ true))

  -- The relay takes `r` for a data stream, and its handling delivers, byte for byte, what was on it.
  pub record Copied (fuel : ℕ) (sender : SessionId) (s : RelayState) (r : R) : Type 0 where
    pub group : SubgroupReader R
    pub event : next_event t (uni r) ≡ ok (data_stream group)
    pub delivered :
        Delivered (handle_data_stream t sink fuel sender group.header group.reader s) (t.pending r)

  Copied-to :
      (sender alias : ℕ) (header : SubgroupHeader) (os : List Object) (r : R) (fuel : ℕ)
      (s : RelayState)
      → header.track_alias ≡ alias
      → In receiver (find_subscriber_sessions sender alias s)
      → IsStream t fuel header os r
      → Copied fuel sender s r
  Copied-to sender alias header os r fuel s a among v =
      let (u, event, left) = next_event-data_stream t header r _ v.well_formed v.bytes in
      let (ws, left_over, e, empty, (w, listed, content, ended)) =
        handle_data_stream-delivered sink receiver l t sender header header.has_properties os u fuel
          s (subst (λ n. In receiver (find_subscriber_sessions sender n s)) (sym a) among) v.enough
          v.objects left in
      record {
        group = at_stream header u;
        event = event;
        delivered = (
          ap (λ (q : Handled R W). q.0) e,
          (
            w,
            subst (In w) (ap (λ (q : Handled R W). q.1) (sym e)) listed,
            content ∙ sym v.bytes,
            ended,
          ),
        );
      }

  -- A SUBSCRIBE that is admitted (no filter but NextGroupStart, a UTF-8 name, the track's lock
  -- free), for a track with no subscription, whose publisher is found and answers with SUBSCRIBE_OK,
  -- makes the subscriber a receiver: the relay takes the next data stream of that publisher with
  -- the alias of the answer and, when the subscriber's session stays connected, copies it to that
  -- session byte for byte, and its end. The stream's header must stand there as this library's
  -- `encode` writes it; a header in another form is encoded anew.
  pub established-Copied :
      (task : Task) (publisher : SessionId) (session : SessionRef) (answer : SubscribeOkMessage)
      (s : RelayState) (header : SubgroupHeader) (os : List Object) (r : R) (fuel : ℕ)
      → IsAdmitted task s
      → get (track_of task) s.subscriptions ≡ none
      → find_publisher task.message.track_namespace s ≡ some (publisher, session)
      → get task.subscriber_session s.sessions ≡ some receiver
      → header.track_alias ≡ answer.track_alias
      → IsStream t fuel header os r
      → Copied fuel publisher
          (run task checking
            (ready ∷ ready ∷ ready ∷ ready ∷ answered (some answer) ∷ ready ∷ sent true ∷ [])
            s).1
          r
  established-Copied task publisher session answer s header os r fuel admits absent found connected
        a v =
      let kept = sessions-established task publisher session answer s admits absent found in
      Copied-to publisher answer.track_alias header os r fuel _ a
        (subscriber-found (track_of task) _ (entry_of task) _ receiver
          (run-established task publisher session answer s admits absent found).2 here
          (ap (get task.subscriber_session) kept ∙ connected))
        v

  -- A SUBSCRIBE that is admitted (no filter but NextGroupStart, a UTF-8 name, the track's lock
  -- free) and joins a subscription makes the subscriber a receiver too: the relay takes the next
  -- data stream of the subscription's publisher with its alias and, when the subscriber's session
  -- stays connected, copies it to that session byte for byte, and its end. The stream's header must
  -- stand there as this library's `encode` writes it; a header in another form is encoded anew.
  pub aggregated-Copied :
      (task : Task) (sub : Subscription) (written : Bool) (s : RelayState) (header : SubgroupHeader)
      (os : List Object) (r : R) (fuel : ℕ)
      → IsAdmitted task s
      → get (track_of task) s.subscriptions ≡ some sub
      → get task.subscriber_session s.sessions ≡ some receiver
      → header.track_alias ≡ sub.publisher_track_alias
      → IsStream t fuel header os r
      → Copied fuel sub.publisher_session
          (run task checking (ready ∷ ready ∷ ready ∷ sent written ∷ []) s).1
          r
  aggregated-Copied task sub written s header os r fuel admits there_is connected a v =
      let kept = sessions-joined task sub written s admits there_is in
      Copied-to sub.publisher_session sub.publisher_track_alias header os r fuel _ a
        (subscriber-found (track_of task) (push_subscriber (entry_of task) sub) (entry_of task) _
          receiver (run-aggregated task sub written s admits there_is).2
          (In-append_right sub.subscribers here)
          (ap (get task.subscriber_session) kept ∙ connected))
        v
