-- ===== src/Session/Requests/Exchange.antt =====
-- The two ends of a request stream.
use moqt_minimal.Prelude.{
  ℕ, ◌+◌, ◌%◌, ◌^◌, ◌≤◌, ◌≡◌, refl, ap, ◌∙◌, List, [], ◌++◌, length, length-append, arith, IsU64,
}
use moqt_minimal.Buffer.{Error, ok, err, Writes, request_rejected}
use moqt_minimal.Wire.Varint.{varint_bytes}
use moqt_minimal.Wire.Varint.Decode.{length-varint_le}
use moqt_minimal.Wire.Parameter.{MessageParameter}
use moqt_minimal.Wire.ReasonPhrase.{max_length}
use moqt_minimal.Wire.TrackNamespace.{TrackNamespace}
use moqt_minimal.Wire.Subscribe.RoundTrip as Sub
use moqt_minimal.Wire.PublishNamespace.RoundTrip as PubNs
use moqt_minimal.Wire.PublishNamespace.{PublishNamespaceMessage}
use moqt_minimal.Wire.Subscribe.{SubscribeMessage}
use moqt_minimal.Session.Events
use moqt_minimal.Session.Events.{SessionEvent, bi, next_event, of_request}
use moqt_minimal.Stream.Transport.{Transport, Reader, Pulls, Pulls-last, Pulls-lift, went_on, lift}
use moqt_minimal.Stream.Request.{
  RequestMessage, subscribe, publish_namespace, encode_request, read_message,
}
use moqt_minimal.Stream.Request.RoundTrip.{IsValid, request_bytes, Writes-request, Pulls-request}
use moqt_minimal.Session.RequestIds.{RequestIdAllocator, allocate}
use moqt_minimal.Session.Requests.{
  Request, new_publish_namespace, new_subscribe, subscribe_response, request_event, accept, reject,
  send_publish_done, await_subscribe_ok, recv_publish_done, next_request, publish_done_response,
}

short_payload : (n : ℕ) → length (varint_bytes n) ≤ 9
short_payload n = length-varint_le n

accept-IsValid : (track_alias : ℕ) → IsU64 track_alias → IsValid (accept track_alias)
unfolding accept
accept-IsValid track_alias h = record {
  track_alias = h;
  parameters = (omega arith, tt, tt);
  properties = omega arith;
  fits = omega (
    arith,
    short_payload track_alias,
    short_payload 0,
    length-append (varint_bytes track_alias) ((varint_bytes 0 ++ []) ++ (varint_bytes 0 ++ [])),
    length-append (varint_bytes 0 ++ []) (varint_bytes 0 ++ []),
    length-append {0} (varint_bytes 0) [],
  );
}

reject-IsValid :
    (code : ℕ) (reason : List ℕ)
    → IsU64 code
    → length reason ≤ max_length
    → IsValid (reject code reason)
unfolding reject
reject-IsValid code reason h r = record { error_code = h; retry_interval = omega arith; reason = r }

send_publish_done-IsValid : (count : ℕ) → IsU64 count → IsValid (send_publish_done count)
unfolding send_publish_done
send_publish_done-IsValid count h = record {
  status_code = omega arith;
  stream_count = h;
  reason = omega arith;
}

refused :
    {R : Type 0} (r : R) (code : ℕ) (reason : List ℕ)
    → lift (subscribe_response (reject code reason)) r ≡ err request_rejected
unfolding lift subscribe_response reject
refused r code reason = refl

-- The requests as the peer is to see them.
abbrev pub subscribe_with : ℕ → TrackNamespace → List ℕ → List MessageParameter → SubscribeMessage
subscribe_with id namespace track_name parameters = record {
  request_id = id;
  required_request_id_delta = 0;
  track_namespace = namespace;
  track_name = track_name;
  parameters = parameters;
}

abbrev pub publish_with : ℕ → TrackNamespace → PublishNamespaceMessage
publish_with id namespace = record {
  request_id = id;
  required_request_id_delta = 0;
  track_namespace = namespace;
}

module _ {R : Type 0} (t : Transport R) where
  -- The peer that gets these bytes on a request stream has this event next.
  pub record IsEvent (event : SessionEvent R) (bytes : List ℕ) : Type 0 where
    pub on : (r : R) (rest : List ℕ) → t.pending r ≡ bytes ++ rest → next_event t (bi r) ≡ ok event

  -- Where the stream is about to deliver `bytes`, the reader fails.
  pub record Fails {A : Type 0} (m : Reader R A) (e : Error) (bytes : List ℕ) : Type 0 where
    pub on : (r : R) (rest : List ℕ) → t.pending r ≡ bytes ++ rest → m r ≡ err e

  taken :
      (m : RequestMessage) (request : Request)
      → IsValid m
      → request_event m ≡ ok request
      → Pulls t (next_request t) request (request_bytes m)
  unfolding next_request
  taken m request v e = Pulls-last t _ _ (Pulls-request t m v) (Pulls-lift t _ e)

  -- A client that publishes a namespace and then subscribes takes two request ids, the allocator's
  -- next one and the one two above it (modulo 2^64), and leaves the allocator two further; and what its two calls write, where the messages are valid, is for
  -- the peer's `next_event` that PUBLISH_NAMESPACE, with the first id and the namespace, and that
  -- SUBSCRIBE, with the second id and the namespace, the track's name and the parameters of the
  -- call.
  pub requests-received :
      (published namespace : TrackNamespace) (track_name : List ℕ)
      (parameters : List MessageParameter) (a : RequestIdAllocator)
      → PubNs.IsValid (publish_with a.next_id published)
      → Sub.IsValid (subscribe_with ((a.next_id + 2) % 2 ^ 64) namespace track_name parameters)
      → let (first, b) = new_publish_namespace published a in
        let (second, c) = new_subscribe namespace track_name parameters b in
        ((bytes : List ℕ) × Writes (encode_request (publish_namespace first)) bytes
          × IsEvent (Events.publish_namespace (publish_with a.next_id published)) bytes)
        × ((bytes : List ℕ) × Writes (encode_request (subscribe second)) bytes
            × IsEvent
                (Events.subscribe
                  (subscribe_with ((a.next_id + 2) % 2 ^ 64) namespace track_name parameters))
                bytes)
        × (c.next_id ≡ ((a.next_id + 2) % 2 ^ 64 + 2) % 2 ^ 64)
  unfolding next_event request_event new_publish_namespace new_subscribe allocate
  requests-received published namespace track_name parameters a v u =
      let m = publish_namespace (publish_with a.next_id published) in
      let n =
        subscribe (subscribe_with ((a.next_id + 2) % 2 ^ 64) namespace track_name parameters) in
      (
        (
          request_bytes m,
          Writes-request m v,
          record { on = λ r rest p. ap of_request ((taken m _ v refl).on r rest p).1 },
        ),
        (
          request_bytes n,
          Writes-request n u,
          record { on = λ r rest p. ap of_request ((taken n _ u refl).on r rest p).1 },
        ),
        refl,
      )

  -- What `accept` with an alias writes is SUBSCRIBE_OK with that alias for the other side of the
  -- request stream; what `send_publish_done` writes is PUBLISH_DONE with the status TRACK_ENDED, the
  -- count of streams and no reason; and on what `reject` with a reason of at most 1024 bytes writes,
  -- `subscribe` fails as rejected.
  pub answers-received :
      (track_alias count code : ℕ) (reason : List ℕ)
      → IsU64 track_alias
      → IsU64 count
      → IsU64 code
      → length reason ≤ max_length
      → ((bytes : List ℕ) × Writes (encode_request (accept track_alias)) bytes
          × Pulls t
              (await_subscribe_ok t)
              (record { track_alias = track_alias; parameters = []; track_properties_raw = [] })
              bytes)
        × ((bytes : List ℕ) × Writes (encode_request (send_publish_done count)) bytes
            × Pulls t
                (recv_publish_done t)
                (record {
                  status_code = 0x2;
                  stream_count = count;
                  reason_phrase = record { value = [] };
                })
                bytes)
        × ((bytes : List ℕ) × Writes (encode_request (reject code reason)) bytes
            × Fails (await_subscribe_ok t) request_rejected bytes)
  unfolding await_subscribe_ok recv_publish_done
  answers-received track_alias count code reason ha hc he hr =
      let a = accept-IsValid track_alias ha in
      let d = send_publish_done-IsValid count hc in
      let v = reject-IsValid code reason he hr in
      (
        (
          request_bytes (accept track_alias),
          Writes-request _ a,
          Pulls-last t _ _ (Pulls-request t _ a)
              (Pulls-lift t _ (unfold accept subscribe_response in refl)),
        ),
        (
          request_bytes (send_publish_done count),
          Writes-request _ d,
          Pulls-last t _ _ (Pulls-request t _ d)
              (Pulls-lift t _ (unfold send_publish_done publish_done_response in refl)),
        ),
        (
          request_bytes (reject code reason),
          Writes-request _ v,
          record {
            on = λ r rest p.
                let (s, e, left) = (Pulls-request t (reject code reason) v).on r rest p in
                went_on (read_message t) _ e ∙ refused s code reason;
          },
        ),
      )
