-- ===== src/Relay/DataStream/Forwarding.antt =====
-- handle_data_stream of moqt-relay/src/relay.rs, one writer at a time.
use moqt_minimal.Prelude.{
  ℕ, zero, suc, ◌<◌, ◌≡◌, refl, sym, ap, ◌∙◌, Bool, Option, none, some, List, [], ◌∷◌, All, map,
  length, arith,
}
use moqt_minimal.Buffer.{ok}
use moqt_minimal.Map.{and_then}
use moqt_minimal.Stream.Transport.{Transport}
use moqt_minimal.Stream.Data.{DataStreamReader, RawObject, read_object}
use moqt_minimal.Stream.Data.Objects.{
  Object, IsValid, as_read, stream_bytes, read_object-next, read_object-end,
}
use moqt_minimal.Session.Streams.{Sink}
use moqt_minimal.Relay.DataStream.{write_object, write_to_all, finish_all, relay_objects}

module _ {W : Type 0} (sink : Sink W) where
  -- One writer on its own: the objects one after the other, until a write fails.
  unfoldable pub fed : List RawObject → W → Option W
  fed [] w = some w
  fed (o ∷ os) w = and_then (write_object sink o w) (fed os)

  abbrev pub kept : Option W → List W → List W
  kept none rest = rest
  kept (some w) rest = w ∷ rest

  unfoldable pub fed_all : List RawObject → List W → List W
  fed_all os [] = []
  fed_all os (w ∷ ws) = kept (fed os w) (fed_all os ws)

  fed_all-nil : (ws : List W) → fed_all [] ws ≡ ws
  unfolding fed fed_all
  fed_all-nil [] = refl
  fed_all-nil (w ∷ ws) = ap (λ t. w ∷ t) (fed_all-nil ws)

  fed_all-cons :
      (o : RawObject) (os : List RawObject) (ws : List W)
      → fed_all (o ∷ os) ws ≡ fed_all os (write_to_all sink o ws)
  unfolding fed fed_all write_to_all
  fed_all-cons o os [] = refl
  fed_all-cons o os (w ∷ ws) = ground (arith, fed_all-cons o os ws)

module _ {R W : Type 0} (t : Transport R) (sink : Sink W) where
  relay_objects-end :
      (fuel : ℕ) (reader : DataStreamReader R) (ws : List W)
      → read_object t reader ≡ ok (none, reader)
      → relay_objects t sink (suc fuel) reader ws ≡ (none, finish_all sink ws, some reader)
  unfolding relay_objects
  relay_objects-end fuel reader ws h = ground arith

  relay_objects-next :
      (fuel : ℕ) (reader next : DataStreamReader R) (o : RawObject) (ws : List W)
      → read_object t reader ≡ ok (some o, next)
      → relay_objects t sink (suc fuel) reader ws
        ≡ relay_objects t sink fuel next (write_to_all sink o ws)
  unfolding relay_objects
  relay_objects-next fuel reader next o ws h = ground arith

  -- When a publisher's stream carries some objects and then ends, the relay comes to an end
  -- without an error, and has read the stream to its end. It has written to each writer on its own
  -- the header bytes and the payload of every object as they came, in order, until a write to it
  -- failed; it has finished exactly the writers without a failure. One round more than there are
  -- objects is enough.
  pub relay_objects-fed :
      (b : Bool) (os : List Object) (r : R) (fuel : ℕ) (ws : List W)
      → length os < fuel
      → All IsValid os
      → t.pending r ≡ stream_bytes b os
      → (left : DataStreamReader R) × (relay_objects t sink fuel
            (record { stream = r; has_properties = b })
            ws
          ≡ (none, finish_all sink (fed_all sink (map (as_read b) os) ws), some left))
        × (t.pending left.stream ≡ [])
  relay_objects-fed b os r zero ws enough v h = absurd (omega arith)
  relay_objects-fed b [] r (suc fuel) ws enough v h = (
    record { stream = r; has_properties = b },
    relay_objects-end fuel _ ws (read_object-end t _ h)
        ∙ ap
            (λ (ws : List W).
              (none, finish_all sink ws, some (record { stream = r; has_properties = b })))
            (sym (fed_all-nil sink ws)),
    h,
  )
  relay_objects-fed b (o ∷ os) r (suc fuel) ws enough v h =
      let (s, e, rest) = read_object-next t b o r (stream_bytes b os) v.0 h in
      let (left, d, empty) =
        relay_objects-fed b os s fuel (write_to_all sink (as_read b o) ws) (omega arith) v.1 rest in
      (
        left,
        relay_objects-next fuel _ _ _ ws e
            ∙ (d
                ∙ ap (λ (ws : List W). (none, finish_all sink ws, some left))
                    (sym (fed_all-cons sink (as_read b o) (map (as_read b) os) ws))),
        empty,
      )
