-- ===== src/Clients/Publisher/Demo.antt =====
-- moqt-pub/src/main.rs: the demo groups, and the way from the first event to PUBLISH_DONE.
use moqt_minimal.Prelude.{ℕ, ◌+◌, Bool, true, false, Option, some, List, [], ◌∷◌}
use moqt_minimal.Map.{and_then}
use moqt_minimal.Buffer.{Result, ok, err, unexpected_response}
use moqt_minimal.Wire.Subscribe.{SubscribeMessage}
use moqt_minimal.Stream.Request.{RequestMessage}
use moqt_minimal.Session.Requests.{send_publish_done}
use moqt_minimal.Session.Events.{SessionEvent, subscribe, publish_namespace, data_stream}
use moqt_minimal.Session.Streams.{Sink, SubgroupWriter, open_subgroup, write_object, finish}
use moqt_minimal.Clients.Ivf.{IvfFrame}
use moqt_minimal.Clients.Publisher.{send_from_stdin}

-- `match session.next_event().await?`: the first event must be a SUBSCRIBE.
unfoldable pub first_request : {R : Type 0} → Result (SessionEvent R) → Result SubscribeMessage
first_request (ok (subscribe m)) = ok m
first_request (ok (publish_namespace m)) = err unexpected_response
first_request (ok (data_stream group)) = err unexpected_response
first_request (err e) = err e

-- `format!("g{group_id}o{obj_id}")` for numbers of one digit.
abbrev pub demo_payload : ℕ → ℕ → List ℕ
demo_payload group_id obj_id = b'g' ∷ (48 + group_id) ∷ b'o' ∷ (48 + obj_id) ∷ []

abbrev pub demo_payloads : ℕ → List (List ℕ)
demo_payloads group_id =
    demo_payload group_id 0 ∷ demo_payload group_id 1 ∷ demo_payload group_id 2 ∷ []

abbrev pub demo_ids : List ℕ
demo_ids = 0 ∷ 1 ∷ 2 ∷ 3 ∷ 4 ∷ []

module _ {W : Type 0} (sink : Sink W) (session : ℕ) where
  -- `for obj_id in 0u64..3`.
  unfoldable pub write_objects : List (List ℕ) → SubgroupWriter W → Option (SubgroupWriter W)
  write_objects [] w = some w
  write_objects (p ∷ ps) w = and_then (write_object sink p w) (write_objects ps)

  abbrev pub stream_of : SubgroupWriter W → Option W
  stream_of w = some w.stream

  unfoldable pub send_demo_group : ℕ → Option W
  unfolding write_objects
  send_demo_group group_id =
      and_then
        (and_then
          (and_then (open_subgroup sink session 1 group_id 0)
            (write_objects (demo_payloads group_id)))
          (finish sink))
        stream_of

  -- `for group_id in 0u64..5`.
  unfoldable pub send_demo : List ℕ → Option (List W)
  unfolding send_demo_group
  send_demo [] = some []
  send_demo (id ∷ ids) =
      and_then (send_demo_group id)
        (λ (w : W). and_then (send_demo ids) (λ (ws : List W). some (w ∷ ws)))

  abbrev pub done : ℕ × List W → Option (RequestMessage × List W)
  done (stream_count, ws) = some (send_publish_done stream_count, ws)

  abbrev pub demo_done : List W → Option (RequestMessage × List W)
  demo_done ws = some (send_publish_done 5, ws)

  -- What is published in the two modes: the PUBLISH_DONE and the streams.
  unfoldable pub publish : (pipe_mode : Bool) → List IvfFrame → Option (RequestMessage × List W)
  unfolding send_demo
  publish true frames = and_then (send_from_stdin sink session frames) done
  publish false frames = and_then (send_demo demo_ids) demo_done
