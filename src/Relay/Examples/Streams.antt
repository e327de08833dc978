-- ===== src/Relay/Examples/Streams.antt =====
-- A data stream of two objects that goes to two subscribers, one of which fails at the second.
use moqt_minimal.Prelude.{
  ℕ, ◌-◌, ◌≡◌, refl, Bool, true, false, none, List, [], ◌∷◌, ◌++◌, length, leb, if◌then◌else◌, map,
  arith,
}
use moqt_minimal.Stream.Examples.{list_stream}
use moqt_minimal.Stream.Data.{DataStreamReader}
use moqt_minimal.Stream.Data.Objects.{Object, as_read, stream_bytes}
use moqt_minimal.Session.Streams.{Sink}
use moqt_minimal.Relay.DataStream.{relay_objects, finish_all}
use moqt_minimal.Relay.DataStream.Forwarding.{fed_all, relay_objects-fed}
use moqt_minimal.Prelude.{some}

-- A stream that keeps what is written to it, up to some number of bytes.
record Log : Type 0 where
  bytes : List ℕ
  room : ℕ
  finished : Bool

write_log : List ℕ → Log → Bool × Log
write_log bytes log =
    if leb (length bytes) log.room
    then (true, record log { bytes = log.bytes ++ bytes; room = log.room - length bytes })
    else (false, log)

log_sink : Sink Log
log_sink = record {
  open_uni = λ session. none;
  write_all = write_log;
  finish = λ log. (true, record log { finished = true });
}

abbrev two_logs : List Log
two_logs =
    record { bytes = []; room = 100; finished = false }
    ∷ record { bytes = []; room = 5; finished = false }
    ∷ []

abbrev objects : List Object
objects =
    record { delta = 0; properties = []; payload = 7 ∷ 8 ∷ [] }
    ∷ record { delta = 0; properties = []; payload = 9 ∷ [] }
    ∷ []

relay_objects-fed_test :
    (left : DataStreamReader (List ℕ)) × (relay_objects list_stream log_sink 3
        (record { stream = stream_bytes false objects; has_properties = false })
        two_logs
      ≡ (
        none,
        finish_all log_sink (fed_all log_sink (map (as_read false) objects) two_logs),
        some left,
      ))
    × (left.stream ≡ [])
unfolding list_stream
relay_objects-fed_test =
    relay_objects-fed list_stream log_sink false objects (stream_bytes false objects) 3 two_logs
      (omega arith)
      (
        record { delta = omega arith; properties = omega arith; payload = omega arith },
        (record { delta = omega arith; properties = omega arith; payload = omega arith }, tt),
      )
      refl
