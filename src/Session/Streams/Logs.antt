-- ===== src/Session/Streams/Logs.antt =====
-- Streams that are lists of bytes: those of session 12 stay, those of other sessions do not open.
use moqt_minimal.Prelude.{
  ℕ, ◌≡◌, refl, Bool, true, false, Option, none, some, List, [], ◌++◌, ◌==◌, if◌then◌else◌,
}
use moqt_minimal.Session.Streams.{Sink}
use moqt_minimal.Session.Streams.Lossless.{IsLossless}
use moqt_minimal.Prelude.{arith}

pub record Log : Type 0 where
  pub bytes : List ℕ
  pub finished : Bool

open_log : ℕ → Option Log
open_log session = if session == 12 then some (record { bytes = []; finished = false }) else none

write_log : List ℕ → Log → Bool × Log
write_log bytes log =
    if log.finished then (false, log) else (true, record log { bytes = log.bytes ++ bytes })

finish_log : Log → Bool × Log
finish_log log = if log.finished then (false, log) else (true, record log { finished = true })

unfoldable pub log_sink : Sink Log
unfolding open_log write_log finish_log
log_sink = record { open_uni = open_log; write_all = write_log; finish = finish_log }

log_writes :
    (bytes : List ℕ) (log : Log)
    → log.finished ≡ false
    → write_log bytes log ≡ (true, record log { bytes = log.bytes ++ bytes })
unfolding write_log
log_writes bytes log e = ground arith

log_finishes :
    (log : Log) → log.finished ≡ false → finish_log log ≡ (true, record log { finished = true })
unfolding finish_log
log_finishes log e = ground arith

pub log_lossless : IsLossless log_sink 12
unfolding log_sink open_log
log_lossless = record {
  content = λ log. log.bytes;
  ended = λ log. log.finished;
  opens = (record { bytes = []; finished = false }, refl, refl, refl);
  writes =
      λ bytes log e. (record log { bytes = log.bytes ++ bytes }, log_writes bytes log e, refl, e);
  finishes = λ log e. (record log { finished = true }, log_finishes log e, refl, refl);
}
