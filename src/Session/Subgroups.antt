-- ===== src/Session/Subgroups.antt =====
-- moqt-core/src/session/subgroup.rs: a SubgroupWriter, its payloads and the end of its stream.
pub mod Payloads
use moqt_minimal.Prelude.{
  ℕ, Bool, true, false, not, Option, none, some, ◌≡◌, refl, ap, ◌∙◌, List, [], ◌∷◌, ◌++◌, length,
  if◌then◌else◌, map, arith, All, IsU64, ◌<◌,
}
use moqt_minimal.Buffer.{Action, Result, ok, err}
use moqt_minimal.Wire.Object.{ObjectHeader}
use moqt_minimal.Wire.SubgroupHeader.{SubgroupHeader}
use moqt_minimal.Stream.Transport.{Transport}
use moqt_minimal.Stream.Data.{encode_object, RawObject}
use moqt_minimal.Stream.Data.Objects.{
  Object, IsValid, as_read, stream_bytes, read_all, objects_round_trip,
}
use moqt_minimal.Prelude.{suc, ◌+◌}

-- The header of `open_subgroup`.
unfoldable pub subgroup_header : (track_alias group_id subgroup_id : ℕ) → SubgroupHeader
subgroup_header track_alias group_id subgroup_id = record {
  track_alias = track_alias;
  group_id = group_id;
  has_properties = false;
  end_of_group = true;
  subgroup_id = some subgroup_id;
  publisher_priority = none;
}

-- What a SubgroupWriter asks of its stream.
pub data Call : Type 0 where
  write : List ℕ → Call
  fin : Call

pub record SubgroupWriter : Type 0 where
  pub calls : List Call
  pub finished : Bool

unfoldable pub new : SubgroupWriter
new = record { calls = []; finished = false }

-- The bytes of `write_object`, whose header has the delta 0.
abbrev pub payload_header : List ℕ → ObjectHeader
payload_header payload = record { object_id_delta = 0; payload_length = length payload }

abbrev pub appended : Result (Unit {0} × List ℕ) → List ℕ
appended (ok (u, bytes)) = bytes
appended (err e) = []

unfoldable pub write_object : List ℕ → SubgroupWriter → SubgroupWriter
write_object payload w = record w {
  calls = w.calls ++ (write (appended (encode_object (payload_header payload) payload [])) ∷ []);
}

unfoldable pub finish : SubgroupWriter → SubgroupWriter
finish w = if not w.finished then record w { finished = true; calls = w.calls ++ (fin ∷ []) } else w

unfoldable pub drop_writer : SubgroupWriter → List Call
drop_writer w = if not w.finished then w.calls ++ (fin ∷ []) else w.calls

-- What the holder of a writer does before it drops it.
pub data Use : Type 0 where
  object : List ℕ → Use
  close : Use

unfoldable pub used : List Use → SubgroupWriter → SubgroupWriter
used [] w = w
used (object payload ∷ us) w = used us (write_object payload w)
used (close ∷ us) w = used us (finish w)

unfoldable pub fins : List Call → ℕ
fins [] = 0
fins (fin ∷ cs) = suc (fins cs)
fins (write bytes ∷ cs) = fins cs

fins-append : (cs : List Call) (c : Call) → fins (cs ++ (c ∷ [])) ≡ fins cs + fins (c ∷ [])
unfolding fins
fins-append [] c = omega arith
fins-append (fin ∷ cs) c = omega (arith, fins-append cs c)
fins-append (write bytes ∷ cs) c = fins-append cs c

-- As many ends as the flag says.
abbrev IsMarked : SubgroupWriter → Type 0
IsMarked w = fins w.calls ≡ (if w.finished then 1 else 0)

written-IsMarked :
    (payload : List ℕ) (w : SubgroupWriter) → IsMarked w → IsMarked (write_object payload w)
unfolding write_object fins
written-IsMarked payload w h = ground (
  arith,
  fins-append w.calls (write (appended (encode_object (payload_header payload) payload []))),
)

finished-IsMarked : (w : SubgroupWriter) → IsMarked w → IsMarked (finish w)
unfolding finish fins
finished-IsMarked w h = ground (arith, fins-append w.calls fin)

dropped_once : (w : SubgroupWriter) → IsMarked w → fins (drop_writer w) ≡ 1
unfolding drop_writer fins
dropped_once w h = ground (arith, fins-append w.calls fin)

used-IsMarked : (us : List Use) (w : SubgroupWriter) → IsMarked w → IsMarked (used us w)
unfolding used
used-IsMarked [] w h = h
used-IsMarked (object payload ∷ us) w h =
    used-IsMarked us (write_object payload w) (written-IsMarked payload w h)
used-IsMarked (close ∷ us) w h = used-IsMarked us (finish w) (finished-IsMarked w h)

-- However often a writer is written to and finished, its stream is ended exactly once by the time
-- it is dropped.
pub drop-fin_once : (us : List Use) → fins (drop_writer (used us new)) ≡ 1
drop-fin_once us = dropped_once (used us new) (used-IsMarked us new (unfold new fins in refl))
