-- ===== src/Clients/Subscriber/Stderr.antt =====
-- What the receive loop of moqt-sub has reported in demo mode when well-formed groups have come.
use moqt_minimal.Prelude.{
  ℕ, zero, suc, ◌+◌, ◌%◌, ◌^◌, ◌<◌, ◌≡◌, sym, ap, ◌∙◌, false, none, some, List, [], ◌∷◌, ◌++◌,
  length, map, append_assoc, append-nil, arith, All, IsU64,
}
use moqt_minimal.Buffer.{ok}
use moqt_minimal.Wire.SubgroupHeader.{SubgroupHeader}
use moqt_minimal.Stream.Transport.{Transport}
use moqt_minimal.Stream.Data.Objects.{stream_bytes}
use moqt_minimal.Session.Subgroups.Payloads.{as_object}
use moqt_minimal.Session.Events.{SubgroupReader, uni, read_object}
use moqt_minimal.Session.Events.Received.{at_stream, read_object-payload, read_object-none}
use moqt_minimal.Clients.Subscriber.{
  Line, group_line, object_line, Output, report, show_group, receive_group, receive,
}
use moqt_minimal.Clients.Subscriber.Stdout.{Group, IsValid, Enough, Deliver, receive-next}

-- The objects of a group, numbered from `object_id` on.
abbrev pub objects_lines : ℕ → List (List ℕ) → List Line
objects_lines object_id [] = []
objects_lines object_id (p ∷ ps) =
    object_line object_id (length p) ∷ objects_lines ((object_id + 1) % 2 ^ 64) ps

abbrev pub group_lines : Group → List Line
group_lines g = group_line g.header.group_id g.header.track_alias ∷ objects_lines 0 g.payloads

abbrev pub all_lines : List Group → List Line
all_lines [] = []
all_lines (g ∷ gs) = group_lines g ++ all_lines gs

abbrev pub with_lines : List Line → Output → Output
with_lines lines out = record out { stderr = out.stderr ++ lines }

with_lines-append :
    (ls ms : List Line) (out : Output)
    → with_lines ms (with_lines ls out) ≡ with_lines (ls ++ ms) out
with_lines-append ls ms out = ap (λ l. record out { stderr = l }) (append_assoc out.stderr ls ms)

with_lines-nil : (out : Output) → out ≡ with_lines [] out
with_lines-nil out = ap (λ l. record out { stderr = l }) (sym (append-nil out.stderr))

report-with_lines :
    (line : Line) (ls : List Line) (out : Output)
    → with_lines ls (report line out) ≡ with_lines (line ∷ ls) out
unfolding report
report-with_lines line ls out = with_lines-append (line ∷ []) ls out

module _ {R : Type 0} (t : Transport R) where
  show_group-none :
      (fuel id : ℕ) (group next : SubgroupReader R) (out : Output)
      → read_object t group ≡ ok (none, next)
      → show_group t (suc fuel) group id out ≡ some out
  unfolding show_group
  show_group-none fuel id group next out e = ground arith

  show_group-some :
      (fuel id : ℕ) (group next : SubgroupReader R) (p : List ℕ) (out : Output)
      → read_object t group ≡ ok (some p, next)
      → show_group t (suc fuel) group id out
        ≡ show_group t fuel next ((id + 1) % 2 ^ 64) (report (object_line id (length p)) out)
  unfolding show_group
  show_group-some fuel id group next p out e = ground arith

  show_group-all :
      (h : SubgroupHeader) (ps : List (List ℕ)) (r : R) (fuel id : ℕ) (out : Output)
      → length ps < fuel
      → All (λ (p : List ℕ). IsU64 (length p)) ps
      → t.pending r ≡ stream_bytes h.has_properties (map as_object ps)
      → show_group t fuel (at_stream h r) id out ≡ some (with_lines (objects_lines id ps) out)
  show_group-all h ps r zero id out enough v e = absurd (omega arith)
  show_group-all h [] r (suc fuel) id out enough v e =
      show_group-none fuel id _ _ out (read_object-none t h r e) ∙ ap some (with_lines-nil out)
  show_group-all h (p ∷ ps) r (suc fuel) id out enough v e =
      let (s, d, left) = read_object-payload t h p r _ v.0 e in
      show_group-some fuel id _ _ p out d
      ∙ (show_group-all h ps s fuel ((id + 1) % 2 ^ 64) (report (object_line id (length p)) out)
            (omega arith) v.1 left
          ∙ ap some (report-with_lines (object_line id (length p)) _ out))

  receive_group-lines :
      (g : Group) (s : R) (fuel : ℕ) (out : Output)
      → IsValid g
      → length g.payloads < fuel
      → t.pending s ≡ stream_bytes g.header.has_properties (map as_object g.payloads)
      → receive_group t false fuel (at_stream g.header s) out
        ≡ some (with_lines (group_lines g) out)
  unfolding receive_group
  receive_group-lines g s fuel out v enough e =
      show_group-all g.header g.payloads s fuel 0 _ enough v.payloads e
      ∙ ap some (report-with_lines (group_line g.header.group_id g.header.track_alias) _ out)

  -- In demo mode the groups that come are reported on stderr in their order, each with its group id
  -- and its track alias, followed by its objects, each with its number in the group and the size of
  -- its payload; nothing is written to stdout. One round more than a group has objects is enough.
  pub receive-stderr :
      (gs : List Group) (rs : List R) (fuel : ℕ) (out : Output)
      → All IsValid gs
      → All (Enough fuel) gs
      → Deliver t gs rs
      → receive t false fuel (map uni rs) out ≡ some (with_lines (all_lines gs) out)
  unfolding receive
  receive-stderr [] [] fuel out v enough d = ap some (with_lines-nil out)
  receive-stderr [] (r ∷ rs) fuel out v enough d = elim d [ ]
  receive-stderr (g ∷ gs) [] fuel out v enough d = elim d [ ]
  receive-stderr (g ∷ gs) (r ∷ rs) fuel out v enough d =
      receive-next t false g r fuel (map uni rs) out _ v.0 d.0
        (λ s left. receive_group-lines g s fuel out v.0 enough.0 left)
      ∙ (receive-stderr gs rs fuel (with_lines (group_lines g) out) v.1 enough.1 d.1
          ∙ ap some (with_lines-append (group_lines g) (all_lines gs) out))
