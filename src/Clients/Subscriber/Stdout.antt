-- ===== src/Clients/Subscriber/Stdout.antt =====
-- What the receive loop of moqt-sub has written in pipe mode when well-formed groups have come.
use moqt_minimal.Prelude.{
  ℕ, zero, suc, ◌+◌, ◌%◌, ◌^◌, ◌<◌, ◌≡◌, refl, sym, ap, ◌∙◌, Bool, true, none, some, List, [], ◌∷◌,
  ◌++◌, length, map, append_assoc, append-nil, arith, All, IsU64,
}
use moqt_minimal.Map.{and_then}
use moqt_minimal.Buffer.{ok}
use moqt_minimal.Wire.SubgroupHeader.{SubgroupHeader}
use moqt_minimal.Wire.SubgroupHeader.RoundTrip as Header
use moqt_minimal.Stream.Transport.{Transport}
use moqt_minimal.Stream.Data.Objects.{stream_bytes}
use moqt_minimal.Session.Subgroups.Payloads.{as_object}
use moqt_minimal.Session.Events.{SubgroupReader, Arrival, uni, data_stream, next_event, read_object}
use moqt_minimal.Session.Events.Received.{
  group_bytes, at_stream, next_event-data_stream, read_object-payload, read_object-none,
}
use moqt_minimal.Clients.Ivf.{ivf_header, ivf_frame}
use moqt_minimal.Clients.Subscriber.{
  Output, nothing_written, write_header, write_payload, write_group, receive_group, receive,
}

-- A group on its way: the header and the payloads of the objects.
pub record Group : Type 0 where
  pub header : SubgroupHeader
  pub payloads : List (List ℕ)

pub record IsValid (g : Group) : Type 0 where
  pub header : Header.IsValid g.header
  pub payloads : All (λ (p : List ℕ). IsU64 (length p)) g.payloads

abbrev pub Enough : ℕ → Group → Type 0
Enough fuel g = length g.payloads < fuel

-- The frames of an IVF file, numbered from `index` on.
abbrev pub ivf_frames : ℕ → List (List ℕ) → List ℕ
ivf_frames index [] = []
ivf_frames index (p ∷ ps) = ivf_frame index p ++ ivf_frames ((index + 1) % 2 ^ 64) ps

abbrev pub all_payloads : List Group → List (List ℕ)
all_payloads [] = []
all_payloads (g ∷ gs) = g.payloads ++ all_payloads gs

module _ {R : Type 0} (t : Transport R) where
  -- The streams that deliver the groups, one each.
  abbrev pub Deliver : List Group → List R → Type 0
  Deliver [] [] = Unit
  Deliver [] (r ∷ rs) = ⊥
  Deliver (g ∷ gs) [] = ⊥
  Deliver (g ∷ gs) (r ∷ rs) = (t.pending r ≡ group_bytes g.header g.payloads) × Deliver gs rs

unfoldable write_payloads : List (List ℕ) → Output → Output
write_payloads [] out = out
write_payloads (p ∷ ps) out = write_payloads ps (write_payload p out)

-- The output once the file header has been written.
abbrev pub at_index : ℕ → List ℕ → Output
at_index index bytes = record {
  ivf_header_written = true;
  frame_index = index;
  stdout = bytes;
  stderr = [];
}

write_payloads-append :
    (ps qs : List (List ℕ)) (out : Output)
    → write_payloads (ps ++ qs) out ≡ write_payloads qs (write_payloads ps out)
unfolding write_payloads
write_payloads-append [] qs out = refl
write_payloads-append (p ∷ ps) qs out = write_payloads-append ps qs (write_payload p out)

write_payloads-frames :
    (ps : List (List ℕ)) (index : ℕ) (bytes : List ℕ)
    → (next : ℕ) × (write_payloads ps (at_index index bytes)
        ≡ at_index next (bytes ++ ivf_frames index ps))
unfolding write_payloads write_payload
write_payloads-frames [] index bytes = (index, ap (at_index index) (sym (append-nil bytes)))
write_payloads-frames (p ∷ ps) index bytes =
    let (next, e) = write_payloads-frames ps ((index + 1) % 2 ^ 64) (bytes ++ ivf_frame index p) in
    (next, e ∙ ap (at_index next) (append_assoc bytes (ivf_frame index p) _))

module _ {R : Type 0} (t : Transport R) where
  write_group-none :
      (fuel : ℕ) (group next : SubgroupReader R) (out : Output)
      → read_object t group ≡ ok (none, next)
      → write_group t (suc fuel) group out ≡ some out
  unfolding write_group
  write_group-none fuel group next out e = ground arith

  write_group-some :
      (fuel : ℕ) (group next : SubgroupReader R) (p : List ℕ) (out : Output)
      → read_object t group ≡ ok (some p, next)
      → write_group t (suc fuel) group out ≡ write_group t fuel next (write_payload p out)
  unfolding write_group
  write_group-some fuel group next p out e = ground arith

  write_group-all :
      (h : SubgroupHeader) (ps : List (List ℕ)) (r : R) (fuel : ℕ) (out : Output)
      → length ps < fuel
      → All (λ (p : List ℕ). IsU64 (length p)) ps
      → t.pending r ≡ stream_bytes h.has_properties (map as_object ps)
      → write_group t fuel (at_stream h r) out ≡ some (write_payloads ps out)
  unfolding write_payloads
  write_group-all h ps r zero out enough v e = absurd (omega arith)
  write_group-all h [] r (suc fuel) out enough v e =
      write_group-none fuel _ _ out (read_object-none t h r e)
  write_group-all h (p ∷ ps) r (suc fuel) out enough v e =
      let (s, d, left) = read_object-payload t h p r _ v.0 e in
      write_group-some fuel _ _ p out d
      ∙ write_group-all h ps s fuel (write_payload p out) (omega arith) v.1 left

  receive-group :
      (b : Bool) (fuel : ℕ) (arrival : Arrival R) (arrivals : List (Arrival R))
      (group : SubgroupReader R) (out : Output)
      → next_event t arrival ≡ ok (data_stream group)
      → receive t b fuel (arrival ∷ arrivals) out
        ≡ and_then (receive_group t b fuel group out) (receive t b fuel arrivals)
  unfolding receive
  receive-group b fuel arrival arrivals group out e = ground arith

  -- One group, from the arrival of its stream on, in either mode.
  pub receive-next :
      (b : Bool) (g : Group) (r : R) (fuel : ℕ) (arrivals : List (Arrival R)) (out next : Output)
      → IsValid g
      → t.pending r ≡ group_bytes g.header g.payloads
      → ((s : R)
          → t.pending s ≡ stream_bytes g.header.has_properties (map as_object g.payloads)
          → receive_group t b fuel (at_stream g.header s) out ≡ some next)
      → receive t b fuel (uni r ∷ arrivals) out ≡ receive t b fuel arrivals next
  receive-next b g r fuel arrivals out next v e one =
      let (s, d, left) = next_event-data_stream t g.header r _ v.header e in
      receive-group b fuel (uni r) arrivals _ out d
      ∙ ap (λ o. and_then o (receive t b fuel arrivals)) (one s left)

  receive-written :
      (g : Group) (r : R) (fuel : ℕ) (arrivals : List (Arrival R)) (out : Output)
      → IsValid g
      → length g.payloads < fuel
      → t.pending r ≡ group_bytes g.header g.payloads
      → receive t true fuel (uni r ∷ arrivals) out
        ≡ receive t true fuel arrivals (write_payloads g.payloads (write_header out))
  unfolding receive_group
  receive-written g r fuel arrivals out v enough e =
      receive-next true g r fuel arrivals out _ v e (λ s left.
        write_group-all g.header g.payloads s fuel (write_header out) enough v.payloads left)

  receive-rest :
      (gs : List Group) (rs : List R) (fuel : ℕ) (index : ℕ) (bytes : List ℕ)
      → All IsValid gs
      → All (Enough fuel) gs
      → Deliver t gs rs
      → receive t true fuel (map uni rs) (at_index index bytes)
        ≡ some (write_payloads (all_payloads gs) (at_index index bytes))
  unfolding receive write_payloads write_header
  receive-rest [] [] fuel index bytes v enough d = refl
  receive-rest [] (r ∷ rs) fuel index bytes v enough d = elim d [ ]
  receive-rest (g ∷ gs) [] fuel index bytes v enough d = elim d [ ]
  receive-rest (g ∷ gs) (r ∷ rs) fuel index bytes v enough d =
      let (next, e) = write_payloads-frames g.payloads index bytes in
      receive-written g r fuel (map uni rs) (at_index index bytes) v.0 enough.0 d.0
      ∙ (ap (receive t true fuel (map uni rs)) e
          ∙ (receive-rest gs rs fuel next _ v.1 enough.1 d.1
              ∙ ap some (
                  ap (write_payloads (all_payloads gs)) (sym e)
                  ∙ sym
                      (write_payloads-append g.payloads (all_payloads gs) (at_index index bytes)))))

  -- At least one group.
  receive-frames :
      (g : Group) (gs : List Group) (r : R) (rs : List R) (fuel : ℕ)
      → All IsValid (g ∷ gs)
      → All (Enough fuel) (g ∷ gs)
      → Deliver t (g ∷ gs) (r ∷ rs)
      → (next : ℕ) × (receive t true fuel (map uni (r ∷ rs)) nothing_written
          ≡ some (at_index next (ivf_header ++ ivf_frames 0 (all_payloads (g ∷ gs)))))
  unfolding nothing_written write_header
  receive-frames g gs r rs fuel v enough d =
      let (next, e) = write_payloads-frames g.payloads 0 ivf_header in
      let (last, f) = write_payloads-frames (all_payloads (g ∷ gs)) 0 ivf_header in
      (
        last,
        receive-written g r fuel (map uni rs) nothing_written v.0 enough.0 d.0
            ∙ (ap (receive t true fuel (map uni rs)) e
                ∙ (receive-rest gs rs fuel next _ v.1 enough.1 d.1
                    ∙ ap some (
                        ap (write_payloads (all_payloads gs)) (sym e)
                        ∙ (sym (
                              write_payloads-append g.payloads (all_payloads gs)
                                (at_index 0 ivf_header))
                            ∙ f)))),
      )

  -- The file header, and the frames of all groups, each as it is written.
  pub receive-stdout :
      (gs : List Group) (rs : List R) (fuel : ℕ)
      → 0 < length gs
      → All IsValid gs
      → All (Enough fuel) gs
      → Deliver t gs rs
      → (next : ℕ) × (receive t true fuel (map uni rs) nothing_written
          ≡ some (at_index next (ivf_header ++ ivf_frames 0 (all_payloads gs))))
  receive-stdout [] rs fuel some_group v enough d = absurd (omega arith)
  receive-stdout (g ∷ gs) [] fuel some_group v enough d = elim d [ ]
  receive-stdout (g ∷ gs) (r ∷ rs) fuel some_group v enough d =
      receive-frames g gs r rs fuel v enough d
