-- ===== src/Clients/Publisher/Sent.antt =====
-- The streams that `send_from_stdin` leaves on a session that stays connected.
use moqt_minimal.Prelude.{
  ℕ, suc, ◌+◌, ◌^◌, ◌<◌, ◌≡◌, refl, sym, ap, ◌∙◌, true, false, Option, some, List, [], ◌∷◌, ◌++◌,
  length, map, append_assoc, arith, Bool-cases, inl, inr,
}
use mathlib.Core.Path.{subst}
use moqt_minimal.Map.{and_then}
use moqt_minimal.Session.Subgroups.{subgroup_header}
use moqt_minimal.Session.Events.Received.{group_bytes}
use moqt_minimal.Session.Streams.{Sink, SubgroupWriter, open_subgroup, write_object}
use moqt_minimal.Session.Streams.Lossless.{
  IsLossless, Holds, open_subgroup-Holds, write_object-Holds, finish-Holds,
}
use moqt_minimal.Clients.Ivf.{IvfFrame}
use moqt_minimal.Clients.Publisher.{
  Sending, plus_one, start, taken, counted, send_frames, close_group, result, send_from_stdin,
}
use moqt_minimal.Clients.Publisher.Groups.{
  joined, AreGroups, groups-AreGroups, groups, groups_from, groups_from-key, groups_from-inter,
  groups_from-end,
}
use moqt_minimal.Clients.Publisher.Steps.{
  under, between, ends_group, no_group, sends_first, sends_more,
}

abbrev pub payloads : List IvfFrame → List (List ℕ)
payloads = map (λ (frame : IvfFrame). frame.bytes)

payloads-append :
    (fs : List IvfFrame) (frame : IvfFrame)
    → payloads (fs ++ (frame ∷ [])) ≡ payloads fs ++ (frame.bytes ∷ [])
payloads-append [] frame = refl
payloads-append (f ∷ fs) frame = ap (λ (t : List (List ℕ)). f.bytes ∷ t) (payloads-append fs frame)

module _ {W : Type 0} (sink : Sink W) (session : ℕ) (l : IsLossless sink session) where
  -- A stream with one whole group: alias 1, subgroup 0, one object for each frame, and its end.
  pub record Carries (group_id : ℕ) (group : List IvfFrame) (w : W) : Type 0 where
    pub content : l.content w ≡ group_bytes (subgroup_header 1 group_id 0) (payloads group)
    pub ended : l.ended w ≡ true

  abbrev pub AllCarry : ℕ → List (List IvfFrame) → List W → Type 0
  AllCarry group_id [] [] = Unit
  AllCarry group_id [] (w ∷ ws) = ⊥
  AllCarry group_id (g ∷ gs) [] = ⊥
  AllCarry group_id (g ∷ gs) (w ∷ ws) = Carries group_id g w × AllCarry (suc group_id) gs ws

  abbrev HoldsGroup : ℕ → List IvfFrame → SubgroupWriter W → Type 0
  HoldsGroup group_id group w =
      Holds sink session l (subgroup_header 1 group_id 0) (payloads group) w

  -- What the loop and `close_group` make of the frames, with a group under way.
  record SendsAll (g c : ℕ) (sent : List W) (gs : List (List IvfFrame)) (r : Option (Sending W))
      : Type 0 where
    streams : List W
    returns : and_then r result ≡ some (c + length gs, sent ++ streams)
    carried : AllCarry g gs streams

  plain : (g : ℕ) → (subgroup_header 1 g 0).has_properties ≡ false
  unfolding subgroup_header
  plain g = refl

  adds :
      (g : ℕ) (group : List IvfFrame) (frame : IvfFrame) (w : SubgroupWriter W)
      → HoldsGroup g group w
      → (v : SubgroupWriter W) × (write_object sink frame.bytes w ≡ some v)
        × HoldsGroup g (group ++ (frame ∷ [])) v
  adds g group frame w k =
      let (v, e, kept) =
        write_object-Holds sink session l _ (payloads group) frame.bytes w (plain g) k in
      (
        v,
        e,
        subst (λ ps. Holds sink session l (subgroup_header 1 g 0) ps v)
            (sym (payloads-append group frame)) kept,
      )

  begins :
      (g : ℕ) (frame : IvfFrame)
      → (w : SubgroupWriter W) × (v : SubgroupWriter W) × (open_subgroup sink session 1 g 0
          ≡ some w)
        × (write_object sink frame.bytes w ≡ some v)
        × HoldsGroup g (frame ∷ []) v
  begins g frame =
      let (w, e, k) = open_subgroup-Holds sink session l 1 g 0 in
      let (v, d, h) = adds g [] frame w k in (w, v, e, d, h)

  closes :
      (g o c : ℕ) (sent : List W) (group : List IvfFrame) (w : SubgroupWriter W)
      → suc c < 2 ^ 64
      → HoldsGroup g group w
      → SendsAll g c sent (group ∷ []) (close_group sink session (under g o c sent w))
  unfolding close_group
  closes g o c sent group w small k =
      let (v, e, content, ended) = finish-Holds sink session l _ (payloads group) w k in
      record {
        streams = v.stream ∷ [];
        returns =
            ap
              (λ r.
                and_then (and_then (taken (under g o c sent w) r) (λ s. some (counted s))) result)
              e
            ∙ ap (λ n. some (n, sent ++ (v.stream ∷ []))) (omega arith);
        carried = (record { content = content; ended = ended }, tt);
      }

  sends_on :
      (g c : ℕ) (sent : List W) {gs gs' : List (List IvfFrame)} {r r' : Option (Sending W)}
      → gs' ≡ gs
      → r' ≡ r
      → SendsAll g c sent gs r
      → SendsAll g c sent gs' r'
  sends_on g c sent {gs} {gs'} {r} {r'} e d h =
      subst (λ t. SendsAll g c sent t r') (sym e) (subst (SendsAll g c sent gs) (sym d) h)

  later :
      (frames : List IvfFrame) {r : Option (Sending W)} {s : Sending W}
      → r ≡ some s
      → and_then (and_then r (send_frames sink session frames)) (close_group sink session)
        ≡ and_then (send_frames sink session frames s) (close_group sink session)
  later frames e =
      ap (λ r. and_then (and_then r (send_frames sink session frames)) (close_group sink session)) e

  -- A group that has been sent, in front of the next ones.
  grouped :
      (g c : ℕ) (sent : List W) (group : List IvfFrame) {gs : List (List IvfFrame)} (w : W)
      {r : Option (Sending W)}
      → Carries g group w
      → suc g < 2 ^ 64
      → suc c < 2 ^ 64
      → SendsAll (plus_one g) (plus_one c) (sent ++ (w ∷ [])) gs r
      → SendsAll g c sent (group ∷ gs) r
  grouped g c sent group {gs} w carries small_g small_c h = record {
    streams = w ∷ h.streams;
    returns =
        h.returns
        ∙ (ap (λ n. some (n, (sent ++ (w ∷ [])) ++ h.streams)) (omega arith)
            ∙ ap (λ t. some (c + suc (length gs), t)) (append_assoc sent (w ∷ []) h.streams));
    carried = (carries, subst (λ n. AllCarry n gs h.streams) (omega arith) h.carried);
  }

  sends :
      (frames group : List IvfFrame) (g o c : ℕ) (sent : List W) (w : SubgroupWriter W)
      → suc (g + length frames) < 2 ^ 64
      → suc (c + length frames) < 2 ^ 64
      → HoldsGroup g group w
      → SendsAll g c sent (groups_from group frames) (
          and_then
            (send_frames sink session frames (under g o c sent w))
            (close_group sink session))
  unfolding send_frames
  sends [] group g o c sent w small_g small_c k =
      subst (λ gs. SendsAll g c sent gs (close_group sink session (under g o c sent w)))
        (sym (groups_from-end group)) (closes g o c sent group w (omega arith) k)
  sends (frame ∷ frames) group g o c sent w small_g small_c k =
      elim (Bool-cases frame.is_keyframe) [
        | inr inter ↦
            let (v, e, h) = adds g group frame w k in
            sends_on g c sent (groups_from-inter group frame frames inter)
              (later frames (sends_more sink session frame g o c sent w v inter e))
              (sends frames (group ++ (frame ∷ [])) g (plus_one o) c sent v (omega arith)
                (omega arith) h)
        | inl key ↦
            let (u, done, content, ended) = finish-Holds sink session l _ (payloads group) w k in
            let (first, next, opens, writes, h) = begins (plus_one g) frame in
            sends_on g c sent (groups_from-key group frame frames key)
              (later frames (
                sends_first sink session frame (under g o c sent w) (plus_one g) 0 (plus_one c) true
                  _ first next (ends_group sink session frame g o c sent w u key done) opens
                  writes))
              (grouped g c sent group u.stream (record { content = content; ended = ended })
                (omega arith) (omega arith)
                (sends frames (frame ∷ []) (plus_one g) (plus_one 0) (plus_one c)
                  (sent ++ (u.stream ∷ [])) next (omega arith) (omega arith) h))
      ]

  pub send_from_stdin-AllCarry :
      (frames : List IvfFrame)
      → suc (length frames) < 2 ^ 64
      → (ws : List W) × (send_from_stdin sink session frames ≡ some (length (groups frames), ws))
        × AllCarry 0 (groups frames) ws
  unfolding send_from_stdin groups send_frames start close_group
  send_from_stdin-AllCarry [] small = ([], refl, tt)
  send_from_stdin-AllCarry (frame ∷ frames) small =
      let (first, next, opens, writes, h) = begins 0 frame in
      let begun =
        sends_first sink session frame (between 0 0 0 false []) 0 0 0 false [] first next
          (no_group sink session frame 0 0 0 []) opens writes in
      let all = sends frames (frame ∷ []) 0 (plus_one 0) 0 [] next (omega arith) (omega arith) h in
      (
        all.streams,
        ap (λ r. and_then r result) (later frames begun)
            ∙ (all.returns ∙ ap (λ n. some (n, all.streams)) (omega arith)),
        all.carried,
      )

  -- On a session that stays connected, the frames are cut into groups, in order and none left out
  -- or doubled, of which every one but the first begins with a keyframe and none has a keyframe
  -- further on. The streams, in the order in which they are finished, carry one group each, with
  -- the group ids 0, 1, 2 and so on: the header of the group, each frame as one object, and the
  -- end. The count for PUBLISH_DONE is the number of these streams.
  pub send_from_stdin-AreGroups :
      (frames : List IvfFrame)
      → suc (length frames) < 2 ^ 64
      → (gs : List (List IvfFrame)) × (ws : List W) × (joined gs ≡ frames)
        × AreGroups gs
        × (send_from_stdin sink session frames ≡ some (length gs, ws))
        × AllCarry 0 gs ws
  send_from_stdin-AreGroups frames small =
      let (ws, sent, carried) = send_from_stdin-AllCarry frames small in
      let (same, are) = groups-AreGroups frames in (groups frames, ws, same, are, sent, carried)
