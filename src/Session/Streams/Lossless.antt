-- ===== src/Session/Streams/Lossless.antt =====
-- Streams that take what they are given, and what a group's stream holds then.
use moqt_minimal.Prelude.{
  ℕ, ◌≡◌, refl, sym, ap, ◌∙◌, Bool, true, false, some, List, [], ◌∷◌, ◌++◌, map, append_assoc,
  append-nil,
}
use moqt_minimal.Wire.SubgroupHeader
use moqt_minimal.Wire.SubgroupHeader.{SubgroupHeader}
use moqt_minimal.Wire.SubgroupHeader.RoundTrip.{header_bytes, Writes-header}
use moqt_minimal.Stream.Data.Objects.{stream_bytes, object_bytes}
use moqt_minimal.Session.Subgroups.{subgroup_header}
use moqt_minimal.Session.Subgroups.Payloads.{as_object, written_object}
use moqt_minimal.Session.Events.Received.{group_bytes}
use moqt_minimal.Session.Streams.{
  Sink, SubgroupWriter, with_header, written, if_written, open_data_stream, open_subgroup,
  as_writer, restored, write_object, finish,
}

-- The streams of a session that stays connected: what is written to one is what its other end gets.
pub record IsLossless {W : Type 0} (sink : Sink W) (session : ℕ) : Type 0 where
  pub content : W → List ℕ
  pub ended : W → Bool
  pub opens : (w : W) × (sink.open_uni session ≡ some w) × (content w ≡ []) × (ended w ≡ false)
  pub writes :
      (bytes : List ℕ) (w : W)
      → ended w ≡ false
      → (v : W) × (sink.write_all bytes w ≡ (true, v))
        × (content v ≡ content w ++ bytes)
        × (ended v ≡ false)
  pub finishes :
      (w : W)
      → ended w ≡ false
      → (v : W) × (sink.finish w ≡ (true, v)) × (content v ≡ content w) × (ended v ≡ true)

stream_bytes-append :
    (b : Bool) (ps : List (List ℕ)) (p : List ℕ)
    → stream_bytes b (map as_object (ps ++ (p ∷ [])))
      ≡ stream_bytes b (map as_object ps) ++ object_bytes b (as_object p)
stream_bytes-append b [] p = append-nil _
stream_bytes-append b (q ∷ ps) p =
    ap (λ (u : List ℕ). object_bytes b (as_object q) ++ u) (stream_bytes-append b ps p)
    ∙ sym (append_assoc (object_bytes b (as_object q)) (stream_bytes b (map as_object ps)) _)

pub group_bytes-append :
    (h : SubgroupHeader) (ps : List (List ℕ)) (p : List ℕ)
    → group_bytes h (ps ++ (p ∷ []))
      ≡ group_bytes h ps ++ object_bytes h.has_properties (as_object p)
group_bytes-append h ps p =
    ap (λ (u : List ℕ). header_bytes h ++ u) (stream_bytes-append h.has_properties ps p)
    ∙ sym (append_assoc (header_bytes h) (stream_bytes h.has_properties (map as_object ps)) _)

module _ {W : Type 0} (sink : Sink W) (session : ℕ) (l : IsLossless sink session) where
  -- The writer of a group under way that has been given `payloads`.
  pub record Holds (h : SubgroupHeader) (payloads : List (List ℕ)) (w : SubgroupWriter W)
      : Type 0 where
    pub content : l.content w.stream ≡ group_bytes h payloads
    pub open_ : l.ended w.stream ≡ false
    pub unfinished : w.finished ≡ false

  pub open_data_stream-header :
      (h : SubgroupHeader)
      → (w : W) × (open_data_stream sink h session ≡ some w)
        × (l.content w ≡ header_bytes h)
        × (l.ended w ≡ false)
  unfolding open_data_stream
  open_data_stream-header h =
      let (w, e, c, o) = l.opens in
      let bytes : written (SubgroupHeader.encode h []) ≡ header_bytes h =
        ap written ((Writes-header h).on []) in
      let (v, d, g, u) = l.writes (written (SubgroupHeader.encode h [])) w o in
      (v, ap (with_header sink h) e ∙ ap (if_written) d, g ∙ rw (c, bytes) refl, u)

  pub open_subgroup-Holds :
      (alias group sub : ℕ)
      → (w : SubgroupWriter W) × (open_subgroup sink session alias group sub ≡ some w)
        × Holds (subgroup_header alias group sub) [] w
  unfolding open_subgroup
  open_subgroup-Holds alias group sub =
      let h = subgroup_header alias group sub in
      let (w, e, c, o) = open_data_stream-header h in
      (
        record { stream = w; finished = false },
        ap (as_writer) e,
        record { content = c ∙ sym (append-nil (header_bytes h)); open_ = o; unfinished = refl },
      )

  pub write_object-Holds :
      (h : SubgroupHeader) (payloads : List (List ℕ)) (p : List ℕ) (w : SubgroupWriter W)
      → h.has_properties ≡ false
      → Holds h payloads w
      → (v : SubgroupWriter W) × (write_object sink p w ≡ some v) × Holds h (payloads ++ (p ∷ [])) v
  unfolding write_object
  write_object-Holds h payloads p w plain k =
      let (v, e, c, o) = l.writes _ w.stream k.open_ in
      (
        record { stream = v; finished = w.finished },
        ap (λ r. restored w.finished (if_written r)) e,
        record {
          content =
              c
              ∙ (rw (k.content, written_object p)
                    (ap (λ (b : Bool). group_bytes h payloads ++ object_bytes b (as_object p))
                      (sym plain))
                  ∙ sym (group_bytes-append h payloads p));
          open_ = o;
          unfinished = k.unfinished;
        },
      )

  pub finish-Holds :
      (h : SubgroupHeader) (payloads : List (List ℕ)) (w : SubgroupWriter W)
      → Holds h payloads w
      → (v : SubgroupWriter W) × (finish sink w ≡ some v)
        × (l.content v.stream ≡ group_bytes h payloads)
        × (l.ended v.stream ≡ true)
  unfolding finish
  finish-Holds h payloads w k =
      let (v, e, c, o) = l.finishes w.stream k.open_ in
      (record { stream = v; finished = true }, rw (k.unfinished, e) refl, c ∙ k.content, o)
