-- ===== src/Stream/Data/Header.antt =====
-- A subgroup header off a stream: its writer and its reader.
use moqt_minimal.Prelude.{
  ℕ, ◌≡◌, ap, not, Option, none, some, List, [], ◌∷◌, ◌++◌, IsU64, arith, ◌==◌, bit_and,
}
use moqt_minimal.Buffer.{ok, Writes, Reads-exact}
use moqt_minimal.Wire.SubgroupHeader
use moqt_minimal.Wire.SubgroupHeader.{SubgroupHeader, is_some, type_byte, subgroup_id_mode}
use moqt_minimal.Wire.SubgroupHeader.Types.{Reflects, type_of_flags-Reflects}
use moqt_minimal.Wire.SubgroupHeader.RoundTrip.{
  IsValid, OptionAll, id_bytes, priority_bytes, header_bytes, Reads-header, Writes-header,
}
use moqt_minimal.Stream.Transport.{
  Transport, Pulls, Pulls-bind, Pulls-last, Pulls-pure, Pulls-decoded, Pulls-read_exact,
}
use moqt_minimal.Stream.Frame.RoundTrip.{Pulls-varint}
use moqt_minimal.Stream.Data.{
  DataStreamReader, read_subgroup_id, read_priority, read_header, read_subgroup_header, header_read,
}

type_byte-Reflects :
    (h : SubgroupHeader)
    → Reflects
        (type_byte h)
        h.has_properties
        (is_some h.subgroup_id)
        h.end_of_group
        (not (is_some h.publisher_priority))
unfolding type_byte
type_byte-Reflects h = type_of_flags-Reflects _ _ _ _

module _ {R : Type 0} (t : Transport R) where
  Pulls-id :
      (ty : ℕ) (o : Option ℕ)
      → (subgroup_id_mode ty == 0x02) ≡ is_some o
      → OptionAll IsU64 o
      → Pulls t (read_subgroup_id t ty) (id_bytes o) (id_bytes o)
  unfolding read_subgroup_id
  Pulls-id ty none e h = rw e (Pulls-pure t [])
  Pulls-id ty (some id) e h = rw e (Pulls-last t _ _ (Pulls-varint t id h) (Pulls-pure t _))

  Pulls-priority :
      (ty : ℕ) (o : Option ℕ)
      → (bit_and ty 0x20 == 0) ≡ not (not (is_some o))
      → Pulls t (read_priority t ty) (priority_bytes o) (priority_bytes o)
  unfolding read_priority
  Pulls-priority ty none e = rw e (Pulls-pure t [])
  Pulls-priority ty (some priority) e = rw e (Pulls-read_exact t (priority ∷ []))

  Pulls-header :
      (h : SubgroupHeader)
      → IsValid h
      → Pulls t (read_header t) (h, header_bytes h) (header_bytes h)
  unfolding read_header
  Pulls-header h v =
      let r = type_byte-Reflects h in
      Pulls-bind t _ _ (Pulls-varint t (type_byte h) (omega (arith, r.small))) (
        Pulls-bind t _ _ (Pulls-varint t h.track_alias v.track_alias) (
          Pulls-bind t _ _ (Pulls-varint t h.group_id v.group_id) (
            Pulls-bind t _ _ (Pulls-id (type_byte h) h.subgroup_id r.mode v.subgroup_id) (
              Pulls-last t _ _ (Pulls-priority (type_byte h) h.publisher_priority r.priority) (
                Pulls-last t _ _
                  (Pulls-decoded t (header_bytes h) [] SubgroupHeader.decode
                    (Reads-exact _ _ (Reads-header h v)))
                  (Pulls-pure t _))))))

  -- The bytes that `write_subgroup_header` hands to a stream are read off it as the same header,
  -- with these very bytes beside it and nothing behind them taken; from then on the reader knows
  -- whether objects have properties.
  pub header_stream_round_trip :
      (h : SubgroupHeader) (reader : DataStreamReader R) (rest : List ℕ)
      → IsValid h
      → t.pending reader.stream ≡ header_bytes h ++ rest
      → Writes (SubgroupHeader.encode h) (header_bytes h)
        × ((s : R) × (read_subgroup_header t reader
              ≡ ok ((h, header_bytes h), record { stream = s; has_properties = h.has_properties }))
            × (t.pending s ≡ rest))
  unfolding read_subgroup_header
  header_stream_round_trip h reader rest v p =
      let (s, e, left) = (Pulls-header h v).on reader.stream rest p in
      (Writes-header h, (s, ap (header_read t) e, left))
