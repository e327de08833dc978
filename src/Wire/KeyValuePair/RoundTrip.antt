-- ===== src/Wire/KeyValuePair/RoundTrip.antt =====
-- Pairs: the two directions of moqt-core/src/wire/key_value_pair.rs.
use moqt_minimal.Prelude.{
  ℕ, zero, suc, ◌-◌, ◌%◌, ◌≤◌, ◌<◌, ◌≡◌, refl, List, [], ◌∷◌, ◌++◌, length, arith, IsU64, All,
  le→leb, length-append,
}
use moqt_minimal.Buffer.{Writes, Writes-bind, Writes-push, Writes-ensure, Writes-pure, pure_run}
use moqt_minimal.Buffer.{
  ok, Reads, Reads-bind, Reads-last, Reads-split, Reads-ensure, Reads-checked_add, ◌>>=◌, pure,
}
use moqt_minimal.Wire.Varint.{varint_bytes}
use moqt_minimal.Wire.Varint.RoundTrip.{Reads-varint, Writes-varint}
use moqt_minimal.Wire.Varint.Decode.{varint_bytes-nonempty}
use moqt_minimal.Wire.KeyValuePair.{KvValue, varint, bytes, KeyValuePair, max_value_length}
use moqt_minimal.Wire.KeyValuePair.{
  check_parity, encode_kv_value, encode_pairs_from, encode_key_value_pairs,
}
use moqt_minimal.Wire.KeyValuePair.{
  decode_bytes_value, decode_kv_value, decode_pair, decode_pairs_from, decode_key_value_pairs,
}
use moqt_minimal.Prelude.{◌∙◌, append_assoc}
use moqt_minimal.Buffer.{bind-after_ok}

-- The parity of a type wants this kind of value, of a length that the receiver takes.
abbrev pub Fits : ℕ → KvValue → Type 0
Fits t (varint v) = (t % 2 ≡ 0) × IsU64 v
Fits t (bytes bs) = (t % 2 ≡ 1) × (length bs ≤ max_value_length)

abbrev pub IsPair : KeyValuePair → Type 0
IsPair p = IsU64 p.type_id × Fits p.type_id p.value

abbrev pub Ascending : ℕ → List KeyValuePair → Type 0
Ascending prev [] = Unit
Ascending prev (p ∷ ps) = (prev ≤ p.type_id) × Ascending p.type_id ps

abbrev pub ArePairs : List KeyValuePair → Type 0
ArePairs ps = Ascending 0 ps × All IsPair ps

abbrev kv_value_bytes : KvValue → List ℕ
kv_value_bytes (varint v) = varint_bytes v
kv_value_bytes (bytes bs) = varint_bytes (length bs) ++ bs

abbrev pairs_bytes_from : ℕ → List KeyValuePair → List ℕ
pairs_bytes_from prev [] = []
pairs_bytes_from prev (p ∷ ps) =
    varint_bytes (p.type_id - prev) ++ (kv_value_bytes p.value ++ pairs_bytes_from p.type_id ps)

abbrev pub pairs_bytes : List KeyValuePair → List ℕ
pairs_bytes ps = pairs_bytes_from 0 ps

Writes-parity : (t : ℕ) (v : KvValue) → Fits t v → Writes (check_parity v (t % 2)) []
unfolding check_parity
Writes-parity t (varint v) h = rw h.0 Writes-pure
Writes-parity t (bytes bs) h = rw h.0 Writes-pure

Writes-kv_value : (v : KvValue) → Writes (encode_kv_value v) (kv_value_bytes v)
unfolding encode_kv_value
Writes-kv_value (varint v) = Writes-varint v
Writes-kv_value (bytes bs) = Writes-bind (Writes-varint _) (Writes-push bs)

Writes-from :
    (prev : ℕ) (ps : List KeyValuePair)
    → Ascending prev ps
    → All IsPair ps
    → Writes (encode_pairs_from prev ps) (pairs_bytes_from prev ps)
unfolding encode_pairs_from
Writes-from prev [] ha hp = Writes-pure
Writes-from prev (p ∷ ps) (le, ha) (hp, hps) = Writes-bind (Writes-ensure _ _ (ground arith)) (
    Writes-bind (Writes-parity p.type_id p.value hp.1) (
      Writes-bind (Writes-varint _)
        (Writes-bind (Writes-kv_value p.value) (Writes-from p.type_id ps ha hps))))

Reads-kv_value : (t : ℕ) (v : KvValue) → Fits t v → Reads (decode_kv_value t) v (kv_value_bytes v)
unfolding decode_kv_value decode_bytes_value
Reads-kv_value t (varint v) h = rw h.0 (Reads-last _ _ (Reads-varint v h.1))
Reads-kv_value t (bytes bs) h = rw h.0 (
    Reads-bind _ _ (Reads-varint (length bs) (omega arith))
      (Reads-bind _ _ (Reads-ensure _ _ (le→leb _ _ h.1)) (Reads-last _ _ (Reads-split bs _))))

Reads-pair :
    (prev : ℕ) (p : KeyValuePair)
    → prev ≤ p.type_id
    → IsPair p
    → Reads (decode_pair prev) p (varint_bytes (p.type_id - prev) ++ kv_value_bytes p.value)
unfolding decode_pair
Reads-pair prev p le h = Reads-bind _ _ (Reads-varint (p.type_id - prev) (omega arith)) (
    Reads-bind _ _ (Reads-checked_add prev p.type_id le h.0)
      (Reads-last _ _ (Reads-kv_value p.type_id p.value h.1)))

pair_read :
    (prev : ℕ) (p : KeyValuePair) (rest : List ℕ)
    → prev ≤ p.type_id
    → IsPair p
    → decode_pair prev (varint_bytes (p.type_id - prev) ++ (kv_value_bytes p.value ++ rest))
      ≡ ok (p, rest)
pair_read prev p rest le h =
    rw (← append_assoc (varint_bytes (p.type_id - prev)) (kv_value_bytes p.value) rest)
      ((Reads-pair prev p le h).on rest)

pub decode_round :
    (fuel prev : ℕ) (buf : List ℕ)
    → 1 ≤ length buf
    → decode_pairs_from (suc fuel) prev buf
      ≡ (decode_pair prev >>= λ pair.
            decode_pairs_from fuel pair.type_id >>= λ pairs. pure (pair ∷ pairs))
          buf
unfolding decode_pairs_from
decode_round fuel prev [] h = absurd (omega arith)
decode_round fuel prev (b ∷ buf) h = refl

pair_shrinks :
    (prev : ℕ) (p : KeyValuePair) (ps : List KeyValuePair)
    → length (pairs_bytes_from p.type_id ps) < length (pairs_bytes_from prev (p ∷ ps))
pair_shrinks prev p ps =
    let delta = varint_bytes (p.type_id - prev) in
    let rest = pairs_bytes_from p.type_id ps in
    omega (
      arith,
      length-append delta (kv_value_bytes p.value ++ rest),
      length-append (kv_value_bytes p.value) rest,
      varint_bytes-nonempty (p.type_id - prev),
    )

decode_from-bytes :
    (fuel prev : ℕ) (ps : List KeyValuePair)
    → Ascending prev ps
    → All IsPair ps
    → length (pairs_bytes_from prev ps) ≤ fuel
    → decode_pairs_from fuel prev (pairs_bytes_from prev ps) ≡ ok (ps, [])
decode_from-bytes fuel prev [] ha hp hf = unfold decode_pairs_from in refl
decode_from-bytes zero prev (p ∷ ps) (le, ha) (hp, hps) hf =
    absurd (omega (arith, pair_shrinks prev p ps))
decode_from-bytes (suc fuel) prev (p ∷ ps) (le, ha) (hp, hps) hf =
    let rest = pairs_bytes_from p.type_id ps in
    let step = pair_shrinks prev p ps in
    decode_round fuel prev _ (omega arith)
    ∙ bind-after_ok _ _ (pair_read prev p rest le hp)
    ∙ bind-after_ok _ _ (decode_from-bytes fuel p.type_id ps ha hps (omega arith))
    ∙ pure_run (p ∷ ps) []

pub Writes-pairs :
    (ps : List KeyValuePair) → ArePairs ps → Writes (encode_key_value_pairs ps) (pairs_bytes ps)
unfolding encode_key_value_pairs
Writes-pairs ps h = Writes-from 0 ps h.0 h.1

pub decode-pairs_bytes :
    (ps : List KeyValuePair) → ArePairs ps → decode_key_value_pairs (pairs_bytes ps) ≡ ok (ps, [])
unfolding decode_key_value_pairs
decode-pairs_bytes ps h = decode_from-bytes _ 0 ps h.0 h.1 (omega arith)

-- Pairs in ascending order whose values are of the kind that the parity of their type wants, with
-- byte strings of at most 65535 bytes, are read back from exactly the bytes that were written.
pub pairs_round_trip :
    (ps : List KeyValuePair)
    → ArePairs ps
    → (bs : List ℕ) × Writes (encode_key_value_pairs ps) bs
      × (decode_key_value_pairs bs ≡ ok (ps, []))
pairs_round_trip ps h = (pairs_bytes ps, Writes-pairs ps h, decode-pairs_bytes ps h)
