-- ===== src/Wire/KeyValuePair/Decode.antt =====
-- `decode_key_value_pairs` on any input.
use moqt_minimal.Prelude.{ℕ, zero, suc, ◌%◌, ◌≤◌, ◌≡◌, ◌≢◌, ◌==◌, List, [], ◌∷◌, length, arith, All}
use moqt_minimal.Wire.KeyValuePair.RoundTrip.{decode_round}
use moqt_minimal.Buffer.{
  bind-ends, ok, err, out_of_fuel, Runs, Runs-bind, Runs-pure, Runs-ensure, Runs-split,
  Runs-checked_add, Runs-if,
}
use moqt_minimal.Buffer.{
  Yields, Yields-bind, Yields-pure, Yields-any, Yields-if, Yields-ensure, Yields-split,
  Yields-checked_add, >>=-eq-ok, pure-eq-ok,
}
use moqt_minimal.Wire.Varint.Decode.{Runs-varint, Yields-varint}
use moqt_minimal.Wire.KeyValuePair.{KeyValuePair}
use moqt_minimal.Wire.KeyValuePair.{
  decode_bytes_value, decode_kv_value, decode_pair, decode_pairs_from, decode_key_value_pairs,
}
use moqt_minimal.Wire.KeyValuePair.RoundTrip.{Fits, IsPair, Ascending, ArePairs, decode_round}
use moqt_minimal.Buffer.{Action}

Runs-weaken {ℓ} : {A : Type ℓ} (m : Action A) → Runs 1 m → Runs 0 m
Runs-weaken m h = record {
  takes = λ buf a out e. omega (arith, h.takes buf a out e);
  ends = h.ends;
}

Runs-kv_value : (t : ℕ) → Runs 0 (decode_kv_value t)
unfolding decode_kv_value decode_bytes_value
Runs-kv_value t =
    Runs-if (t % 2 == 0) _ _ (Runs-bind _ _ (Runs-weaken _ Runs-varint) (λ v. Runs-pure _)) (
      Runs-bind _ _ (Runs-weaken _ Runs-varint) λ len.
        Runs-bind _ _ (Runs-ensure _ _ (λ e. cc))
          λ _. Runs-bind _ _ (Runs-split len _ (λ e. cc)) λ bs. Runs-pure _)

Runs-pair : (prev : ℕ) → Runs 1 (decode_pair prev)
unfolding decode_pair
Runs-pair prev = Runs-bind _ _ Runs-varint λ delta.
    Runs-bind _ _ (Runs-checked_add prev delta)
      λ t. Runs-bind _ _ (Runs-kv_value t) λ v. Runs-pure _

Yields-kv_value : (t : ℕ) → Yields (decode_kv_value t) (Fits t)
unfolding decode_kv_value decode_bytes_value
Yields-kv_value t =
    Yields-if (t % 2 == 0) _ _
      (λ even. Yields-bind _ _ Yields-varint λ v hv. Yields-pure _ (ground arith, hv))
      (λ odd. Yields-bind _ _ (Yields-any _) λ len _. Yields-bind _ _ (Yields-ensure _ _) λ _ short.
        Yields-bind _ _ (Yields-split len _) λ bs hbs. Yields-pure _ (ground arith, ground arith))

Yields-IsPair : (prev : ℕ) → Yields (decode_pair prev) (λ p. (prev ≤ p.type_id) × IsPair p)
unfolding decode_pair
Yields-IsPair prev = Yields-bind _ _ (Yields-any _) λ delta _.
    Yields-bind _ _ (Yields-checked_add prev delta)
      λ t ht. Yields-bind _ _ (Yields-kv_value t) λ v hv. Yields-pure _ (ht.0, (ht.1, hv))

-- With as much fuel as the buffer is long the loop ends by itself.
decode_from-ends :
    (fuel prev : ℕ) (buf : List ℕ)
    → length buf ≤ fuel
    → decode_pairs_from fuel prev buf ≢ err out_of_fuel
decode_from-ends fuel prev [] hf = unfold decode_pairs_from in λ e. cc
decode_from-ends zero prev (b ∷ buf) hf = absurd (omega arith)
decode_from-ends (suc fuel) prev (b ∷ buf) hf =
    rw (decode_round fuel prev (b ∷ buf) (omega arith)) (
      bind-ends _ _ (b ∷ buf) ((Runs-pair prev).ends (b ∷ buf)) λ p mid d.
        bind-ends _ _ mid
          (decode_from-ends fuel p.type_id mid
            (omega (arith, (Runs-pair prev).takes (b ∷ buf) p mid d)))
          λ ps out _. (Runs-pure (p ∷ ps)).ends out)

-- What the loop returns from the previous type `prev` on, and what it leaves of the buffer.
abbrev Decoded : ℕ → List KeyValuePair → List ℕ → Type 0
Decoded prev ps out = (out ≡ []) × Ascending prev ps × All IsPair ps

Decoded-cons :
    {prev : ℕ} {ps : List KeyValuePair} {out : List ℕ} (p : KeyValuePair) (qs : List KeyValuePair)
    (end : List ℕ)
    → (ps ≡ p ∷ qs) × (out ≡ end)
    → (prev ≤ p.type_id) × IsPair p
    → Decoded p.type_id qs end
    → Decoded prev ps out
Decoded-cons p qs end (e, e') (le, valid) (done, asc, all) =
    rw (e, e') (done, (le, asc), (valid, all))

decode_from-Decoded :
    (fuel prev : ℕ) (buf : List ℕ) (ps : List KeyValuePair) (out : List ℕ)
    → decode_pairs_from fuel prev buf ≡ ok (ps, out)
    → Decoded prev ps out
unfolding decode_pairs_from
decode_from-Decoded fuel prev [] ps out h = let e : ps ≡ [] = cc in rw e (cc, tt, tt)
decode_from-Decoded zero prev (b ∷ buf) ps out h = absurd (cc)
decode_from-Decoded (suc fuel) prev (b ∷ buf) ps out h =
    let (p, mid, d, h1) = >>=-eq-ok _ _ (b ∷ buf) h in
    let (qs, end, d', h2) = >>=-eq-ok _ _ mid h1 in
    Decoded-cons p qs end (pure-eq-ok (p ∷ qs) end h2) ((Yields-IsPair prev).at (b ∷ buf) p mid d)
      (decode_from-Decoded fuel p.type_id mid qs end d')

-- On every buffer `decode_key_value_pairs` ends: its loop stops for want of bytes, not of fuel.
pub decode_pairs-ends : (buf : List ℕ) → decode_key_value_pairs buf ≢ err out_of_fuel
unfolding decode_key_value_pairs
decode_pairs-ends buf = decode_from-ends (length buf) 0 buf (omega arith)

-- When it succeeds it has taken the whole buffer, and its pairs are in ascending order, each with
-- the kind of value that its parity wants, so they can be encoded again.
pub decode_pairs-ArePairs :
    (buf : List ℕ) {ps : List KeyValuePair} {out : List ℕ}
    → decode_key_value_pairs buf ≡ ok (ps, out)
    → (out ≡ []) × ArePairs ps
unfolding decode_key_value_pairs
decode_pairs-ArePairs buf {ps} {out} h =
    let (done, asc, all) = decode_from-Decoded (length buf) 0 buf ps out h in (done, (asc, all))
