-- ===== src/Wire/TrackNamespace/Limits.antt =====
-- The limits of a namespace at both ends.
use moqt_minimal.Prelude.{ℕ, zero, suc, ◌≤◌, ◌≡◌, List, [], ◌∷◌, length, arith, IsU64, All}
use moqt_minimal.Buffer.{ok, ◌>>=◌, ensure, >>=-eq-ok, ensure-eq-ok, split-eq-ok, pure-eq-ok}
use moqt_minimal.Wire.Varint.Decode.{decode_varint_shrinks}
use moqt_minimal.Wire.TrackNamespace.{TrackNamespace, max_fields, encode_fields, decode_fields}
use moqt_minimal.Wire.TrackNamespace.{encode_track_namespace, decode_track_namespace}
use moqt_minimal.Wire.TrackNamespace.RoundTrip.{IsField, IsValid}
use moqt_minimal.Prelude.{length-take, leb→le, refl, take, ltb, true}

IsField-IsField :
    (n : ℕ) (buf : List ℕ) {f : List ℕ}
    → n ≤ length buf
    → f ≡ take n buf
    → ltb 0 n ≡ true
    → IsU64 n
    → IsField f
IsField-IsField n buf fits taken positive h =
    (ground (arith, length-take n buf fits), ground (arith, length-take n buf fits))

decode_fields-IsField :
    (n : ℕ) (buf : List ℕ) {fs : List (List ℕ)} {rest : List ℕ}
    → decode_fields n buf ≡ ok (fs, rest)
    → (length fs ≡ n) × All IsField fs
unfolding decode_fields
decode_fields-IsField zero buf h = let (e, _) = pure-eq-ok [] buf h in rw e (refl, tt)
decode_fields-IsField (suc n) buf h =
    let (len, b1, d1, h1) = >>=-eq-ok _ _ buf h in
    let (_, b2, d2, h2) = >>=-eq-ok _ _ b1 h1 in
    let (field, b3, d3, h3) = >>=-eq-ok _ _ b2 h2 in
    let (fields, b4, d4, h4) = >>=-eq-ok _ _ b3 h3 in
    let (e, _) = pure-eq-ok _ b4 h4 in
    let (positive, _) = ensure-eq-ok _ _ b1 d2 in
    let (fits, taken, _) = split-eq-ok len _ b2 d3 in
    let (count, valid) = decode_fields-IsField n b3 d4 in
    rw e (
      omega (arith, count),
      (IsField-IsField len b2 fits taken positive (decode_varint_shrinks buf d1).1, valid),
    )

-- A namespace that `decode_track_namespace` accepts has at most 32 fields, none of them empty.
pub decode_namespace-IsValid :
    (buf : List ℕ) {ns : TrackNamespace} {rest : List ℕ}
    → decode_track_namespace buf ≡ ok (ns, rest)
    → IsValid ns
unfolding decode_track_namespace
decode_namespace-IsValid buf h =
    let (count, b1, d1, h1) = >>=-eq-ok _ _ buf h in
    let (_, b2, d2, h2) = >>=-eq-ok _ _ b1 h1 in
    let (fields, b3, d3, h3) = >>=-eq-ok _ _ b2 h2 in
    let (e, _) = pure-eq-ok _ b3 h3 in
    let (few, _) = ensure-eq-ok _ _ b1 d2 in
    let (total, valid) = decode_fields-IsField count b2 d3 in
    rw e (ground (arith, few, total), valid)

encode_fields-nonempty :
    (fs : List (List ℕ)) (buf : List ℕ) {u : Unit {0}} {out : List ℕ}
    → encode_fields fs buf ≡ ok (u, out)
    → All (λ f. 1 ≤ length f) fs
unfolding encode_fields
encode_fields-nonempty [] buf h = tt
encode_fields-nonempty ([] ∷ fs) buf h = unfold ensure ◌>>=◌ in cc
encode_fields-nonempty ((x ∷ f) ∷ fs) buf h =
    let (_, b1, d1, h1) = >>=-eq-ok _ _ buf h in
    let (_, b2, d2, h2) = >>=-eq-ok _ _ b1 h1 in
    let (_, b3, d3, h3) = >>=-eq-ok _ _ b2 h2 in (omega arith, encode_fields-nonempty fs b3 h3)

-- `encode_track_namespace` succeeds on no namespace with more than 32 fields or an empty field.
pub encode_namespace_limits :
    (ns : TrackNamespace) (buf : List ℕ) {u : Unit {0}} {out : List ℕ}
    → encode_track_namespace ns buf ≡ ok (u, out)
    → (length ns.fields ≤ max_fields) × All (λ f. 1 ≤ length f) ns.fields
unfolding encode_track_namespace
encode_namespace_limits ns buf h =
    let (_, b1, d1, h1) = >>=-eq-ok _ _ buf h in
    let (_, b2, d2, h2) = >>=-eq-ok _ _ b1 h1 in
    (leb→le _ _ (ensure-eq-ok _ _ buf d1).0, encode_fields-nonempty ns.fields b2 h2)
