-- ===== src/Stream/Transport.antt =====
-- What the stream readers use of web_transport_quinn's RecvStream: `read_exact`, which fails with
-- ReadExactError when the stream ends or is reset before the bytes have come.
use moqt_minimal.Prelude.{ℕ, ◌<◌, ◌≡◌, refl, ap, ◌∙◌, List, [], ◌++◌, length, append_assoc}
use mathlib.Core.Path.{subst}
use moqt_minimal.Buffer.{Result, ok, err, Action, stream_finished}
use moqt_minimal.Prelude.{append-nil}

-- `pending` are the bytes that are still to come before the stream ends.
pub record Transport (R : Type 0) : Type 0 where
  pub read_exact : ℕ → R → Result (List ℕ × R)
  pub pending : R → List ℕ
  pub delivers :
      (r : R) (bytes rest : List ℕ)
      → pending r ≡ bytes ++ rest
      → (s : R) × (read_exact (length bytes) r ≡ ok (bytes, s)) × (pending s ≡ rest)
  pub ends : (r : R) (n : ℕ) → length (pending r) < n → read_exact n r ≡ err stream_finished

abbrev pub Reader : Type 0 → Type 0 → Type 0
Reader R A = R → Result (A × R)

module _ {R A B : Type 0} where
  abbrev pub pass_on : Result (A × R) → (A → Reader R B) → Result (B × R)
  pass_on (ok (a, r)) f = f a r
  pass_on (err e) f = err e

  infixl 5 ◌>>=◌
  unfoldable pub ◌>>=◌ : Reader R A → (A → Reader R B) → Reader R B
  ◌>>=◌ m f r = pass_on (m r) f

module _ {R A : Type 0} where
  unfoldable pub pure : A → Reader R A
  pure a r = ok (a, r)

  -- A result that does not depend on the stream, with `?`.
  unfoldable pub lift : Result A → Reader R A
  lift (ok a) r = ok (a, r)
  lift (err e) r = err e

  abbrev pub decoded_as : Result (A × List ℕ) → R → Result (A × R)
  decoded_as (ok (a, left)) r = ok (a, r)
  decoded_as (err e) r = err e

  -- A decoder on bytes that have been read; what it leaves of them is dropped.
  unfoldable pub decoded : List ℕ → Action A → Reader R A
  decoded bytes m r = decoded_as (m bytes) r

-- Where the stream is about to deliver `bytes`, the reader takes them and returns `a`.
pub record Pulls {R A : Type 0} (t : Transport R) (m : Reader R A) (a : A) (bytes : List ℕ)
    : Type 0 where
  pub on :
      (r : R) (rest : List ℕ)
      → t.pending r ≡ bytes ++ rest
      → (s : R) × (m r ≡ ok (a, s)) × (t.pending s ≡ rest)

module _ {R : Type 0} (t : Transport R) where
  pub Pulls-read_exact : (bytes : List ℕ) → Pulls t (t.read_exact (length bytes)) bytes bytes
  Pulls-read_exact bytes = record { on = λ r rest h. t.delivers r bytes rest h }

module _ {R A : Type 0} (t : Transport R) where
  pub Pulls-pure : (a : A) → Pulls t (pure a) a []
  unfolding pure
  Pulls-pure a = record { on = λ r rest h. (r, refl, h) }

  pub Pulls-lift : (m : Result A) {a : A} → m ≡ ok a → Pulls t (lift m) a []
  unfolding lift
  Pulls-lift m h = record { on = λ r rest e. (r, ap (λ m. lift m r) h, e) }

  pub Pulls-decoded :
      (bytes left : List ℕ) (m : Action A) {a : A}
      → m bytes ≡ ok (a, left)
      → Pulls t (decoded bytes m) a []
  unfolding decoded
  Pulls-decoded bytes left m h = record { on = λ r rest e. (r, ap (λ m. decoded_as m r) h, e) }

  pub Pulls-eq :
      {m : Reader R A} {a : A} {xs ys : List ℕ} → xs ≡ ys → Pulls t m a xs → Pulls t m a ys
  Pulls-eq {m} {a} e h = subst (λ b. Pulls t m a b) e h

module _ {R A B : Type 0} (t : Transport R) where
  pub Pulls-bind :
      (m : Reader R A) (f : A → Reader R B) {a : A} {b : B} {xs ys : List ℕ}
      → Pulls t m a xs
      → Pulls t (f a) b ys
      → Pulls t (m >>= f) b (xs ++ ys)
  unfolding ◌>>=◌
  Pulls-bind m f {xs = xs} {ys = ys} hm hf = record {
    on = λ r rest h.
        let (s, e, hs) = hm.on r (ys ++ rest) (h ∙ append_assoc xs ys rest) in
        let (u, d, hu) = hf.on s rest hs in (u, ap (λ m. pass_on m f) e ∙ d, hu);
  }

  -- The last read of a block.
  pub Pulls-last :
      (m : Reader R A) (f : A → Reader R B) {a : A} {b : B} {xs : List ℕ}
      → Pulls t m a xs
      → Pulls t (f a) b []
      → Pulls t (m >>= f) b xs
  Pulls-last m f {xs = xs} hm hf = Pulls-eq t (append-nil xs) (Pulls-bind m f hm hf)

-- A read that fails, and one that succeeds, in front of more reads.
module _ {R A B : Type 0} where
  pub failed :
      (m : Reader R A) (f : A → Reader R B) (r : R)
      → m r ≡ err stream_finished
      → (m >>= f) r ≡ err stream_finished
  unfolding ◌>>=◌
  failed m f r h = ap (λ m. pass_on m f) h

  pub went_on :
      (m : Reader R A) (f : A → Reader R B) {r s : R} {a : A}
      → m r ≡ ok (a, s)
      → (m >>= f) r ≡ f a s
  unfolding ◌>>=◌
  went_on m f h = ap (λ m. pass_on m f) h
