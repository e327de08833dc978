-- ===== src/Buffer/Inversion.antt =====
-- What a successful action implies of its parts.
use moqt_minimal.Buffer.Actions.{
  Error, Result, ok, err, Action, ◌>>=◌, continue, pure, ensure, split, next_byte,
}
use moqt_minimal.Prelude.{
  ℕ, ◌≤◌, ◌≡◌, refl, Bool, true, false, List, [], ◌∷◌, length, take, drop, arith,
}

module _ {ℓ κ} {A : Type ℓ} {B : Type κ} where
  continue-eq-ok :
      (r : Result (A × List ℕ)) (f : A → Action B) {b : B} {out : List ℕ}
      → continue r f ≡ ok (b, out)
      → (a : A) × (mid : List ℕ) × (r ≡ ok (a, mid)) × (f a mid ≡ ok (b, out))
  continue-eq-ok (ok (a, mid)) f h = (a, mid, refl, h)
  continue-eq-ok (err e) f h = cc

  pub >>=-eq-ok :
      (m : Action A) (f : A → Action B) (buf : List ℕ) {b : B} {out : List ℕ}
      → (m >>= f) buf ≡ ok (b, out)
      → (a : A) × (mid : List ℕ) × (m buf ≡ ok (a, mid)) × (f a mid ≡ ok (b, out))
  unfolding ◌>>=◌
  >>=-eq-ok m f buf h = continue-eq-ok (m buf) f h

pub ensure-eq-ok :
    (b : Bool) (e : Error) (buf : List ℕ) {u : Unit {0}} {out : List ℕ}
    → ensure b e buf ≡ ok (u, out)
    → (b ≡ true) × (out ≡ buf)
unfolding ensure
ensure-eq-ok true e buf h = (refl, cc)
ensure-eq-ok false e buf h = (cc, cc)

pub split-eq-ok :
    (n : ℕ) (e : Error) (buf : List ℕ) {xs out : List ℕ}
    → split n e buf ≡ ok (xs, out)
    → (n ≤ length buf) × (xs ≡ take n buf) × (out ≡ drop n buf)
unfolding split
split-eq-ok n e buf h = (ground arith, ground arith, ground arith)

pub next_byte-eq-ok :
    (e : Error) (buf : List ℕ) {b : ℕ} {out : List ℕ}
    → next_byte e buf ≡ ok (b, out)
    → buf ≡ b ∷ out
unfolding next_byte
next_byte-eq-ok e [] h = cc
next_byte-eq-ok e (x ∷ xs) h = cc

pub pure-eq-ok {ℓ} :
    {A : Type ℓ} (a : A) (buf : List ℕ) {b : A} {out : List ℕ}
    → pure a buf ≡ ok (b, out)
    → (b ≡ a) × (out ≡ buf)
unfolding pure
pure-eq-ok a buf h = (cc, cc)
