-- ===== src/Buffer/Outcomes.antt =====
-- What an action returns when it succeeds, on any buffer, with a rule for each way to build one.
use moqt_minimal.Buffer.Actions.{Error, ok, Action, ◌>>=◌, checked_add, pure, fail, ensure, split}
use moqt_minimal.Buffer.Inversion.{>>=-eq-ok, ensure-eq-ok, split-eq-ok, pure-eq-ok}
use moqt_minimal.Prelude.{
  ℕ, ◌≤◌, ◌≡◌, refl, Bool, true, false, List, length, arith, if◌then◌else◌, length-take,
}
use moqt_minimal.Prelude.{IsU64, ltb, ◌+◌, ◌^◌}

pub record Yields {ℓ κ} {A : Type ℓ} (m : Action A) (P : A → Type κ) : Type (ℓ ⊔ κ) where
  pub at : (buf : List ℕ) (a : A) (out : List ℕ) → m buf ≡ ok (a, out) → P a

module _ {ℓ κ} {A : Type ℓ} {P : A → Type κ} where
  pub Yields-pure : (a : A) → P a → Yields (pure a) P
  Yields-pure a h = record { at = λ buf b out e. rw ((pure-eq-ok a buf e).0) h }

  pub Yields-fail : (e : Error) → Yields (fail e) P
  unfolding fail
  Yields-fail e = record { at = λ buf a out h. cc }

  pub Yields-if :
      (b : Bool) (m n : Action A)
      → (b ≡ true → Yields m P)
      → (b ≡ false → Yields n P)
      → Yields (if b then m else n) P
  Yields-if true m n hm hn = hm refl
  Yields-if false m n hm hn = hn refl

module _ {ℓ} {A : Type ℓ} where
  pub Yields-any : (m : Action A) → Yields m (λ _. Unit {0})
  Yields-any m = record { at = λ buf a out h. tt }

module _ {ℓ κ ν μ} {A : Type ℓ} {B : Type κ} {Q : A → Type ν} {P : B → Type μ} where
  pub Yields-bind :
      (m : Action A) (f : A → Action B)
      → Yields m Q
      → ((a : A) → Q a → Yields (f a) P)
      → Yields (m >>= f) P
  Yields-bind m f hm hf = record {
    at = λ buf b out h.
        let (a, mid, d, h') = >>=-eq-ok m f buf h in (hf a (hm.at buf a mid d)).at mid b out h';
  }

pub Yields-ensure : (b : Bool) (e : Error) → Yields (ensure b e) (λ _. b ≡ true)
Yields-ensure b e = record { at = λ buf a out h. (ensure-eq-ok b e buf h).0 }

pub Yields-split : (n : ℕ) (e : Error) → Yields (split n e) (λ xs. length xs ≡ n)
Yields-split n e = record {
  at = λ buf xs out h.
      let (fits, taken, _) = split-eq-ok n e buf h in rw taken (length-take n buf fits);
}

pub Yields-checked_add : (a b : ℕ) → Yields (checked_add a b) (λ s. (a ≤ s) × IsU64 s)
unfolding checked_add
Yields-checked_add a b =
    Yields-if (ltb (a + b) (2 ^ 64)) _ _ (λ h. Yields-pure _ (omega arith, ground arith))
      λ _. Yields-fail _

-- The rules at one run of an action.
pub after {ℓ κ} :
    {A : Type ℓ} {P : A → Type κ} (m : Action A) {buf : List ℕ} {a : A} {out : List ℕ}
    → m buf ≡ ok (a, out)
    → Yields m P
    → P a
after m {buf} {a} {out} e h = h.at buf a out e
