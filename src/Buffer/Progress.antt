-- ===== src/Buffer/Progress.antt =====
-- Actions that take bytes off the buffer and never report that a loop of the model ran out of fuel.
use moqt_minimal.Buffer.Actions.{
  Error, Result, ok, err, Action, ◌>>=◌, continue, pure, fail, ensure, split, checked_add,
  out_of_fuel,
}
use moqt_minimal.Buffer.Inversion.{>>=-eq-ok}
use moqt_minimal.Prelude.{
  ℕ, ◌+◌, ◌^◌, ◌≤◌, ◌≡◌, ◌≢◌, refl, Bool, true, false, List, length, arith, if◌then◌else◌,
  length-drop, ltb,
}

-- At least `k` bytes are taken when the action succeeds.
pub record Runs {ℓ} {A : Type ℓ} (k : ℕ) (m : Action A) : Type ℓ where
  pub takes :
      (buf : List ℕ) (a : A) (out : List ℕ) → m buf ≡ ok (a, out) → length out + k ≤ length buf
  pub ends : (buf : List ℕ) → m buf ≢ err out_of_fuel

module _ {ℓ} {A : Type ℓ} where
  pub Runs-pure : (a : A) → Runs 0 (pure a)
  unfolding pure
  Runs-pure a = record { takes = λ buf b out h. ground arith; ends = λ buf h. cc }

  pub Runs-fail : (e : Error) → e ≢ out_of_fuel → Runs 0 (fail {A = A} e)
  unfolding fail
  Runs-fail e ne = record { takes = λ buf b out h. cc; ends = λ buf h. ne (ground arith) }

  pub Runs-if : (b : Bool) (m n : Action A) → Runs 0 m → Runs 0 n → Runs 0 (if b then m else n)
  Runs-if true m n hm hn = hm
  Runs-if false m n hm hn = hn

module _ {ℓ κ} {A : Type ℓ} {B : Type κ} where
  continue-ends :
      (r : Result (A × List ℕ)) (f : A → Action B)
      → r ≢ err out_of_fuel
      → ((a : A) (out : List ℕ) → r ≡ ok (a, out) → f a out ≢ err out_of_fuel)
      → continue r f ≢ err out_of_fuel
  continue-ends (ok (a, out)) f hr hf h = hf a out refl h
  continue-ends (err e) f hr hf h = hr (ground arith)

  pub bind-ends :
      (m : Action A) (f : A → Action B) (buf : List ℕ)
      → m buf ≢ err out_of_fuel
      → ((a : A) (out : List ℕ) → m buf ≡ ok (a, out) → f a out ≢ err out_of_fuel)
      → (m >>= f) buf ≢ err out_of_fuel
  unfolding ◌>>=◌
  bind-ends m f buf hm hf = continue-ends (m buf) f hm hf

  pub Runs-bind :
      {k : ℕ} (m : Action A) (f : A → Action B)
      → Runs k m
      → ((a : A) → Runs 0 (f a))
      → Runs k (m >>= f)
  Runs-bind {k} m f hm hf = record {
    takes = λ buf b out h.
        let (a, mid, d, h') = >>=-eq-ok m f buf h in
        omega (arith, hm.takes buf a mid d, (hf a).takes mid b out h');
    ends = λ buf. bind-ends m f buf (hm.ends buf) (λ a out _. (hf a).ends out);
  }

pub Runs-ensure : (b : Bool) (e : Error) → e ≢ out_of_fuel → Runs 0 (ensure b e)
unfolding ensure
Runs-ensure true e ne = record { takes = λ buf a out h. ground arith; ends = λ buf h. cc }
Runs-ensure false e ne = record { takes = λ buf a out h. cc; ends = λ buf h. ne (ground arith) }

pub Runs-split : (n : ℕ) (e : Error) → e ≢ out_of_fuel → Runs 0 (split n e)
unfolding split
Runs-split n e ne = record {
  takes = λ buf a out h. ground (arith, length-drop n buf);
  ends = λ buf h. ne (ground arith);
}

pub Runs-checked_add : (a b : ℕ) → Runs 0 (checked_add a b)
unfolding checked_add
Runs-checked_add a b = Runs-if (ltb (a + b) (2 ^ 64)) _ _ (Runs-pure _) (Runs-fail _ (λ e. cc))
