-- ===== src/Buffer/Rules.antt =====
-- What an action appends to the buffer, and which bytes it reads as which value, with a rule for
-- each way to build an action.
use moqt_minimal.Buffer.Actions.{
  Error, ok, Action, ◌>>=◌, ◌>>◌, pure, ensure, push, split, next_byte,
}
use moqt_minimal.Buffer.Actions.{checked_add, collect, on_slice}
use moqt_minimal.Prelude.{ℕ, ◌≡◌, refl, sym, ap, Bool, true, List, [], ◌∷◌, ◌++◌, ◌≤◌, IsU64}
use moqt_minimal.Prelude.{length, arith, append_assoc, append-nil, le→leb, ◌-◌, ◌+◌, lt→ltb, ◌^◌}
use moqt_minimal.Prelude.{length-append, take-length_append, drop-length_append}

-- On every buffer the action succeeds and appends `bytes`.
pub record Writes (m : Action (Unit {0})) (bytes : List ℕ) : Type 0 where
  pub on : (buf : List ℕ) → m buf ≡ ok (tt, buf ++ bytes)

-- Whatever follows `bytes`, the action takes `bytes` off the buffer and returns `a`.
pub record Reads {ℓ} {A : Type ℓ} (m : Action A) (a : A) (bytes : List ℕ) : Type ℓ where
  pub on : (rest : List ℕ) → m (bytes ++ rest) ≡ ok (a, rest)

-- One string of bytes that `enc` appends to every buffer and that `dec` reads back as `a`, whatever
-- follows it.
abbrev pub RoundTrips {ℓ} : {A : Type ℓ} → Action (Unit {0}) → Action A → A → Type ℓ
RoundTrips enc dec a = (bytes : List ℕ) × Writes enc bytes × Reads dec a bytes

pub Writes-push : (bytes : List ℕ) → Writes (push bytes) bytes
unfolding push
Writes-push bytes = record { on = λ buf. refl }

pub Writes-pure : Writes (pure tt) []
unfolding pure
Writes-pure = record { on = λ buf. ap (λ (t : List ℕ). ok (tt, t)) (sym (append-nil buf)) }

pub Writes-bind :
    {m n : Action (Unit {0})} {xs ys : List ℕ}
    → Writes m xs
    → Writes n ys
    → Writes (m >> n) (xs ++ ys)
unfolding ◌>>=◌
Writes-bind {m} {n} {xs} {ys} hm hn = record {
  on = λ buf.
      rw (hm.on buf, hn.on (buf ++ xs)) (ap (λ (t : List ℕ). ok (tt, t)) (append_assoc buf xs ys));
}

pub Writes-ensure : (b : Bool) (e : Error) → b ≡ true → Writes (ensure b e) []
unfolding ensure
Writes-ensure b e h = record {
  on = λ buf. rw h (ap (λ (t : List ℕ). ok (tt, t)) (sym (append-nil buf)));
}

pub Writes-collect :
    (m : Action (Unit {0})) (f : List ℕ → Action (Unit {0})) {xs ys : List ℕ}
    → Writes m xs
    → Writes (f xs) ys
    → Writes (collect m >>= f) ys
unfolding ◌>>=◌ collect
Writes-collect m f hm hf = record { on = λ buf. rw (hm.on [], collect) (hf.on buf) }

module _ {ℓ} {A : Type ℓ} where
  pub pure_run : (a : A) (buf : List ℕ) → pure a buf ≡ ok (a, buf)
  unfolding pure
  pure_run a buf = refl

  pub Reads-pure : (a : A) → Reads (pure a) a []
  unfolding pure
  Reads-pure a = record { on = λ rest. refl }

  pub Reads-eq : {m : Action A} {a : A} {xs ys : List ℕ} → xs ≡ ys → Reads m a xs → Reads m a ys
  Reads-eq e h = rw (sym e) h

  -- what the action leaves of the slice is dropped
  pub Reads-on_slice :
      (m : Action A) (bytes left : List ℕ) {a : A}
      → m bytes ≡ ok (a, left)
      → Reads (on_slice bytes m) a []
  unfolding on_slice
  Reads-on_slice m bytes left h = record { on = λ rest. rw (h, on_slice) }

  pub Reads-exact : (m : Action A) (bytes : List ℕ) {a : A} → Reads m a bytes → m bytes ≡ ok (a, [])
  Reads-exact m bytes h = rw append-nil at (h.on [])

module _ {ℓ κ} {A : Type ℓ} {B : Type κ} where
  pub bind-after_ok :
      (m : Action A) (f : A → Action B) {a : A} {buf out : List ℕ}
      → m buf ≡ ok (a, out)
      → (m >>= f) buf ≡ f a out
  unfolding ◌>>=◌
  bind-after_ok m f h = rw (h, ◌>>=◌)

  pub bind-after_read :
      (m : Action A) (f : A → Action B) {a : A} {xs : List ℕ} (rest : List ℕ)
      → Reads m a xs
      → (m >>= f) (xs ++ rest) ≡ f a rest
  unfolding ◌>>=◌
  bind-after_read m f rest h = rw (h.on rest)

  pub Reads-bind :
      (m : Action A) (f : A → Action B) {a : A} {b : B} {xs ys : List ℕ}
      → Reads m a xs
      → Reads (f a) b ys
      → Reads (m >>= f) b (xs ++ ys)
  unfolding ◌>>=◌
  Reads-bind m f {xs = xs} {ys = ys} hm hf = record {
    on = λ rest. rw (append_assoc xs ys rest, hm.on (ys ++ rest)) (hf.on rest);
  }

  -- the last read of a block, whose value is then returned in some form
  pub Reads-last :
      (m : Action A) (f : A → B) {a : A} {xs : List ℕ}
      → Reads m a xs
      → Reads (m >>= λ x. pure (f x)) (f a) xs
  unfolding ◌>>=◌ pure
  Reads-last m f hm = record { on = λ rest. rw (hm.on rest) }

pub Reads-ensure : (b : Bool) (e : Error) → b ≡ true → Reads (ensure b e) tt []
unfolding ensure
Reads-ensure b e h = record { on = λ rest. rw h }

pub Reads-split : (xs : List ℕ) (e : Error) → Reads (split (length xs) e) xs xs
unfolding split
Reads-split xs e = record {
  on = λ rest. rw (
    le→leb (length xs) (length (xs ++ rest)) (omega (arith, length-append xs rest)),
    take-length_append xs rest,
    drop-length_append xs rest,
  );
}

pub Reads-split_at : (n : ℕ) (xs : List ℕ) (e : Error) → n ≡ length xs → Reads (split n e) xs xs
Reads-split_at n xs e h = rw h (Reads-split xs e)

pub Reads-next_byte : (b : ℕ) (e : Error) → Reads (next_byte e) b (b ∷ [])
unfolding next_byte
Reads-next_byte b e = record { on = λ rest. refl }

pub Reads-checked_add : (prev t : ℕ) → prev ≤ t → IsU64 t → Reads (checked_add prev (t - prev)) t []
unfolding checked_add
Reads-checked_add prev t le h =
    let e : prev + (t - prev) ≡ t = omega arith in rw (e, lt→ltb t (2 ^ 64) h) (Reads-pure t)

pub Reads-checked_add_zero : (t : ℕ) → IsU64 t → Reads (checked_add 0 t) t []
unfolding checked_add
Reads-checked_add_zero t h =
    let e : 0 + t ≡ t = omega arith in rw (e, lt→ltb t (2 ^ 64) h) (Reads-pure t)
