-- ===== src/Relay/State/Membership.antt =====
-- Membership in a list, and in the parts of an appended list.
use moqt_minimal.Prelude.{
  List, [], ◌∷◌, ◌++◌, ◌⊎◌, inl, inr, ◌≡◌, refl, false, is_empty, Bool, if◌then◌else◌,
}
use mathlib.Core.Path.{subst}
use moqt_minimal.Prelude.{true}

pub data In {A : Type 0} (a : A) : List A → Type 0 where
  here : {xs : List A} → In a (a ∷ xs)
  there : {x : A} {xs : List A} → In a xs → In a (x ∷ xs)

pub In-filled : {A : Type 0} {a : A} {xs : List A} → In a xs → is_empty xs ≡ false
In-filled here = refl
In-filled (there i) = refl

pub In-append_left : {A : Type 0} {a : A} {xs : List A} (ys : List A) → In a xs → In a (xs ++ ys)
In-append_left ys here = here
In-append_left ys (there i) = there (In-append_left ys i)

pub In-append_right : {A : Type 0} {a : A} (xs : List A) {ys : List A} → In a ys → In a (xs ++ ys)
In-append_right [] i = i
In-append_right (x ∷ xs) i = there (In-append_right xs i)

pub In-append :
    {A : Type 0} {a : A} (xs : List A) {ys : List A} → In a (xs ++ ys) → In a xs ⊎ In a ys
In-append [] i = inr i
In-append (x ∷ xs) here = inl here
In-append (x ∷ xs) (there i) = elim (In-append xs i) [ inl l ↦ inl (there l) | inr r ↦ inr r ]

pub In-cons : {A : Type 0} {a x : A} {xs : List A} → In a (x ∷ xs) → (x ≡ a) ⊎ In a xs
In-cons here = inl refl
In-cons (there i) = inr i

-- A list that a test chooses.
pub In-then :
    {A : Type 0} {a : A} (xs ys : List A) {b : Bool}
    → b ≡ true
    → In a (if b then xs else ys)
    → In a xs
In-then {A} {a} xs ys d i = subst (λ t. In a (if t then xs else ys)) d i

pub In-else :
    {A : Type 0} {a : A} (xs ys : List A) {b : Bool}
    → b ≡ false
    → In a (if b then xs else ys)
    → In a ys
In-else {A} {a} xs ys d i = subst (λ t. In a (if t then xs else ys)) d i
