-- ===== src/Clients/Args/Lookup.antt =====
-- What is found on a command line.
use moqt_minimal.Prelude.{
  ℕ, suc, ◌+◌, ◌≡◌, ◌≢◌, refl, sym, ap, ◌∙◌, true, false, Option, none, some, List, [], ◌∷◌, ◌++◌,
  All, arith, ◌==◌, Option-cases, Bool-cases, inl, inr,
}
use mathlib.Core.Path.{subst}
use moqt_minimal.Relay.Keys.{same_bytes, same_bytes_iff}
use moqt_minimal.Relay.State.Membership.{In, here, there}
use moqt_minimal.Clients.Args.{
  Arg, position, get_elem?, get_arg, is_address, find_address, parse_args, unwrap_or,
  starts_with_dash, contains_colon,
}

-- "127.0.0.1:4433".
abbrev pub localhost : Arg
localhost = 49 ∷ 50 ∷ 55 ∷ 46 ∷ 48 ∷ 46 ∷ 48 ∷ 46 ∷ 49 ∷ 58 ∷ 52 ∷ 52 ∷ 51 ∷ 51 ∷ []

-- The argument behind the first occurrence of the flag, if there is one.
pub data Lookup (args : List Arg) (flag : Arg) (found : Option Arg) : Type 0 where
  absent : All (λ (a : Arg). a ≢ flag) args → found ≡ none → Lookup args flag found
  at_end :
      (before : List Arg)
      → All (λ (a : Arg). a ≢ flag) before
      → args ≡ before ++ (flag ∷ [])
      → found ≡ none
      → Lookup args flag found
  followed :
      (before after : List Arg) (value : Arg)
      → All (λ (a : Arg). a ≢ flag) before
      → args ≡ before ++ (flag ∷ (value ∷ after))
      → found ≡ some value
      → Lookup args flag found

get_elem?-next :
    (a : Arg) (args : List Arg) (i : ℕ) → get_elem? (a ∷ args) (i + 1) ≡ get_elem? args i
unfolding get_elem?
get_elem?-next a args i = ap (get_elem? (a ∷ args)) (let e : i + 1 ≡ suc i = omega arith in e)

-- One argument that is not the flag.
get_arg-skips :
    (a : Arg) (args : List Arg) (flag : Arg)
    → a ≢ flag
    → get_arg (a ∷ args) flag ≡ get_arg args flag
unfolding get_arg position get_elem?
get_arg-skips a args flag h = elim (Bool-cases (same_bytes a flag)) [
  | inl same ↦ absurd (h ((same_bytes_iff a flag).0 same))
  | inr differs ↦ elim (Option-cases (position flag args)) [
    | inl e ↦ ground arith
    | inr (i, e) ↦ rw (differs, e) (get_elem?-next a args (i + 1))
  ]
]

get_arg-here :
    (a : Arg) (args : List Arg) (flag : Arg) → a ≡ flag → get_arg (a ∷ args) flag ≡ get_elem? args 0
unfolding get_arg position get_elem?
get_arg-here a args flag h = ground (arith, same_bytes_iff a flag)

skipped-Lookup :
    (a : Arg) {args : List Arg} (flag : Arg) {found : Option Arg}
    → a ≢ flag
    → Lookup args flag found
    → Lookup (a ∷ args) flag found
skipped-Lookup a flag h (absent none_before e) = absent (h, none_before) e
skipped-Lookup a flag h (at_end before none_before e f) =
    at_end (a ∷ before) (h, none_before) (ap (λ (t : List Arg). a ∷ t) e) f
skipped-Lookup a flag h (followed before after value none_before e f) =
    followed (a ∷ before) after value (h, none_before) (ap (λ (t : List Arg). a ∷ t) e) f

here-Lookup : (args : List Arg) (flag : Arg) → Lookup (flag ∷ args) flag (get_elem? args 0)
unfolding get_elem?
here-Lookup [] flag = at_end [] tt refl refl
here-Lookup (value ∷ after) flag = followed [] after value tt refl refl

get_arg-nil : (flag : Arg) → get_arg [] flag ≡ none
unfolding get_arg position
get_arg-nil flag = refl

true-false : true ≢ false
true-false e = absurd (ground arith)

-- A flag's value on a command line is the argument behind the flag's first occurrence, whatever that
-- argument is; there is none when the flag does not occur, or first occurs as the last argument.
pub get_arg-Lookup : (args : List Arg) (flag : Arg) → Lookup args flag (get_arg args flag)
get_arg-Lookup [] flag = absent tt (get_arg-nil flag)
get_arg-Lookup (a ∷ args) flag = elim (Bool-cases (same_bytes a flag)) [
  | inr differs ↦
      let h : a ≢ flag = λ e. true-false (sym ((same_bytes_iff a flag).1 e) ∙ differs) in
      subst (Lookup (a ∷ args) flag) (sym (get_arg-skips a args flag h))
        (skipped-Lookup a flag h (get_arg-Lookup args flag))
  | inl same ↦
      let e = (same_bytes_iff a flag).0 same in
      subst (Lookup (a ∷ args) flag) (sym (get_arg-here a args flag e))
        (subst (λ b. Lookup (b ∷ args) flag (get_elem? args 0)) (sym e) (here-Lookup args flag))
]

-- An argument that may be an address: it has a colon, and no dash in front.
pub record HasAddress (a : Arg) : Type 0 where
  pub colon : In b':' a
  pub no_dash : (rest : List ℕ) → a ≢ b'-' ∷ rest

-- What is taken for the relay's address.
pub data Address (args : List Arg) (default chosen : Arg) : Type 0 where
  by_default :
      All (λ (a : Arg). HasAddress a → ⊥) args → chosen ≡ default → Address args default chosen
  given :
      (before after : List Arg)
      → All (λ (a : Arg). HasAddress a → ⊥) before
      → HasAddress chosen
      → args ≡ before ++ (chosen ∷ after)
      → Address args default chosen

contains_colon-In : (a : Arg) → contains_colon a ≡ true → In b':' a
unfolding contains_colon
contains_colon-In [] h = absurd (true-false (sym h))
contains_colon-In (c ∷ a) h = elim (Bool-cases (c == b':')) [
  | inl same ↦ let e : c ≡ b':' = ground arith in subst (λ x. In b':' (x ∷ a)) (sym e) here
  | inr differs ↦ there (contains_colon-In a (ground arith))
]

In-contains_colon : {a : Arg} → In b':' a → contains_colon a ≡ true
unfolding contains_colon
In-contains_colon here = refl
In-contains_colon (there {x} {xs} i) = ground (arith, In-contains_colon i)

is_address-HasAddress : (a : Arg) → is_address a ≡ true → HasAddress a
unfolding is_address starts_with_dash
is_address-HasAddress a h = record {
  colon = contains_colon-In a (ground arith);
  no_dash = λ rest e. true-false (sym h ∙ ap is_address e);
}

HasAddress-is_address : (a : Arg) → HasAddress a → is_address a ≡ true
unfolding is_address starts_with_dash
HasAddress-is_address [] h = elim h.colon [ ]
HasAddress-is_address (c ∷ a) h = elim (Bool-cases (c == b'-')) [
  | inl same ↦ let e : c ≡ b'-' = ground arith in absurd (h.no_dash a (ap (λ x. x ∷ a) e))
  | inr differs ↦ rw (differs, In-contains_colon h.colon) refl
]

passed_over :
    (a : Arg) {args : List Arg} {default chosen : Arg}
    → (HasAddress a → ⊥)
    → Address args default chosen
    → Address (a ∷ args) default chosen
passed_over a h (by_default none_there e) = by_default (h, none_there) e
passed_over a h (given before after none_before c e) =
    given (a ∷ before) after (h, none_before) c (ap (λ (t : List Arg). a ∷ t) e)

find_address-Address :
    (args : List Arg) (default : Arg) → Address args default (unwrap_or (find_address args) default)
unfolding find_address
find_address-Address [] default = by_default tt refl
find_address-Address (a ∷ args) default = elim (Bool-cases (is_address a)) [
  | inl chosen ↦ rw chosen (given [] args tt (is_address-HasAddress a chosen) refl)
  | inr skipped ↦ rw skipped (
      passed_over a (λ h. true-false (sym (HasAddress-is_address a h) ∙ skipped))
        (find_address-Address args default))
]

-- The relay's address on a command line of moqt-pub or moqt-sub is the first argument that has a
-- colon and does not begin with a dash, wherever it stands: the program's own name and the value of
-- a flag are taken too. Where no argument is such, it is 127.0.0.1:4433.
pub relay_addr-Address : (args : List Arg) → Address args localhost (parse_args args).relay_addr
unfolding parse_args
relay_addr-Address args = find_address-Address args localhost
