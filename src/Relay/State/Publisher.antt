-- ===== src/Relay/State/Publisher.antt =====
-- `find_publisher` against the registered prefixes of a namespace.
use moqt_minimal.Prelude.{
  ℕ, zero, suc, ◌≤◌, ◌<◌, ◌≡◌, refl, Option, none, some, List, [], ◌∷◌, length, take, is_empty,
  false, arith, Option-cases, inl, inr, ap, sym, ◌∙◌,
}
use native.Mathlib.Decide.{dec_lt}
use mathlib.Core.Path.{subst}
use moqt_minimal.Map.{get}
use moqt_minimal.Wire.TrackNamespace.{TrackNamespace}
use moqt_minimal.Relay.Keys.{namespace_key}
use moqt_minimal.Relay.State.{
  RelayState, SessionId, SessionRef, pop, with_session, find_publisher_from, find_publisher,
}

-- The publisher that is registered for the first `n` fields.
abbrev pub registered_at : RelayState → List (List ℕ) → ℕ → Option SessionId
registered_at s fields n = get (record { fields = take n fields }) s.namespace_to_publisher

pub record IsLongest (s : RelayState) (fields : List (List ℕ)) (n : ℕ) (id : SessionId)
    : Type 0 where
  pub within : n ≤ length fields
  pub registered : registered_at s fields n ≡ some id
  pub longest : (m : ℕ) → n < m → m ≤ length fields → registered_at s fields m ≡ none

pub data Search (s : RelayState) (fields : List (List ℕ)) (r : Option (SessionId × SessionRef))
    : Type 0 where
  unregistered :
      ((m : ℕ) → m ≤ length fields → registered_at s fields m ≡ none) → r ≡ none → Search s fields r
  registered :
      (n : ℕ) (id : SessionId) → IsLongest s fields n id → r ≡ with_session id s → Search s fields r

pub pop-take : (n : ℕ) (fs : List (List ℕ)) → n < length fs → pop (take (suc n) fs) ≡ take n fs
unfolding pop
pop-take n [] h = absurd (omega arith)
pop-take zero (f ∷ fs) h = refl
pop-take (suc n) (f ∷ []) h = absurd (omega arith)
pop-take (suc n) (f ∷ g ∷ fs) h =
    ap (λ (t : List (List ℕ)). f ∷ t) (pop-take n (g ∷ fs) (omega arith))

pub is_empty-take :
    (n : ℕ) (fs : List (List ℕ)) → n < length fs → is_empty (take (suc n) fs) ≡ false
is_empty-take n [] h = absurd (omega arith)
is_empty-take n (f ∷ fs) h = refl

pub take-length : (fs : List (List ℕ)) → take (length fs) fs ≡ fs
take-length [] = refl
take-length (f ∷ fs) = ap (λ (t : List (List ℕ)). f ∷ t) (take-length fs)

-- A round whose prefix is not registered.
pub next_round :
    (rounds : ℕ) (prefix : List (List ℕ)) (s : RelayState)
    → get (record { fields = prefix }) s.namespace_to_publisher ≡ none
    → is_empty prefix ≡ false
    → find_publisher_from (suc rounds) prefix s ≡ find_publisher_from rounds (pop prefix) s
unfolding find_publisher_from
next_round rounds prefix s e d = ground arith

pub found_round :
    (rounds : ℕ) (prefix : List (List ℕ)) (s : RelayState) {id : SessionId}
    → get (record { fields = prefix }) s.namespace_to_publisher ≡ some id
    → find_publisher_from (suc rounds) prefix s ≡ with_session id s
unfolding find_publisher_from
found_round rounds prefix s e = ground arith

pub last_round :
    (s : RelayState)
    → get (record { fields = [] }) s.namespace_to_publisher ≡ none
    → find_publisher_from 1 [] s ≡ none
unfolding find_publisher_from
last_round s e = ground arith

module _ (s : RelayState) (fields : List (List ℕ)) where
  -- No prefix of more than `n` fields is registered.
  abbrev NoneAbove : ℕ → Type 0
  NoneAbove n = (m : ℕ) → n < m → m ≤ length fields → registered_at s fields m ≡ none

  one_lower : (n : ℕ) → registered_at s fields (suc n) ≡ none → NoneAbove (suc n) → NoneAbove n
  one_lower n e above m h le = elim (dec_lt (suc n) m) [
    | yes higher ↦ above m higher le
    | no not_higher ↦ let at_m : m ≡ suc n = omega arith in rw at_m e
  ]

  from-Search :
      (n : ℕ)
      → n ≤ length fields
      → NoneAbove n
      → Search s fields (find_publisher_from (suc n) (take n fields) s)
  from-Search zero h above = elim (Option-cases (registered_at s fields 0)) [
    | inr (id, e) ↦
        registered 0 id (record { within = h; registered = e; longest = above })
          (found_round _ _ s e)
    | inl e ↦
        unregistered
          (λ m le. elim (dec_lt 0 m) [
            | yes positive ↦ above m positive le
            | no not_positive ↦ let at_m : m ≡ 0 = omega arith in rw at_m e
          ])
          (last_round s e)
  ]
  from-Search (suc n) h above = elim (Option-cases (registered_at s fields (suc n))) [
    | inr (id, e) ↦
        registered (suc n) id (record { within = h; registered = e; longest = above })
          (found_round _ _ s e)
    | inl e ↦
        subst (λ r. Search s fields r)
          (sym (
            next_round (suc n) (take (suc n) fields) s e (is_empty-take n fields h)
            ∙ ap (λ t. find_publisher_from (suc n) t s) (pop-take n fields h)))
          (from-Search n (omega arith) (one_lower n e above))
  ]

-- `find_publisher` finds nothing when no prefix of the namespace is registered, from the whole
-- namespace down to the empty one; otherwise it takes the longest registered prefix, and its
-- result is that publisher's id with its session, or nothing when the publisher has no session.
pub find_publisher-Search :
    (ns : TrackNamespace) (s : RelayState) → Search s ns.fields (find_publisher ns s)
unfolding find_publisher
find_publisher-Search ns s =
    subst (λ t. Search s ns.fields (find_publisher_from (suc (length ns.fields)) t s))
      (take-length ns.fields)
      (from-Search s ns.fields (length ns.fields) (omega arith)
        (λ m above within. absurd (omega arith)))
