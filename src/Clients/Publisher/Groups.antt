-- ===== src/Clients/Publisher/Groups.antt =====
-- The groups of a sequence of frames: a new one at every keyframe but the first frame.
use moqt_minimal.Prelude.{
  suc, ◌≤◌, ◌≡◌, refl, sym, ap, ◌∙◌, Bool, true, false, List, [], ◌∷◌, ◌++◌, if◌then◌else◌,
  append_assoc, All, length, arith, Bool-cases, inl, inr,
}
use mathlib.Core.Path.{subst}
use moqt_minimal.Prelude.{All-append}
use moqt_minimal.Clients.Ivf.{IvfFrame}

-- The groups when `group` is under way.
unfoldable pub groups_from : List IvfFrame → List IvfFrame → List (List IvfFrame)
groups_from group [] = group ∷ []
groups_from group (frame ∷ frames) =
    let same = groups_from (group ++ (frame ∷ [])) frames in
    let next = groups_from (frame ∷ []) frames in if frame.is_keyframe then group ∷ next else same

unfoldable pub groups : List IvfFrame → List (List IvfFrame)
unfolding groups_from
groups [] = []
groups (frame ∷ frames) = groups_from (frame ∷ []) frames

abbrev pub joined : List (List IvfFrame) → List IvfFrame
joined [] = []
joined (g ∷ gs) = g ++ joined gs

pub groups_from-key :
    (group : List IvfFrame) (frame : IvfFrame) (frames : List IvfFrame)
    → frame.is_keyframe ≡ true
    → groups_from group (frame ∷ frames) ≡ group ∷ groups_from (frame ∷ []) frames
unfolding groups_from
groups_from-key group frame frames key =
    ap
      (λ (b : Bool).
        if b
        then group ∷ groups_from (frame ∷ []) frames
        else groups_from (group ++ (frame ∷ [])) frames)
      key

pub groups_from-inter :
    (group : List IvfFrame) (frame : IvfFrame) (frames : List IvfFrame)
    → frame.is_keyframe ≡ false
    → groups_from group (frame ∷ frames) ≡ groups_from (group ++ (frame ∷ [])) frames
unfolding groups_from
groups_from-inter group frame frames inter =
    ap
      (λ (b : Bool).
        if b
        then group ∷ groups_from (frame ∷ []) frames
        else groups_from (group ++ (frame ∷ [])) frames)
      inter

pub groups_from-end : (group : List IvfFrame) → groups_from group [] ≡ group ∷ []
unfolding groups_from
groups_from-end group = refl

joined-groups_from :
    (group frames : List IvfFrame) → joined (groups_from group frames) ≡ group ++ frames
joined-groups_from group [] = ap joined (groups_from-end group)
joined-groups_from group (frame ∷ frames) = elim (Bool-cases frame.is_keyframe) [
  | inl key ↦
      ap joined (groups_from-key group frame frames key)
      ∙ ap (λ (t : List IvfFrame). group ++ t) (joined-groups_from (frame ∷ []) frames)
  | inr inter ↦
      ap joined (groups_from-inter group frame frames inter)
      ∙ (joined-groups_from (group ++ (frame ∷ [])) frames ∙ append_assoc group (frame ∷ []) frames)
]

joined-groups : (frames : List IvfFrame) → joined (groups frames) ≡ frames
unfolding groups
joined-groups [] = refl
joined-groups (frame ∷ frames) = joined-groups_from (frame ∷ []) frames

-- A frame that depends on others.
abbrev pub IsInter : IvfFrame → Type 0
IsInter frame = frame.is_keyframe ≡ false

-- The first frame of a group that has one before it is a keyframe, and no later frame is.
abbrev pub IsGroup : List IvfFrame → Type 0
IsGroup [] = ⊥
IsGroup (frame ∷ frames) = (frame.is_keyframe ≡ true) × All IsInter frames

-- The first group, which may begin with any frame.
abbrev pub IsFirst : List IvfFrame → Type 0
IsFirst [] = ⊥
IsFirst (frame ∷ frames) = All IsInter frames

abbrev pub AreGroups : List (List IvfFrame) → Type 0
AreGroups [] = Unit
AreGroups (g ∷ gs) = IsFirst g × All IsGroup gs

extended-IsGroup :
    (g : List IvfFrame) (frame : IvfFrame) → IsGroup g → IsInter frame → IsGroup (g ++ (frame ∷ []))
extended-IsGroup [] frame h i = elim h [ ]
extended-IsGroup (f ∷ fs) frame h i = (h.0, All-append IsInter fs (frame ∷ []) h.1 (i, tt))

extended-IsFirst :
    (g : List IvfFrame) (frame : IvfFrame) → IsFirst g → IsInter frame → IsFirst (g ++ (frame ∷ []))
extended-IsFirst [] frame h i = elim h [ ]
extended-IsFirst (f ∷ fs) frame h i = All-append IsInter fs (frame ∷ []) h (i, tt)

groups_from-IsGroup : (g frames : List IvfFrame) → IsGroup g → All IsGroup (groups_from g frames)
groups_from-IsGroup g [] h = subst (All IsGroup) (sym (groups_from-end g)) (h, tt)
groups_from-IsGroup g (frame ∷ frames) h = elim (Bool-cases frame.is_keyframe) [
  | inl key ↦
      subst (All IsGroup) (sym (groups_from-key g frame frames key))
        (h, groups_from-IsGroup (frame ∷ []) frames (key, tt))
  | inr inter ↦
      subst (All IsGroup) (sym (groups_from-inter g frame frames inter))
        (groups_from-IsGroup (g ++ (frame ∷ [])) frames (extended-IsGroup g frame h inter))
]

groups_from-AreGroups : (g frames : List IvfFrame) → IsFirst g → AreGroups (groups_from g frames)
groups_from-AreGroups g [] h = subst AreGroups (sym (groups_from-end g)) (h, tt)
groups_from-AreGroups g (frame ∷ frames) h = elim (Bool-cases frame.is_keyframe) [
  | inl key ↦
      subst AreGroups (sym (groups_from-key g frame frames key))
        (h, groups_from-IsGroup (frame ∷ []) frames (key, tt))
  | inr inter ↦
      subst AreGroups (sym (groups_from-inter g frame frames inter))
        (groups_from-AreGroups (g ++ (frame ∷ [])) frames (extended-IsFirst g frame h inter))
]

-- The groups are the frames, in order and none left out or doubled; every group but the first
-- begins with a keyframe, and no group has a keyframe behind its first frame.
pub groups-AreGroups :
    (frames : List IvfFrame) → (joined (groups frames) ≡ frames) × AreGroups (groups frames)
unfolding groups
groups-AreGroups [] = (refl, tt)
groups-AreGroups (frame ∷ frames) =
    (joined-groups (frame ∷ frames), groups_from-AreGroups (frame ∷ []) frames tt)

length-groups_from :
    (group frames : List IvfFrame) → length (groups_from group frames) ≤ suc (length frames)
length-groups_from group [] = omega (arith, ap length (groups_from-end group))
length-groups_from group (frame ∷ frames) = elim (Bool-cases frame.is_keyframe) [
  | inl key ↦ omega (
    arith,
    ap length (groups_from-key group frame frames key),
    length-groups_from (frame ∷ []) frames,
  )
  | inr inter ↦ omega (
    arith,
    ap length (groups_from-inter group frame frames inter),
    length-groups_from (group ++ (frame ∷ [])) frames,
  )
]

pub length-groups : (frames : List IvfFrame) → length (groups frames) ≤ length frames
unfolding groups
length-groups [] = omega arith
length-groups (frame ∷ frames) = length-groups_from (frame ∷ []) frames
