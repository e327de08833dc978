-- ===== src/Clients/Delivery.antt =====
-- The groups of moqt-pub as moqt-sub gets them, and the file that moqt-sub writes as it is read.
use moqt_minimal.Prelude.{
  ℕ, suc, ◌+◌, ◌^◌, ◌<◌, ◌≡◌, refl, sym, ap, ◌∙◌, List, [], ◌∷◌, ◌++◌, length, map, arith, All,
  IsU64, length-append,
}
use moqt_minimal.Wire.SubgroupHeader.RoundTrip as Header
use moqt_minimal.Session.Subgroups.{subgroup_header}
use moqt_minimal.Clients.Ivf.{IvfFrame, as_frame}
use moqt_minimal.Clients.Ivf.Frames.{Stamped, IsStamped, frame_of}
use moqt_minimal.Clients.Publisher.Groups.{joined}
use moqt_minimal.Clients.Publisher.Sent.{payloads}
use moqt_minimal.Clients.Subscriber.File.{FitsPayload}
use moqt_minimal.Clients.Subscriber.Stdout.{Group, IsValid, all_payloads, Enough}

-- The groups as the subscriber gets them.
abbrev pub as_groups : ℕ → List (List IvfFrame) → List Group
as_groups i [] = []
as_groups i (g ∷ gs) =
    record { header = subgroup_header 1 i 0; payloads = payloads g } ∷ as_groups (suc i) gs

payloads-append : (fs gs : List IvfFrame) → payloads (fs ++ gs) ≡ payloads fs ++ payloads gs
payloads-append [] gs = refl
payloads-append (f ∷ fs) gs = ap (λ (t : List (List ℕ)). f.bytes ∷ t) (payloads-append fs gs)

pub all_payloads-groups :
    (i : ℕ) (gs : List (List IvfFrame)) → all_payloads (as_groups i gs) ≡ payloads (joined gs)
all_payloads-groups i [] = refl
all_payloads-groups i (g ∷ gs) =
    ap (λ (t : List (List ℕ)). payloads g ++ t) (all_payloads-groups (suc i) gs)
    ∙ sym (payloads-append g (joined gs))

pub length-payloads : (fs : List IvfFrame) → length (payloads fs) ≡ length fs
length-payloads [] = refl
length-payloads (f ∷ fs) = omega (arith, length-payloads fs)

-- What holds of all frames holds of those of one group.
module _ (P : IvfFrame → Type 0) where
  All-left : (fs gs : List IvfFrame) → All P (fs ++ gs) → All P fs
  All-left [] gs h = tt
  All-left (f ∷ fs) gs h = (h.0, All-left fs gs h.1)

  All-right : (fs gs : List IvfFrame) → All P (fs ++ gs) → All P gs
  All-right [] gs h = h
  All-right (f ∷ fs) gs h = All-right fs gs h.1

abbrev pub Fits : IvfFrame → Type 0
Fits frame = length frame.bytes < 2 ^ 32

payloads-Fits :
    (fs : List IvfFrame) → All Fits fs → All (λ (p : List ℕ). IsU64 (length p)) (payloads fs)
payloads-Fits [] h = tt
payloads-Fits (f ∷ fs) h = (omega (arith, h.0), payloads-Fits fs h.1)

header-IsValid : (i : ℕ) → IsU64 i → Header.IsValid (subgroup_header 1 i 0)
unfolding subgroup_header
header-IsValid i h = record {
  track_alias = omega arith;
  group_id = h;
  subgroup_id = omega arith;
  publisher_priority = tt;
}

pub groups-IsValid :
    (i : ℕ) (gs : List (List IvfFrame))
    → i + length gs < 2 ^ 64
    → All Fits (joined gs)
    → All IsValid (as_groups i gs)
groups-IsValid i [] small fits = tt
groups-IsValid i (g ∷ gs) small fits = (
  record {
    header = header-IsValid i (omega arith);
    payloads = payloads-Fits g (All-left Fits g (joined gs) fits);
  },
  groups-IsValid (suc i) gs (omega arith) (All-right Fits g (joined gs) fits),
)

pub groups-Enough :
    (i fuel : ℕ) (gs : List (List IvfFrame))
    → length (joined gs) < fuel
    → All (Enough fuel) (as_groups i gs)
groups-Enough i fuel [] h = tt
groups-Enough i fuel (g ∷ gs) h = (
  omega (arith, length-payloads g, length-append g (joined gs)),
  groups-Enough (suc i) fuel gs (omega (arith, length-append g (joined gs))),
)

-- The frames as the publisher reads them.
pub map-frame_of : (fs : List Stamped) → map as_frame (payloads (map frame_of fs)) ≡ map frame_of fs
map-frame_of [] = refl
map-frame_of (f ∷ fs) = ap (λ (t : List IvfFrame). frame_of f ∷ t) (map-frame_of fs)

pub frames-Fits : (fs : List Stamped) → All IsStamped fs → All Fits (map frame_of fs)
frames-Fits [] v = tt
frames-Fits (f ∷ fs) v = (v.0.payload, frames-Fits fs v.1)

pub Fits-payloads : (fs : List IvfFrame) → All Fits fs → All FitsPayload (payloads fs)
Fits-payloads [] h = tt
Fits-payloads (f ∷ fs) h = (h.0, Fits-payloads fs h.1)

pub length-frames : (fs : List Stamped) → length (map frame_of fs) ≡ length fs
length-frames [] = refl
length-frames (f ∷ fs) = omega (arith, length-frames fs)

pub some_group : (gs : List (List IvfFrame)) → 0 < length (joined gs) → 0 < length (as_groups 0 gs)
some_group [] h = h
some_group (g ∷ gs) h = omega arith

length-as_groups : (i : ℕ) (gs : List (List IvfFrame)) → length (as_groups i gs) ≡ length gs
length-as_groups i [] = refl
length-as_groups i (g ∷ gs) = omega (arith, length-as_groups (suc i) gs)
