-- ===== src/Clients/Ivf/Frames.antt =====
-- What the IVF reader makes of a file, whole or broken off.
use moqt_minimal.Prelude.{
  ℕ, zero, suc, ◌+◌, ◌^◌, ◌≤◌, ◌<◌, ◌≡◌, ◌≢◌, Option-cases, inl, inr, length-drop, refl, sym, ap,
  ◌∙◌, Option, none, some, List, [], ◌∷◌, ◌++◌, length, map, arith, append_assoc, le→leb,
  length-append, take-length_append, drop-length_append, All,
}
use mathlib.Core.Option
use moqt_minimal.Clients.Ivf.{
  IvfFrame, read_exact, frame_size, as_frame, with_data, after_header, after_file_header,
  read_frame, read_frames, read_ivf, le_bytes,
}

-- A frame as it stands in a file: any eight bytes of a timestamp, and the data.
pub record Stamped : Type 0 where
  pub stamp : List ℕ
  pub payload : List ℕ

pub record IsStamped (f : Stamped) : Type 0 where
  pub stamp : length f.stamp ≡ 8
  pub payload : length f.payload < 2 ^ 32

abbrev pub frame_header : ℕ → List ℕ → List ℕ
frame_header size stamp = le_bytes 4 size ++ stamp

abbrev pub frames_bytes : List Stamped → List ℕ
frames_bytes [] = []
frames_bytes (f ∷ fs) = (frame_header (length f.payload) f.stamp ++ f.payload) ++ frames_bytes fs

pub none-some : {A : Type 0} {a : A} → none ≢ some a
none-some e = absurd (ground arith)

abbrev rest_of : Option (IvfFrame × List ℕ) → List ℕ
rest_of none = []
rest_of (some (frame, rest)) = rest

read_exact-append :
    (n : ℕ) (xs ys : List ℕ) → length xs ≡ n → read_exact n (xs ++ ys) ≡ some (xs, ys)
unfolding read_exact
read_exact-append n xs ys h =
    rw
      (
        sym h,
        le→leb (length xs) (length (xs ++ ys)) (omega (arith, length-append xs ys)),
        take-length_append xs ys,
        drop-length_append xs ys,
      )
      refl

read_exact-short : (n : ℕ) (xs : List ℕ) → length xs < n → read_exact n xs ≡ none
unfolding read_exact
read_exact-short n xs h = ground arith

frame_size-le : (v : ℕ) (rest : List ℕ) → v < 2 ^ 32 → frame_size (le_bytes 4 v ++ rest) ≡ v
frame_size-le v rest h = omega arith

read_frame-next :
    (f : Stamped) (rest : List ℕ)
    → IsStamped f
    → read_frame ((frame_header (length f.payload) f.stamp ++ f.payload) ++ rest)
      ≡ some (as_frame f.payload, rest)
unfolding read_frame
read_frame-next f rest v =
    let head = frame_header (length f.payload) f.stamp in
    ap (λ t. after_header (read_exact 12 t)) (append_assoc head f.payload rest)
    ∙ (ap after_header (read_exact-append 12 head (f.payload ++ rest) (omega (arith, v.stamp)))
        ∙ (ap (λ n. with_data (read_exact n (f.payload ++ rest)))
              (frame_size-le (length f.payload) f.stamp v.payload)
            ∙ ap with_data (read_exact-append (length f.payload) f.payload rest refl)))

-- What may follow the last whole frame: part of a header, or a header and part of its data.
pub data BrokenOff (tail : List ℕ) : Type 0 where
  in_header : length tail < 12 → BrokenOff tail
  in_data :
      (size : ℕ) (stamp part : List ℕ)
      → length stamp ≡ 8
      → size < 2 ^ 32
      → length part < size
      → tail ≡ frame_header size stamp ++ part
      → BrokenOff tail

read_frame-broken : (tail : List ℕ) → BrokenOff tail → read_frame tail ≡ none
unfolding read_frame
read_frame-broken tail (in_header short) = ap after_header (read_exact-short 12 tail short)
read_frame-broken tail (in_data size stamp part eight small short e) =
    ap (λ t. after_header (read_exact 12 t)) e
    ∙ (ap after_header (read_exact-append 12 (frame_header size stamp) part (omega (arith, eight)))
        ∙ (ap (λ n. with_data (read_exact n part)) (frame_size-le size stamp small)
            ∙ ap with_data (read_exact-short size part short)))

read_frames-none :
    (fuel : ℕ) (stdin : List ℕ) → read_frame stdin ≡ none → read_frames (suc fuel) stdin ≡ some []
unfolding read_frames
read_frames-none fuel stdin h = ground arith

read_frames-some :
    (fuel : ℕ) (stdin rest : List ℕ) (frame : IvfFrame)
    → read_frame stdin ≡ some (frame, rest)
    → read_frames (suc fuel) stdin
      ≡ Option.map (λ (frames : List IvfFrame). frame ∷ frames) (read_frames fuel rest)
unfolding read_frames
read_frames-some fuel stdin rest frame h = ground arith

abbrev pub frame_of : Stamped → IvfFrame
frame_of f = as_frame f.payload

read_frames-all :
    (fs : List Stamped) (tail : List ℕ) (fuel : ℕ)
    → length fs < fuel
    → All IsStamped fs
    → BrokenOff tail
    → read_frames fuel (frames_bytes fs ++ tail) ≡ some (map frame_of fs)
read_frames-all fs tail zero enough v broken = absurd (omega arith)
read_frames-all [] tail (suc fuel) enough v broken =
    read_frames-none fuel tail (read_frame-broken tail broken)
read_frames-all (f ∷ fs) tail (suc fuel) enough v broken =
    let one = frame_header (length f.payload) f.stamp ++ f.payload in
    ap (read_frames (suc fuel)) (append_assoc one (frames_bytes fs) tail)
    ∙ (read_frames-some fuel _ (frames_bytes fs ++ tail) (as_frame f.payload)
          (read_frame-next f _ v.0)
        ∙ ap (Option.map (λ (frames : List IvfFrame). as_frame f.payload ∷ frames))
            (read_frames-all fs tail fuel (omega arith) v.1 broken))

pub read_ivf-frames :
    (file_header : List ℕ) (fs : List Stamped) (tail : List ℕ) (fuel : ℕ)
    → length file_header ≡ 32
    → length fs < fuel
    → All IsStamped fs
    → BrokenOff tail
    → read_ivf fuel (file_header ++ (frames_bytes fs ++ tail)) ≡ some (map frame_of fs)
unfolding read_ivf
read_ivf-frames file_header fs tail fuel h enough v broken =
    ap (after_file_header fuel) (read_exact-append 32 file_header (frames_bytes fs ++ tail) h)
    ∙ read_frames-all fs tail fuel enough v broken

read_exact-length :
    (n : ℕ) (xs : List ℕ) {ys zs : List ℕ}
    → read_exact n xs ≡ some (ys, zs)
    → n + length zs ≡ length xs
unfolding read_exact
read_exact-length n xs {ys} {zs} h = ground (arith, length-drop n xs)

with_data-length :
    (n : ℕ) (xs : List ℕ) {rest : List ℕ} {frame : IvfFrame}
    → with_data (read_exact n xs) ≡ some (frame, rest)
    → length rest ≤ length xs
with_data-length n xs {rest} h = elim (Option-cases (read_exact n xs)) [
  | inl e ↦ absurd (none-some (sym (ap with_data e) ∙ h))
  | inr ((ys, zs), e) ↦
      let same : zs ≡ rest = ap rest_of (sym (ap with_data e) ∙ h) in
      omega (arith, read_exact-length n xs e, ap length same)
]

read_frame-shorter :
    (stdin rest : List ℕ) (frame : IvfFrame)
    → read_frame stdin ≡ some (frame, rest)
    → length rest < length stdin
unfolding read_frame
read_frame-shorter stdin rest frame h = elim (Option-cases (read_exact 12 stdin)) [
  | inl e ↦ absurd (none-some (sym (ap after_header e) ∙ h))
  | inr ((header, more), e) ↦ omega (
    arith,
    read_exact-length 12 stdin e,
    with_data-length (frame_size header) more (sym (ap after_header e) ∙ h),
  )
]

read_frames-ends :
    (fuel : ℕ) (stdin : List ℕ)
    → length stdin < fuel
    → (frames : List IvfFrame) × (read_frames fuel stdin ≡ some frames)
read_frames-ends zero stdin h = absurd (omega arith)
read_frames-ends (suc fuel) stdin h = elim (Option-cases (read_frame stdin)) [
  | inl e ↦ ([], read_frames-none fuel stdin e)
  | inr ((frame, rest), e) ↦
      let (frames, d) =
        read_frames-ends fuel rest (omega (arith, read_frame-shorter stdin rest frame e)) in
      (
        frame ∷ frames,
        read_frames-some fuel stdin rest frame e
            ∙ ap (Option.map (λ (frames : List IvfFrame). frame ∷ frames)) d,
      )
]

-- Whatever stands on stdin, the blocking thread comes to an end and has passed on some frames:
-- one round more than there are bytes is enough.
pub read_ivf-ends :
    (stdin : List ℕ) (fuel : ℕ)
    → length stdin < fuel
    → (frames : List IvfFrame) × (read_ivf fuel stdin ≡ some frames)
unfolding read_ivf
read_ivf-ends stdin fuel h = elim (Option-cases (read_exact 32 stdin)) [
  | inl e ↦ ([], ap (after_file_header fuel) e)
  | inr ((header, rest), e) ↦
      let (frames, d) = read_frames-ends fuel rest (omega (arith, read_exact-length 32 stdin e)) in
      (frames, ap (after_file_header fuel) e ∙ d)
]
