-- ===== src/Clients/Subscriber/File.antt =====
-- The file that moqt-sub writes in pipe mode, in terms of the container's format.
use moqt_minimal.Prelude.{
  ℕ, ◌+◌, ◌%◌, ◌^◌, ◌<◌, ◌≡◌, refl, sym, ap, ◌∙◌, true, some, List, [], ◌∷◌, ◌++◌, length, map,
  append-nil, arith, All,
}
use moqt_minimal.Stream.Transport.{Transport}
use moqt_minimal.Session.Events.{uni}
use moqt_minimal.Clients.Ivf.{ivf_header, ivf_frame, read_ivf, le_bytes, as_frame, IvfFrame}
use moqt_minimal.Clients.Ivf.Frames.{
  Stamped, IsStamped, frames_bytes, frame_of, in_header, read_ivf-frames,
}
use moqt_minimal.Clients.Subscriber.{nothing_written, receive}
use moqt_minimal.Clients.Subscriber.Stdout.{
  Group, IsValid, Enough, Deliver, ivf_frames, all_payloads, at_index, receive-stdout,
}

-- The 32 bytes of a file header: DKIF, version 0, 32 bytes, VP80, 320 by 240, 30 frames in a second,
-- no frame count.
abbrev pub vp8_header : List ℕ
vp8_header =
    68 ∷ 75 ∷ 73 ∷ 70 ∷ 0 ∷ 0 ∷ 32 ∷ 0 ∷ 86 ∷ 80 ∷ 56 ∷ 48 ∷ 64 ∷ 1 ∷ 240 ∷ 0 ∷ 30 ∷ 0 ∷ 0 ∷ 0 ∷ 1
    ∷ 0 ∷ 0 ∷ 0 ∷ 0 ∷ 0 ∷ 0 ∷ 0 ∷ 0 ∷ 0 ∷ 0 ∷ 0 ∷ []

-- The frames of a file, numbered from `i` on: the number is the timestamp.
abbrev pub stamped : ℕ → List (List ℕ) → List Stamped
stamped i [] = []
stamped i (p ∷ ps) = record { stamp = le_bytes 8 i; payload = p } ∷ stamped ((i + 1) % 2 ^ 64) ps

abbrev pub FitsPayload : List ℕ → Type 0
FitsPayload p = length p < 2 ^ 32

ivf_frames-stamped :
    (i : ℕ) (ps : List (List ℕ))
    → All FitsPayload ps
    → ivf_frames i ps ≡ frames_bytes (stamped i ps)
unfolding ivf_frame
ivf_frames-stamped i [] h = refl
ivf_frames-stamped i (p ∷ ps) h =
    ap (λ (n : ℕ). le_bytes 4 n ++ (le_bytes 8 i ++ (p ++ ivf_frames ((i + 1) % 2 ^ 64) ps)))
      (omega (arith, h.0))
    ∙ ap (λ (t : List ℕ). le_bytes 4 (length p) ++ (le_bytes 8 i ++ (p ++ t)))
        (ivf_frames-stamped ((i + 1) % 2 ^ 64) ps h.1)

stamped-IsStamped : (i : ℕ) (ps : List (List ℕ)) → All FitsPayload ps → All IsStamped (stamped i ps)
stamped-IsStamped i [] h = tt
stamped-IsStamped i (p ∷ ps) h =
    (record { stamp = refl; payload = h.0 }, stamped-IsStamped ((i + 1) % 2 ^ 64) ps h.1)

length-stamped : (i : ℕ) (ps : List (List ℕ)) → length (stamped i ps) ≡ length ps
length-stamped i [] = refl
length-stamped i (p ∷ ps) = omega (arith, length-stamped ((i + 1) % 2 ^ 64) ps)

stamped-payloads : (i : ℕ) (ps : List (List ℕ)) → map frame_of (stamped i ps) ≡ map as_frame ps
stamped-payloads i [] = refl
stamped-payloads i (p ∷ ps) =
    ap (λ (t : List IvfFrame). as_frame p ∷ t) (stamped-payloads ((i + 1) % 2 ^ 64) ps)

-- A file that the subscriber has written is read as the payloads in it.
pub read_written :
    (ps : List (List ℕ)) (fuel : ℕ)
    → length ps < fuel
    → All FitsPayload ps
    → read_ivf fuel (ivf_header ++ ivf_frames 0 ps) ≡ some (map as_frame ps)
read_written ps fuel enough h =
    ap (λ t. read_ivf fuel (ivf_header ++ t)) (ivf_frames-stamped 0 ps h ∙ sym (append-nil _))
    ∙ (read_ivf-frames ivf_header (stamped 0 ps) [] fuel refl (omega (arith, length-stamped 0 ps))
          (stamped-IsStamped 0 ps h) (in_header (omega arith))
        ∙ ap some (stamped-payloads 0 ps))

module _ {R : Type 0} (t : Transport R) where
  -- In pipe mode the groups that come, at least one, stand on stdout as one IVF file: a file header
  -- of 32 bytes, and behind it a frame for every object, in the order of the groups and of the
  -- objects in them, with the size of the payload in four bytes, its number in eight, and the payload;
  -- the frames are numbered from 0 on across the groups (modulo 2^64). The payloads are shorter than
  -- 2^32 bytes; one round more than a group has objects is enough.
  pub receive-file :
      (gs : List Group) (rs : List R) (fuel : ℕ)
      → 0 < length gs
      → All IsValid gs
      → All FitsPayload (all_payloads gs)
      → All (Enough fuel) gs
      → Deliver t gs rs
      → (next : ℕ) × (receive t true fuel (map uni rs) nothing_written
          ≡ some (record {
            ivf_header_written = true;
            frame_index = next;
            stdout = vp8_header ++ frames_bytes (stamped 0 (all_payloads gs));
            stderr = [];
          }))
  receive-file gs rs fuel some_group v fits enough d =
      let (next, e) = receive-stdout t gs rs fuel some_group v enough d in
      (
        next,
        e
            ∙ ap (λ (bytes : List ℕ). some (at_index next (vp8_header ++ bytes)))
                (ivf_frames-stamped 0 (all_payloads gs) fits),
      )
