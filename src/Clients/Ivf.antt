-- ===== src/Clients/Ivf.antt =====
-- The IVF container: what moqt-pub/src/main.rs reads from stdin and moqt-sub/src/main.rs writes to
-- stdout. Stdin is the list of the bytes that come before its end.
pub mod Frames
use moqt_minimal.Prelude.{
  ℕ, zero, suc, ◌+◌, ◌*◌, ◌/◌, ◌%◌, ◌^◌, bit_and, Bool, false, Option, none, some, List, [], ◌∷◌,
  ◌++◌, length, take, drop, ◌==◌, leb, if◌then◌else◌,
}
use mathlib.Core.Option

-- An `IvfFrame`; `bytes` is its `data`.
pub record IvfFrame : Type 0 where
  pub bytes : List ℕ
  pub is_keyframe : Bool

-- `std::io::Read::read_exact`, or an error.
unfoldable pub read_exact : ℕ → List ℕ → Option (List ℕ × List ℕ)
read_exact n stdin = if leb n (length stdin) then some (take n stdin, drop n stdin) else none

-- `u32::from_le_bytes` of the first four bytes of a frame header.
abbrev pub frame_size : List ℕ → ℕ
frame_size (a ∷ b ∷ c ∷ d ∷ rest) = a + (256 * b + (65536 * c + 16777216 * d))
frame_size bytes = 0

-- `!data.is_empty() && (data[0] & 0x01) == 0`.
unfoldable pub starts_keyframe : List ℕ → Bool
starts_keyframe [] = false
starts_keyframe (b ∷ bytes) = bit_and b 0x01 == 0

abbrev pub as_frame : List ℕ → IvfFrame
as_frame bytes = record { bytes = bytes; is_keyframe = starts_keyframe bytes }

abbrev pub with_data : Option (List ℕ × List ℕ) → Option (IvfFrame × List ℕ)
with_data none = none
with_data (some (bytes, stdin)) = some (as_frame bytes, stdin)

abbrev pub after_header : Option (List ℕ × List ℕ) → Option (IvfFrame × List ℕ)
after_header none = none
after_header (some (header, stdin)) = with_data (read_exact (frame_size header) stdin)

-- One round of the loop; it breaks where there is no whole frame.
unfoldable pub read_frame : List ℕ → Option (IvfFrame × List ℕ)
unfolding read_exact
read_frame stdin = after_header (read_exact 12 stdin)

-- The frames that are sent to the channel; none only where the model's rounds run out.
unfoldable pub read_frames : ℕ → List ℕ → Option (List IvfFrame)
read_frames zero stdin = none
read_frames (suc fuel) stdin = elim (read_frame stdin) [
  | none ↦ some []
  | some (frame, stdin) ↦
      Option.map (λ (frames : List IvfFrame). frame ∷ frames) (read_frames fuel stdin)
]

abbrev pub after_file_header : ℕ → Option (List ℕ × List ℕ) → Option (List IvfFrame)
after_file_header fuel none = some []
after_file_header fuel (some (file_header, stdin)) = read_frames fuel stdin

-- The blocking thread: the file header is skipped, then come the frames.
unfoldable pub read_ivf : ℕ → List ℕ → Option (List IvfFrame)
unfolding read_frames read_exact
read_ivf fuel stdin = after_file_header fuel (read_exact 32 stdin)

-- `to_le_bytes` of a number of `n` bytes.
abbrev pub le_bytes : ℕ → ℕ → List ℕ
le_bytes zero v = []
le_bytes (suc n) v = (v % 256) ∷ le_bytes n (v / 256)

-- The file header: DKIF, version 0, 32 bytes, VP80, 320 by 240, 30 frames in a second.
abbrev pub ivf_header : List ℕ
ivf_header =
    (b'D' ∷ b'K' ∷ b'I' ∷ b'F' ∷ [])
    ++ (le_bytes 2 0
        ++ (le_bytes 2 32
            ++ ((b'V' ∷ b'P' ∷ b'8' ∷ b'0' ∷ [])
                ++ (le_bytes 2 320
                    ++ (le_bytes 2 240 ++ (le_bytes 4 30 ++ (le_bytes 4 1 ++ le_bytes 8 0)))))))

-- The three writes of a frame; the size is `payload.len() as u32`.
unfoldable pub ivf_frame : ℕ → List ℕ → List ℕ
ivf_frame frame_index payload =
    le_bytes 4 (length payload % 2 ^ 32) ++ (le_bytes 8 frame_index ++ payload)
