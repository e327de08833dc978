-- ===== src/Clients/Args.antt =====
-- The command lines of moqt-pub/src/main.rs, moqt-sub/src/main.rs and moqt-relay/src/main.rs. An
-- argument is its bytes in UTF-8.
pub mod Lookup
use moqt_minimal.Prelude.{
  ℕ, zero, suc, ◌+◌, Bool, true, false, not, ◌&&◌, ◌||◌, Option, none, some, List, [], ◌∷◌, ◌==◌,
  if◌then◌else◌,
}
use mathlib.Core.Option
use moqt_minimal.Map.{and_then}
use moqt_minimal.Relay.Keys.{same_bytes}

abbrev pub Arg : Type 0
Arg = List ℕ

-- `args.iter().position(|a| a == flag)`.
unfoldable pub position : Arg → List Arg → Option ℕ
position flag [] = none
position flag (a ∷ args) =
    let rest = Option.map (λ (i : ℕ). i + 1) (position flag args) in
    if same_bytes a flag then some 0 else rest

-- `args.get(i)`.
unfoldable pub get_elem? : List Arg → ℕ → Option Arg
get_elem? [] i = none
get_elem? (a ∷ args) zero = some a
get_elem? (a ∷ args) (suc i) = get_elem? args i

unfoldable pub get_arg : List Arg → Arg → Option Arg
unfolding position get_elem?
get_arg args flag = and_then (position flag args) (λ (i : ℕ). get_elem? args (i + 1))

abbrev pub unwrap_or : Option Arg → Arg → Arg
unwrap_or none default = default
unwrap_or (some a) default = a

-- `args.iter().any(|a| a == flag)`.
unfoldable pub has_flag : Arg → List Arg → Bool
has_flag flag [] = false
has_flag flag (a ∷ args) = same_bytes a flag || has_flag flag args

unfoldable pub starts_with_dash : Arg → Bool
starts_with_dash [] = false
starts_with_dash (c ∷ a) = c == b'-'

unfoldable pub contains_colon : Arg → Bool
contains_colon [] = false
contains_colon (c ∷ a) = c == b':' || contains_colon a

-- `!a.starts_with('-') && a.contains(':')`.
unfoldable pub is_address : Arg → Bool
unfolding starts_with_dash contains_colon
is_address a = not (starts_with_dash a) && contains_colon a

-- `args.iter().find(…)`.
unfoldable pub find_address : List Arg → Option Arg
unfolding is_address
find_address [] = none
find_address (a ∷ args) = let rest = find_address args in if is_address a then some a else rest

abbrev pub pipe_flag : Arg
pipe_flag = b'-' ∷ b'-' ∷ b'p' ∷ b'i' ∷ b'p' ∷ b'e' ∷ []

abbrev pub ns_flag : Arg
ns_flag = b'-' ∷ b'-' ∷ b'n' ∷ b's' ∷ []

abbrev pub track_flag : Arg
track_flag = b'-' ∷ b'-' ∷ b't' ∷ b'r' ∷ b'a' ∷ b'c' ∷ b'k' ∷ []

-- "127.0.0.1:4433", "example" and "video".
abbrev pub default_address : Arg
default_address =
    b'1' ∷ b'2' ∷ b'7' ∷ b'.' ∷ b'0' ∷ b'.' ∷ b'0' ∷ b'.' ∷ b'1' ∷ b':' ∷ b'4' ∷ b'4' ∷ b'3' ∷ b'3'
    ∷ []

abbrev pub default_namespace : Arg
default_namespace = b'e' ∷ b'x' ∷ b'a' ∷ b'm' ∷ b'p' ∷ b'l' ∷ b'e' ∷ []

abbrev pub default_track : Arg
default_track = b'v' ∷ b'i' ∷ b'd' ∷ b'e' ∷ b'o' ∷ []

-- The arguments of moqt-pub and moqt-sub; the address is parsed afterwards, by the standard library.
pub record Options : Type 0 where
  pub pipe_mode : Bool
  pub relay_addr : Arg
  pub namespace : Arg
  pub track_name : Arg

unfoldable pub parse_args : List Arg → Options
unfolding get_arg has_flag find_address
parse_args args = record {
  pipe_mode = has_flag pipe_flag args;
  relay_addr = unwrap_or (find_address args) default_address;
  namespace = unwrap_or (get_arg args ns_flag) default_namespace;
  track_name = unwrap_or (get_arg args track_flag) default_track;
}
