-- ===== src/Wire/Setup/RoundTrip.antt =====
-- SETUP: the two directions of moqt-core/src/wire/setup.rs.
use moqt_minimal.Prelude.{◌≡◌, ◌≢◌, refl, List, [], ◌∷◌, map, length, All, IsU16, arith, ◌∙◌}
use moqt_minimal.Prelude.{ℕ}
use moqt_minimal.Buffer.{RoundTrips, Writes, Reads, bind-after_ok, pure_run}
use moqt_minimal.Wire.Message.{msg_setup}
use moqt_minimal.Wire.Message.Frame.{message_bytes}
use moqt_minimal.Wire.Message.Framed.{Writes-framed, Reads-framed_prefix}
use moqt_minimal.Wire.KeyValuePair.RoundTrip.{
  ArePairs, pairs_bytes, Writes-pairs, decode-pairs_bytes,
}
use moqt_minimal.Wire.Setup.{
  SetupOption, path, authority, unknown, SetupMessage, to_pair, from_pair, known_option, encode,
  decode, option_path, option_authority,
}

-- An option under a type of its own: the known types are not spelled as unknown ones.
abbrev pub IsProper : SetupOption → Type 0
IsProper (path v) = Unit
IsProper (authority v) = Unit
IsProper (unknown type_id value) = (type_id ≢ option_path) × (type_id ≢ option_authority)

pub record IsValid (m : SetupMessage) : Type 0 where
  pub pairs : ArePairs (map to_pair m.setup_options)
  pub proper : All IsProper m.setup_options
  pub fits : IsU16 (length (pairs_bytes (map to_pair m.setup_options)))

from-to_pair : (o : SetupOption) → IsProper o → from_pair (to_pair o) ≡ o
unfolding from_pair to_pair known_option
from-to_pair (path v) h = refl
from-to_pair (authority v) h = refl
from-to_pair (unknown type_id value) h = ground arith

map-from-to_pair : (os : List SetupOption) → All IsProper os → map from_pair (map to_pair os) ≡ os
map-from-to_pair [] h = refl
map-from-to_pair (o ∷ os) h = rw (from-to_pair o h.0, map-from-to_pair os h.1)

abbrev pub setup_bytes : SetupMessage → List ℕ
setup_bytes m = message_bytes msg_setup (pairs_bytes (map to_pair m.setup_options))

pub Writes-setup : (m : SetupMessage) → IsValid m → Writes (encode m) (setup_bytes m)
unfolding encode
Writes-setup m v = Writes-framed msg_setup _ (Writes-pairs _ v.pairs)

pub Reads-setup : (m : SetupMessage) → IsValid m → Reads decode m (setup_bytes m)
unfolding decode
Reads-setup m v = Reads-framed_prefix msg_setup _ _ [] (omega arith) v.fits (
    bind-after_ok _ _ (decode-pairs_bytes _ v.pairs)
    ∙ rw (map-from-to_pair m.setup_options v.proper) (pure_run m []))

-- A SETUP message with options in ascending order of type is read back as it was written: PATH,
-- AUTHORITY and every option of another type, which is kept.
pub setup_round_trip : (m : SetupMessage) → IsValid m → RoundTrips (encode m) decode m
setup_round_trip m v = (setup_bytes m, Writes-setup m v, Reads-setup m v)
