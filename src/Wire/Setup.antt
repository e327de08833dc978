-- ===== src/Wire/Setup.antt =====
-- moqt-core/src/wire/setup.rs: the SETUP message.
pub mod RoundTrip
use moqt_minimal.Prelude.{ℕ, List, map, ◌==◌, if◌then◌else◌}
use moqt_minimal.Buffer.{Action, ◌>>=◌, pure}
use moqt_minimal.Wire.Message.{msg_setup, encode_framed, decode_framed}
use moqt_minimal.Wire.KeyValuePair.{KvValue, varint, bytes, KeyValuePair}
use moqt_minimal.Wire.KeyValuePair.{encode_key_value_pairs, decode_key_value_pairs}

abbrev pub option_path : ℕ
option_path = 0x01

abbrev pub option_authority : ℕ
option_authority = 0x05

pub data SetupOption : Type 0 where
  path : List ℕ → SetupOption
  authority : List ℕ → SetupOption
  unknown : ℕ → KvValue → SetupOption

pub record SetupMessage : Type 0 where
  pub setup_options : List SetupOption

unfoldable pub to_pair : SetupOption → KeyValuePair
to_pair (path v) = record { type_id = option_path; value = bytes v }
to_pair (authority v) = record { type_id = option_authority; value = bytes v }
to_pair (unknown type_id value) = record { type_id = type_id; value = value }

-- `match kv.value` under a known type.
unfoldable pub known_option : (List ℕ → SetupOption) → ℕ → KvValue → SetupOption
known_option option type_id (bytes v) = option v
known_option option type_id (varint v) = unknown type_id (varint v)

unfoldable pub from_pair : KeyValuePair → SetupOption
from_pair kv =
    if kv.type_id == option_path
    then known_option path kv.type_id kv.value
    else if kv.type_id == option_authority
    then known_option authority kv.type_id kv.value
    else unknown kv.type_id kv.value

unfoldable pub encode : SetupMessage → Action (Unit {0})
encode m = encode_framed msg_setup (encode_key_value_pairs (map to_pair m.setup_options))

unfoldable pub decode : Action SetupMessage
decode =
    decode_framed msg_setup
      (do kvs ← decode_key_value_pairs; pure (record { setup_options = map from_pair kvs }))
