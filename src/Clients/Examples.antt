-- ===== src/Clients/Examples.antt =====
-- The clients on a file of three frames, of which the third begins a new group.
use moqt_minimal.Prelude.{All, ℕ, ◌≡◌, refl, true, some, List, [], ◌∷◌, ◌++◌, length, map, arith}
use moqt_minimal.Stream.Examples.{list_stream}
use moqt_minimal.Session.Subgroups.{subgroup_header}
use moqt_minimal.Session.Events.{uni}
use moqt_minimal.Session.Events.Received.{group_bytes}
use moqt_minimal.Session.Streams.Logs.{log_sink, log_lossless}
use moqt_minimal.Clients.Args.{
  Arg, ns_flag, default_address, get_arg, parse_args, starts_with_dash, contains_colon,
  find_address, is_address,
}
use moqt_minimal.Clients.Args.Lookup.{
  Lookup, Address, localhost, get_arg-Lookup, relay_addr-Address,
}
use moqt_minimal.Clients.Ivf.{IvfFrame, ivf_header, read_ivf, starts_keyframe}
use moqt_minimal.Clients.Ivf.Frames.{
  Stamped, IsStamped, BrokenOff, in_data, frames_bytes, frame_of, frame_header, read_ivf-ends,
}
use moqt_minimal.Clients.Publisher.Groups.{groups, groups_from}
use moqt_minimal.Clients.Subscriber.{group_line, object_line, receive, nothing_written}
use moqt_minimal.Clients.Subscriber.File.{vp8_header, stamped, receive-file}
use moqt_minimal.Clients.Subscriber.Stderr.{all_lines, with_lines, receive-stderr}
use moqt_minimal.Prelude.{false}
use moqt_minimal.Clients.Subscriber.Stdout.{Group, IsValid, all_payloads}
use moqt_minimal.Map.{get, values}
use moqt_minimal.Relay.Keys.{FullTrackName}
use moqt_minimal.Relay.State.{
  RelayState, Subscription, find_subscriber_sessions, matching_sessions, live_sessions,
}
use moqt_minimal.Relay.State.Membership.{In, here}
use moqt_minimal.Clients.Pipeline.{IsFile}
use moqt_minimal.Clients.Relayed.{Arrives, frames-Arrives}

abbrev stamp : List ℕ
stamp = 1 ∷ 0 ∷ 0 ∷ 0 ∷ 0 ∷ 0 ∷ 0 ∷ 0 ∷ []

abbrev three_frames : List Stamped
three_frames =
    record { stamp = stamp; payload = 16 ∷ 1 ∷ [] }
    ∷ record { stamp = stamp; payload = 17 ∷ [] }
    ∷ record { stamp = stamp; payload = 16 ∷ [] }
    ∷ []

are-IsStamped : All IsStamped three_frames
are-IsStamped = (
  record { stamp = refl; payload = omega arith },
  (
    record { stamp = refl; payload = omega arith },
    (record { stamp = refl; payload = omega arith }, tt),
  ),
)

-- A fourth frame of five bytes breaks off after one.
abbrev tail : List ℕ
tail = frame_header 5 stamp ++ (9 ∷ [])

broken : BrokenOff tail
broken = in_data 5 stamp (9 ∷ []) refl (omega arith) (omega arith) refl

abbrev file : List ℕ
file = ivf_header ++ (frames_bytes three_frames ++ tail)

read_ivf-ends_example : (frames : List IvfFrame) × (read_ivf 3 (7 ∷ 8 ∷ []) ≡ some frames)
read_ivf-ends_example = read_ivf-ends (7 ∷ 8 ∷ []) 3 (omega arith)

-- The third frame is a keyframe.
two_groups : length (groups (map frame_of three_frames)) ≡ 2
unfolding groups groups_from starts_keyframe
two_groups = refl

three-IsFile : IsFile 4 three_frames
three-IsFile = record {
  some_frame = omega arith;
  enough = omega arith;
  small = omega arith;
  stamped = are-IsStamped;
}

abbrev video : FullTrackName
video = record { namespace = record { fields = (97 ∷ []) ∷ [] }; name = 118 ∷ [] }

abbrev to_session_12 : Subscription
to_session_12 = record {
  publisher_session = 0;
  publisher_track_alias = 1;
  subscribe_ok = record { track_alias = 1; parameters = []; track_properties_raw = [] };
  subscribers = record { session_id = 2; request = 31 } ∷ [];
}

-- The relay while session 2, which stays connected, is subscribed to the track of session 0.
abbrev relaying : RelayState
relaying = record {
  next_session_id = 3;
  sessions = (0, 10) ∷ (2, 12) ∷ [];
  namespace_to_publisher = (record { fields = (97 ∷ []) ∷ [] }, 0) ∷ [];
  subscriptions = (video, to_session_12) ∷ [];
  track_locks = [];
}

is_subscribed : In {A = ℕ} 12 (find_subscriber_sessions 0 1 relaying)
unfolding find_subscriber_sessions matching_sessions live_sessions values get
is_subscribed = here

frames-Arrives_example :
    Arrives log_sink 12 log_lossless list_stream log_sink 0 relaying 12 log_lossless list_stream 4
      file
      (map frame_of three_frames)
frames-Arrives_example =
    frames-Arrives log_sink 12 log_lossless list_stream log_sink 0 relaying 12 log_lossless
      list_stream ivf_header three_frames tail 4 refl three-IsFile broken is_subscribed

abbrev group : Group
group = record { header = subgroup_header 1 0 0; payloads = (16 ∷ 1 ∷ []) ∷ (17 ∷ []) ∷ [] }

group-IsValid : IsValid group
unfolding subgroup_header
group-IsValid = record {
  header = record {
    track_alias = omega arith;
    group_id = omega arith;
    subgroup_id = omega arith;
    publisher_priority = tt;
  };
  payloads = (omega arith, (omega arith, tt));
}

abbrev group_stream : List ℕ
group_stream = group_bytes group.header group.payloads

receive-file_example :
    (next : ℕ) × (receive list_stream true 3 (map uni (group_stream ∷ [])) nothing_written
      ≡ some (record {
        ivf_header_written = true;
        frame_index = next;
        stdout = vp8_header ++ frames_bytes (stamped 0 (all_payloads (group ∷ [])));
        stderr = [];
      }))
unfolding list_stream
receive-file_example =
    receive-file list_stream (group ∷ []) (group_stream ∷ []) 3 (omega arith) (group-IsValid, tt)
      (omega arith, (omega arith, tt)) (omega arith, tt) (refl, tt)

receive-stderr_example :
    receive list_stream false 3 (map uni (group_stream ∷ [])) nothing_written
    ≡ some (with_lines (all_lines (group ∷ [])) nothing_written)
unfolding list_stream
receive-stderr_example =
    receive-stderr list_stream (group ∷ []) (group_stream ∷ []) 3 nothing_written
      (group-IsValid, tt) (omega arith, tt) (refl, tt)

-- A group of the track with the alias 1, with objects of two bytes and of one.
three_lines : all_lines (group ∷ []) ≡ group_line 0 1 ∷ object_line 0 2 ∷ object_line 1 1 ∷ []
unfolding subgroup_header
three_lines = refl

abbrev name_with_colon : Arg
name_with_colon = b'a' ∷ b':' ∷ b'b' ∷ []

get_arg-Lookup_example :
    Lookup
      (ns_flag ∷ name_with_colon ∷ [])
      ns_flag
      (get_arg (ns_flag ∷ name_with_colon ∷ []) ns_flag)
get_arg-Lookup_example = get_arg-Lookup (ns_flag ∷ name_with_colon ∷ []) ns_flag

abbrev command_line : List Arg
command_line = (b's' ∷ []) ∷ ns_flag ∷ name_with_colon ∷ default_address ∷ []

relay_addr-Address_example : Address command_line localhost (parse_args command_line).relay_addr
relay_addr-Address_example = relay_addr-Address command_line

-- The address that follows is not looked at.
relay_addr_test : (parse_args command_line).relay_addr ≡ name_with_colon
unfolding parse_args find_address is_address starts_with_dash contains_colon
relay_addr_test = refl
