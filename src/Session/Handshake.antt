-- ===== src/Session/Handshake.antt =====
-- moqt-core/src/session/mod.rs, `connect` and `accept`: the exchange of SETUP on the two control
-- streams, with the ControlStreamWriter and ControlStreamReader of moqt-core/src/stream/control.rs.
pub mod Established
use moqt_minimal.Prelude.{ℕ, Bool, true, false, Option, none, some, List, []}
use moqt_minimal.Buffer.{Result, ok, err, connection_closed}
use moqt_minimal.Wire.Setup
use moqt_minimal.Wire.Setup.{SetupMessage}
use moqt_minimal.Stream.Transport.{Transport}
use moqt_minimal.Stream.Request.{read_setup}
use moqt_minimal.Session.RequestIds.{RequestIdAllocator, client, server}
use moqt_minimal.Session.Requests.{client_setup, server_setup}
use moqt_minimal.Session.Streams.{Sink}

-- A MoqtSession; the peer's SETUP is what `read_setup` has returned, which the program drops.
pub record MoqtSession (W R : Type 0) : Type 0 where
  pub request_id_alloc : RequestIdAllocator
  pub ctrl_writer : W
  pub ctrl_reader : R
  pub peer_setup : SetupMessage

module _ {W R : Type 0} where
  abbrev pub set_up : RequestIdAllocator → W → Result (SetupMessage × R) → Result (MoqtSession W R)
  set_up a w (ok (m, r)) =
      ok (record { request_id_alloc = a; ctrl_writer = w; ctrl_reader = r; peer_setup = m })
  set_up a w (err e) = err e

module _ {W R : Type 0} (sink : Sink W) (t : Transport R) where
  abbrev pub if_sent : Bool × W → Result W
  if_sent (true, w) = ok w
  if_sent (false, w) = err connection_closed

  abbrev pub write_encoded : Result (Unit {0} × List ℕ) → W → Result W
  write_encoded (ok (u, bytes)) w = if_sent (sink.write_all bytes w)
  write_encoded (err e) w = err e

  -- ControlStreamWriter::write_setup.
  unfoldable pub write_setup : SetupMessage → W → Result W
  write_setup m w = write_encoded (Setup.encode m []) w

  abbrev pub write_to : SetupMessage → Option W → Result W
  write_to m none = err connection_closed
  write_to m (some w) = write_setup m w

  abbrev pub after_write : RequestIdAllocator → Option R → Result W → Result (MoqtSession W R)
  after_write a accepted (err e) = err e
  after_write a none (ok w) = err connection_closed
  after_write a (some recv) (ok w) = set_up a w (read_setup t recv)

  -- The steps that `connect` and `accept` have in common; `accepted` is the stream of `accept_uni`,
  -- or its error.
  unfoldable pub exchange :
      SetupMessage → RequestIdAllocator → ℕ → Option R → Result (MoqtSession W R)
  unfolding write_setup
  exchange setup a session accepted =
      after_write a accepted (write_to setup (sink.open_uni session))

  unfoldable pub connect : ℕ → Option R → Result (MoqtSession W R)
  unfolding exchange
  connect session accepted = exchange client_setup client session accepted

  unfoldable pub accept : ℕ → Option R → Result (MoqtSession W R)
  unfolding exchange
  accept session accepted = exchange server_setup server session accepted
