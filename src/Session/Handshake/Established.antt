-- ===== src/Session/Handshake/Established.antt =====
-- The two ends of a session after the exchange of SETUP.
use moqt_minimal.Prelude.{ℕ, ◌≡◌, refl, ap, ◌∙◌, false, some, List, [], ◌∷◌, ◌++◌, arith, map}
use moqt_minimal.Buffer.{ok, Reads-exact}
use moqt_minimal.Wire.Message.{msg_setup}
use moqt_minimal.Wire.Setup
use moqt_minimal.Wire.Setup.{SetupMessage, path, authority, to_pair}
use moqt_minimal.Wire.KeyValuePair.RoundTrip.{pairs_bytes}
use moqt_minimal.Wire.Varint.{varint_bytes}
use moqt_minimal.Wire.Setup.RoundTrip.{IsValid, setup_bytes, Writes-setup, Reads-setup}
use moqt_minimal.Stream.Transport.{Transport, Pulls, Pulls-last, Pulls-decoded}
use moqt_minimal.Stream.Frame.RoundTrip.{Pulls-frame}
use moqt_minimal.Stream.Request.{read_setup}
use moqt_minimal.Session.RequestIds.{RequestIdAllocator, client, server}
use moqt_minimal.Session.Requests.{client_setup, server_setup}
use moqt_minimal.Session.Streams.{Sink}
use moqt_minimal.Session.Streams.Lossless.{IsLossless}
use moqt_minimal.Session.Handshake.{
  MoqtSession, set_up, write_setup, write_to, write_encoded, if_sent, after_write, exchange,
  connect, accept,
}

-- What the two ends are to learn from each other.
abbrev pub no_options : SetupMessage
no_options = record { setup_options = [] }

abbrev pub path_and_authority : SetupMessage
path_and_authority = record {
  setup_options =
      path (b'/' ∷ [])
      ∷ authority (b'l' ∷ b'o' ∷ b'c' ∷ b'a' ∷ b'l' ∷ b'h' ∷ b'o' ∷ b's' ∷ b't' ∷ [])
      ∷ [];
}

server_setup-IsValid : IsValid server_setup
server_setup-IsValid = record { pairs = (tt, tt); proper = tt; fits = omega arith }

client_setup-IsValid : IsValid client_setup
unfolding to_pair varint_bytes
client_setup-IsValid = record { pairs = omega arith; proper = (tt, (tt, tt)); fits = omega arith }

Pulls-setup :
    {R : Type 0} (t : Transport R) (m : SetupMessage)
    → IsValid m
    → Pulls t (read_setup t) m (setup_bytes m)
unfolding read_setup
Pulls-setup t m v =
    Pulls-last t _ _
      (Pulls-frame t msg_setup (pairs_bytes (map to_pair m.setup_options)) (omega arith) v.fits)
      (Pulls-decoded t (setup_bytes m) [] Setup.decode (Reads-exact _ _ (Reads-setup m v)))

-- A session whose SETUPs have been exchanged: `own` stands on the control stream, which stays open,
-- and `peer` has been read.
pub record IsSetUp {W R : Type 0} {sink : Sink W} {session : ℕ} (l : IsLossless sink session)
    (t : Transport R) (a : RequestIdAllocator) (own peer : SetupMessage) (rest : List ℕ)
    (s : MoqtSession W R) : Type 0 where
  pub request_ids : s.request_id_alloc ≡ a
  pub read : s.peer_setup ≡ peer
  pub sent : l.content s.ctrl_writer ≡ setup_bytes own
  pub open_ : l.ended s.ctrl_writer ≡ false
  pub left : t.pending s.ctrl_reader ≡ rest

module _ {W R : Type 0} (sink : Sink W) (t : Transport R) where
  exchange-IsSetUp :
      (session : ℕ) (l : IsLossless sink session) (own peer : SetupMessage) (a : RequestIdAllocator)
      (r : R) (rest : List ℕ)
      → IsValid own
      → IsValid peer
      → t.pending r ≡ setup_bytes peer ++ rest
      → (s : MoqtSession W R) × (exchange sink t own a session (some r) ≡ ok s)
        × IsSetUp l t a own peer rest s
  unfolding exchange write_setup
  exchange-IsSetUp session l own peer a r rest v u p =
      let (w, e, c, o) = l.opens in
      let (x, d, cx, ox) = l.writes (setup_bytes own) w o in
      let (s, f, left) = (Pulls-setup t peer u).on r rest p in
      (
        record { request_id_alloc = a; ctrl_writer = x; ctrl_reader = s; peer_setup = peer },
        ap (λ q. after_write sink t a (some r) (write_to sink t own q)) e
            ∙ (ap (λ q. after_write sink t a (some r) (write_encoded sink t q w))
                  ((Writes-setup own v).on [])
                ∙ (ap (λ q. after_write sink t a (some r) (if_sent sink t q)) d
                    ∙ ap (set_up a x) f)),
        record { request_ids = refl; read = refl; sent = cx ∙ rw c refl; open_ = ox; left = left },
      )

  -- A client that connects and a relay that accepts, each of which gets what the other has sent on
  -- its control stream, both come out of the exchange with a session: the client with the empty
  -- SETUP of the server, the server with the path "/" and the authority "localhost" of the client;
  -- the client's request ids begin at 0 and the server's at 1; both control streams are left open,
  -- with nothing on them but that SETUP.
  pub connect-accept :
      (here there : ℕ) (lc : IsLossless sink here) (ls : IsLossless sink there) (rc rs : R)
      (after_c after_s : List ℕ)
      → t.pending rc ≡ setup_bytes no_options ++ after_c
      → t.pending rs ≡ setup_bytes path_and_authority ++ after_s
      → (c : MoqtSession W R) × (s : MoqtSession W R) × (connect sink t here (some rc) ≡ ok c)
        × (accept sink t there (some rs) ≡ ok s)
        × IsSetUp lc t (record { next_id = 0 }) path_and_authority no_options after_c c
        × IsSetUp ls t (record { next_id = 1 }) no_options path_and_authority after_s s
  unfolding connect accept
  connect-accept here there lc ls rc rs after_c after_s pc ps =
      let (c, ec, vc) =
        exchange-IsSetUp here lc client_setup server_setup client rc after_c client_setup-IsValid
          server_setup-IsValid pc in
      let (s, es, vs) =
        exchange-IsSetUp there ls server_setup client_setup server rs after_s server_setup-IsValid
          client_setup-IsValid ps in
      (c, s, ec, es, vc, vs)
