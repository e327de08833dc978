-- ===== src/Lib.antt =====
-- moqt-minimal: Media over QUIC Transport, the core library, the relay and its two clients.
--
-- A publisher and its subscribers are sessions of a relay. A session exchanges SETUP on control
-- streams; a request (PUBLISH_NAMESPACE, SUBSCRIBE) has a stream of its own, on which the answer
-- comes back; objects travel on data streams, a subgroup header followed by objects. The relay
-- registers namespaces, sends a SUBSCRIBE on to the publisher of the longest registered prefix,
-- or joins the subscriber to a subscription that is there, and copies the publisher's data
-- streams to the subscribers.
--
-- Files:
--   Prelude, Prelude/    numbers, lists and tests that all modules share; bit operations.
--   Buffer, Buffer/      reading from and appending to a byte buffer, with errors; rules for what
--                        an action writes, reads, returns, and for the bytes a loop takes.
--   Map, Map/            std::collections::HashMap as an association list.
--   Wire, Wire/          moqt-core/src/wire/, one module for each file: Varint (varint.rs),
--                        Message (mod.rs), KeyValuePair, Parameter, TrackNamespace, ReasonPhrase,
--                        SubgroupHeader, Object, Setup, Subscribe, SubscribeOk, PublishNamespace,
--                        PublishDone, RequestOk, RequestError. `encode` appends to a Vec<u8>, and
--                        `decode` takes from the front of a slice. `encode_framed` and
--                        `decode_framed` are what each message's encode and decode begin and end
--                        with.
--   Stream, Stream/      moqt-core/src/stream/: Frame (mod.rs), Request (request.rs, control.rs),
--                        Data (data.rs). Transport is web_transport_quinn's RecvStream.
--   Session, Session/    moqt-core/src/session/: RequestIds and Requests (mod.rs,
--                        subscribe_request.rs, publish_namespace_request.rs, subscription.rs),
--                        Subgroups and Streams (subgroup.rs; the writer as a record of its calls,
--                        and on streams whose calls may fail), Events (next_event, and the
--                        SubgroupReader), Handshake (connect, accept).
--   Relay, Relay/        moqt-relay/src/relay.rs: State (RelayState), Subscribe
--                        (handle_subscribe), World (handle_connection: the sessions and tasks that
--                        share the state), Connection (its loop over the events of a session),
--                        DataStream (handle_data_stream), Utf8 (the standard library's
--                        from_utf8), Registry (what RelayState promises, as functions).
--   Clients, Clients/    moqt-pub/src/main.rs and moqt-sub/src/main.rs: Args (the command lines,
--                        with get_arg of moqt-relay/src/main.rs), Ivf (the IVF reader and writer),
--                        Publisher (send_from_stdin; Demo: the demo groups and the two modes),
--                        Subscriber (the receive loop in both modes), Delivery, Pipeline and Relayed
--                        (from the publisher's stdin through the relay to the subscriber's stdout).
-- The modules called Examples run the definitions on concrete data.
--
-- State and errors: a `?` or `ensure!` is an error value; each message of anyhow has a constructor
-- of `Error`. A reader threads its stream. The relay's state is a record that every operation
-- takes and returns; an Arc is the address of what it points to, and the mutex of a track is a
-- Boolean in `track_locks`, whose entries the program never removes. A task of `handle_subscribe`
-- is a phase; a step of the world is one access to the shared state by one task, or a session
-- that comes or goes, in any order.
--
-- Bounds: u64 sums are taken modulo 2^64 where the code does not check them (`resolve_object_id`
-- in a release build, the request and session ids), and `checked_add` where it does. usize has 64
-- bits, so `as usize` changes nothing; allocation succeeds. The loop of decode_key_value_pairs has
-- as much fuel as its buffer has bytes, and each round takes one; `find_publisher` has a round for
-- each field and one more; the loops over a data stream are given more rounds than the stream has
-- objects; the IVF reader has a round for each byte and one more, or for each frame and one more.
--
-- Third-party code is a parameter: `Transport` (read_exact, which delivers what is pending and
-- fails with ReadExactError when there is less) and `Sink` (open_uni, write_all, finish), of which
-- `IsLossless` says that the session stays connected: its streams open and take what is written.
--
-- Not modelled: TLS and QUIC configuration (moqt-core/src/client.rs, quic_config.rs), accepting
-- connections and the WebTransport handshake, certificates and the endpoint of the relay's binary,
-- the clients' connecting, waiting and closing, the web client, log output (but for what moqt-sub
-- reports of the groups in demo mode), and the texts of errors: all input and output. The channel
-- of moqt-pub between the thread that reads stdin and the task that sends is the list of its
-- frames. A reader that has returned None or an error is not read again, and its stream is not
-- tracked further.
pub mod Buffer
pub mod Clients
pub mod Map
pub mod Prelude
pub mod Relay
pub mod Session
pub mod Stream
pub mod Wire
