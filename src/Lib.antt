-- ===== src/Lib.antt =====
-- triptorrent: content transfer between peers over opaque relays.
--
-- The parts of the program that are modelled, and how they interact:
--   * crates/triptorrent-core/src/lib.rs cuts content into hashed chunks under a manifest and puts
--     them together again: Core has the data, Core.Assembly the operations (`slices`,
--     `number_chunks` and `reconstruct_loop` are the iterators and loops inside them).
--   * crates/triptorrent-protocol/src/lib.rs is the binary codec that every other part speaks.
--     Protocol has the messages, Protocol.Writer and Protocol.Reader the methods of `Writer` and
--     `Reader` (a writer is the bytes so far, a reader the input and an offset, and a method that
--     fails returns the error), Protocol.Application, Protocol.Requests and Protocol.Responses the
--     three pairs of encoder and decoder, whose reading halves are their `Body` modules.
--     Protocol.Availability is the bitfield of the chunks that a provider has.
--   * crates/triptorrent-swarm/src/lib.rs decides which provider is asked for which chunk
--     (Swarm.Scheduler) and when bytes may be sent (Swarm.Rate). The scheduler reads the
--     availability of the codec. A method that changes the scheduler returns the new one.
--   * crates/triptorrent-overlay/src/lib.rs is the bootstrap service: Overlay.State has the tables
--     of leased peers and relays and the queues of routes, Overlay.Registry and its child Discovery
--     the operations of `Registry`, Overlay.Service `handle_request`, which answers one decoded
--     request. Time is the argument `now`, in milliseconds.
--   * crates/triptorrent-relay/src/lib.rs pairs two connections on a route: Relay.State is
--     `RelayState`, with a connection as an opaque number and time as an argument in nanoseconds;
--     Relay.Registration is the frame that crates/triptorrent-net/src/lib.rs writes and the relay
--     parses; Relay.Admission is the counter of handlers.
--   * Frame is the length-prefixed framing that the relay, the transport and the bootstrap service
--     each define alike. A stream is the list of the bytes still to come, and `read_exact` of tokio
--     takes bytes off it or meets its end.
--   * crates/triptorrent-interop/src/lib.rs reads BitTorrent metadata: Interop.Bencode is
--     `parse_bencode` with its `Parser`, whose methods return their result with the new position and
--     count; Interop.Metainfo is `torrent_identity`; Interop.Magnet is `parse_magnet`, with
--     `percent_decode` in Percent, `decode_base32` in Base32 and the rest in Query; Interop.Merkle is
--     `v2_file_root` and Interop.Path `sanitize_path_component`. Interop.Bencode.Emit is the
--     canonical encoder that the parser is compared with, Interop.Merkle.Tree the recursive tree.
--   * crates/triptorrent-node/src/lib.rs keeps the transfers of a node: Node.Config is `NodeConfig`
--     with its validation and merging, Node.Transfers the table `transfers` with the statements of
--     `Store`, Node.Runtime the downloads of `NodeRuntime` with their `FetchControl`, each
--     handler as a whole. Handlers run in threads of their own and no lock spans one, so Node.Tasks
--     cuts them at every statement of the store and every use of the lock of the map: a handler that
--     has begun is a task, and a run moves tasks in any order among progress reports, ends of
--     threads, the two halves of a shutdown, and restarts on the index that is left. Node.Handlers
--     has what each step keeps, and Node.Machine the runs. A resume is let begin only while no
--     handler is at work on its transfer (`resumes_apart`): the code does not see to that, and its
--     tests in Node.Machine.Tests show a run without it on which a failed transfer runs again.
--
-- Base has the shared helpers: native-number lists, `Result` with Rust's `?`, big-endian words,
-- UTF-8, and maps as association lists in key order.
--
-- Parameters: `hash` is BLAKE3 (crate blake3), of which nothing is assumed, and `is_socket_addr`
-- tells whether a text parses as a `SocketAddr`. `sha1` and `sha256` are the digests of the
-- crates sha1 and sha2, `hex`, `hex_encode` and `hex_decode` the functions of the crate hex, and
-- `nfc` the normalisation of unicode-normalization; nothing is assumed of them. The texts of the
-- environment are parsed by parameters, and what a fetch comes to is an argument of the step
-- that ends it. The tests take concrete functions.
--
-- Numbers: a `u8`, `u16`, `u32` or `u64` is a natural number, and a theorem that needs its range
-- has it as a hypothesis (`MessageFields` and its like). `usize` has 64 bits. Where the source
-- wraps or saturates, so does the model; counters of events are taken not to reach 2^64.
--
-- Loops: `slices` runs on fuel, the length of the content, which is enough since each piece
-- takes at least one byte; `parse_bencode` runs on 3 * n + 3 units for an input of n bytes,
-- since each byte is met by at most three calls. The layers of `v2_file_root` are reduced on as
-- much fuel as there are leaves, more than the tree is deep, and `next_power` doubles on as much
-- as the number it has to reach. Every other loop is a recursion over a list.
--
-- Not modelled: the Noise sessions (crate snow) and all input and output; the bootstrap client;
-- the accept loops and tasks of the services; the discovery and traffic research of the overlay
-- crate; the content table, configuration files, content files, uploads and HTTP requests of the
-- node crate; the node-api, desktop and cli crates; fuzz targets, examples and scripts.
pub mod Base
pub mod Core
pub mod Protocol
pub mod Swarm
pub mod Overlay
pub mod Frame
pub mod Relay
pub mod Interop
pub mod Node
