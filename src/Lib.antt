-- ===== src/Lib.antt =====
-- Verification library of recisdb-proxy-rs: a server that shares the tuners of one machine over the
-- network, a BonDriver client, and the crate with the protocol between them. The client sends
-- commands in frames and receives the transport stream, which it keeps in a ring buffer for the
-- player; the server hands tuners out under locks, and can filter a stream down to one service.
--
-- The files, and what they model:
--   Base             shared names, lists and integers over the native numbers, little-endian bytes,
--                    bit fields, and Outcome: a value, an error or a panic.
--   Protocol         recisdb-protocol/src/types.rs, error.rs and codec.rs. Messages and MessageType
--                    are the enums of types.rs, Encode and Frame write (encode_client_message,
--                    encode_server_message, encode_frame), Decode reads (decode_header,
--                    decode_client_message, decode_server_message). A cursor over a byte buffer is
--                    a Reader: it takes the bytes that are left and gives a value with the rest.
--                    The bytes crate is a record of operations (Buf) with laws (IsBuf): get_ and
--                    put_ calls are inverse, and reading past the end panics. What a vector can
--                    reserve stands there too (capacity).
--                    Cut takes one frame off the front of a buffer, as both ends of the connection
--                    do before they decode.
--   Broadcast        recisdb-protocol/src/broadcast_region.rs and BandType of types.rs: what a network
--                    id says of the region and the band. The workspace is built with overflow
--                    checks, so overflows are panics. Japanese names are constructors.
--   Session          recisdb-proxy/src/server/session.rs. Receive is the way of the messages from the
--                    socket to handle_message: try_decode_message, read_message_with and the part
--                    of run that does not stream. The socket is the list of the chunks that its
--                    reads return, and how they end (Last). What the session does with a message,
--                    whether it then streams, and when it is asked to shut down is an argument of
--                    the loop (Handler). Handlers are the messages that need no database: each is
--                    what it changes, in the session and in the tuner pool, and then its reply.
--   Tuner            recisdb-proxy/src/tuner/channel_key.rs and lock.rs. The state is TunerLock;
--                    each guard's operation is a function on it, Lock.Steps interleaves the clients
--                    as a relation between states. tokio's semaphore is a record of operations
--                    (Semaphore) with laws (IsSemaphore).
--                    pool.rs is Pool: the maps are lists of pairs (KeyMap), an Arc is a number, and
--                    each function is what happens between two suspension points (Idle has the
--                    timers, whose task is suspended between expire_start and expire_finish;
--                    Create is get_or_create). A sender that leaves the map of timers is used or
--                    dropped, and makes its receiver ready either way.
--   Client           bondriver-proxy-client/src/client. connection.rs is Receive (the reader of
--                    connection_loop, between the socket and the ring buffer) and Connection (the
--                    calls of a client as functions on its state; what the server answers is an
--                    argument of each call). buffer.rs is RingBuffer. Its memory is a function from
--                    indices, and the size an argument; its theorems ask for whole packets,
--                    which RING_BUFFER_SIZE is. Atomic loads and stores are single steps. Of
--                    wait_data and of the condition variable nothing is modelled: they move no data.
--   Ts               recisdb-proxy/src/ts_analyzer: packet.rs (Packet), psi.rs (Psi, Collector),
--                    pat.rs and pmt.rs (Tables), service_filter.rs (Filter). Indexing and slicing
--                    panic out of bounds (Access). A set of PIDs is its test of membership.
--                    tuner/ts_parser.rs is Minimal: the parser of the passive scanner. The loops
--                    over its tables keep the offset of the source; those of feed and of the
--                    elementary streams keep what is left of the bytes. The strings of Rust's
--                    library are a parameter (Text).
--
-- Integers of fixed width are natural numbers; `as` casts and wrapping operations are written out
-- as remainders, and the ranges of fields are hypotheses where a theorem needs them. Strings are
-- lists of bytes. The loops of the source run on fuel: the elementary streams of a PMT have the
-- length of the section's body, of which each round takes five bytes or more; the rounds of the
-- service filter are counted beforehand, as in the source; a wait for a message takes a frame or a
-- chunk in each round, so that the bytes and the chunks bound it; a pass over the client's buffer
-- takes a frame in each round; the loops of the passive scanner take a byte, a packet, or two bytes of
-- a descriptor in each round, and the length of their data bounds them.
--
-- Not modelled: sockets, the database, the web server and the drivers, which are input and output,
-- and the handlers of a session that query the database; its streaming loop, the selector and the group
-- spaces, which are logic of their own. An allocation that fails for want of memory ends the process
-- and is not modelled either.
pub mod Base
pub mod Broadcast
pub mod Protocol
pub mod Tuner
pub mod Client
pub mod Session
pub mod Ts
