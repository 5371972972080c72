-- ===== src/Lib.antt =====
-- lachain-communication-hub is the peer-to-peer messaging layer of a blockchain node: it keeps
-- one connection for each peer, sends and receives frames on libp2p streams, delivers consensus
-- messages again until they are confirmed, and hands the data that arrives to the program that
-- embeds it. The development models its Go code.
--
-- - Communication (communication/communication.go): the encoding of a frame, and its reading.
--   A stream is the list of the chunks that its next reads return, a Reader is a bufio.Reader
--   on it with a buffer of 4096 bytes, and read_full is io.ReadFull. ReadFromReader is
--   read_from_reader, ReadOnce is read_once. An Outcome is a result, an error, or a panic of
--   the runtime. Checksum is hash/crc32's IEEE polynomial, run bit by bit, for which Bits has
--   the laws of exclusive or; Corruption is about frames of which a byte was changed on the
--   way, Encodings about the bytes that are accepted.
-- - Utils (utils/message_queue.go, utils/spam_queue.go, utils/utilities.go, utils/crypto.go):
--   the two queues as lists, in Queue and SpamQueue, hexadecimal text, and the signatures that
--   carry a chain id. Waiting is the relation of the steps that the goroutines at a
--   MessageQueue take between two waits, and Random the ids that are drawn, from a Generator
--   that is a parameter. Platform is the record of the functions of packages outside the
--   repository; every definition that calls one takes the record as a parameter.
-- - Connection (peer_service/connection/connection.go and metadata.go): Connection is the
--   struct, with each operation a function to the new struct and the events that it emits, in
--   order: callbacks, stream resets, started goroutines and measurements. Spam and Confirm are
--   the maps behind the id filter and the confirmations, Handshake and Signature the signatures
--   and public keys, Peers and PeerExchange the lists of peers, Receive the rounds of
--   receiveMessageCycle, Outbound the outbound stream, SendCycle the steps of sendMessageCycle
--   between which other goroutines may run, with the cycle's local variables in Sender; Round
--   in it puts the steps of a whole round together. Relays is the dialling through relays,
--   PeersCycle sendPeersCycle. Lifecycle is the relation of all changes of one connection, with
--   its statuses.
-- - PeerService (peer_service/peer_service.go): PeerService is the struct with its maps as
--   association lists. A method that holds the mutex from start to end is one function. A
--   method that may panic is an Option: connection.New panics on a missing address, and with it
--   connect and updatePeerList. Steps is the relation of the calls other than Stop that do not
--   panic, of which any sequence is a Run. Strangers is about the lists of peers on which
--   updatePeerList panics. Startup is New with the connections to the bootstrap peers, and
--   networkMatcher, with fmt as a parameter; External in it is about the external address.
--   Locks lists the mutexes that the methods take and give up, in their order, with the end of
--   a receive cycle, for which Terminate waits, as one more; it has the relation of the
--   goroutines that wait for them.
-- - Hub (embedded_hub.go): StartHub and GetKey in Starting, Init in Signing, GenerateNewKey in
--   NewKey, StartProfiler in Profiler, the other exported calls over a localPeer that may be
--   missing, and GetMessages with its copies into the buffer. The FIFO of received messages is
--   the record Fifo of its operations and their laws, a parameter.
-- - Journey puts two nodes together: messages from the one's SendMessage over its send cycle,
--   the network, and the other's receive cycle and ProcessMessage to its GetMessages, where the
--   network hands every frame over in chunks of its own; in Confirming a consensus message with
--   its confirmation; and in Meeting the messages for a peer before and after its signature
--   comes.
-- - Builder (host/builder.go): the key file of a host, over a map of files, and in NamedHost
--   BuildNamedHost and GenerateKey; the library's keys and libp2p's New are parameters.
-- - Throughput (throughput/calculator.go): Calculator, with the reports that a measurement
--   makes. The float64 numbers are a parameter.
-- - Config (config/config.go): the bootstrap addresses, parsed from their text, and the
--   getters.
--
-- Numbers are natural numbers with the wrap-around of the source's types written out: message
-- counts and peer numbers are taken mod 2^32. Times are nanoseconds and come in as arguments,
-- as do the answers of the network, the outcomes of reads and writes, and the random ids. A map
-- is an association list; where Go iterates over a map in any order, the model iterates in the
-- order of the list. A nil pointer, slice or interface is none. Recursion is on lists or
-- chunks, except decode_loop, whose fuel is the length of the bytes before it: a turn that goes
-- on takes at least four of them, because DecodeArray panics or ends on a shorter rest.
--
-- Not modelled: the HTTP servers of Init and StartProfiler and LogLevel's log writer
-- (embedded_hub.go), which are I/O; the closing of the libp2p host; the request that looks up
-- the external address; logging; and the waiting of Terminate for the send cycle.
-- cmd/protoc-gen-go-grpc is a copy of another project's code generator, which the hub does not
-- call.
pub mod Base
pub mod Binary
pub mod Bits
pub mod Communication
pub mod Utils
pub mod Connection
pub mod PeerService
pub mod Hub
pub mod Journey
pub mod Throughput
pub mod Config
pub mod Builder
