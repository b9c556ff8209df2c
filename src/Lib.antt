-- ===== src/Lib.antt =====
-- A verification library for hex-net, a UDP game networking stack in Rust. It covers parts of the
-- crate hex-net-core, whose code takes the time and the received bytes as arguments and does no I/O.
--
-- The program. An endpoint owns connections. A datagram is routed to a shard by its first bytes
-- (wire.rs), its header parsed (wire.rs), its counter reconstructed and checked against the receive
-- window (seq.rs), and its acknowledgement fields fed to the delivery ledger and the round-trip
-- estimator (ack.rs). The token bucket (budget.rs) reads the estimator and bounds what is sent. A packet
-- is sealed and opened by packet.rs over crypto.rs; its body is frames written and read bit by bit
-- (bits.rs), which carry the messages of the channels (channel.rs) and the control frames of the
-- connection (connection.rs). The payloads of messages stand in an arena (arena.rs), items that keep
-- their handles as they move in a slab (slab.rs), and the endpoint's deadlines in a heap (timer.rs). The
-- client drives the handshake and its one connection through a connector (connector.rs), and everything
-- counts what happens (stats.rs).
--
-- The files, with the code below hex-net-core/src that each is about:
--   Common        shared names, lists over native numbers, words, bits, slices and ranges
--   Seq           seq.rs. Sequence, reconstruct, ReceiveWindow{check, insert, ack_bits}; Seq/Window
--                 and Seq/Replay compare the window with the history of insertions; Seq/Buffer is
--                 SequenceBuffer{insert, get, remove}
--   Time          time.rs. Span, Timestamp, Tick, TickPeriod and TickClock; Time/Rebase is set_period
--   Fixed         fixed.rs. Fixed/Vec is FixedVec, Fixed/Ring is RingQueue, which refines a bounded list
--   Wire          wire.rs, with the ids of handshake.rs and shard.rs and CloseReason of connection.rs.
--                 Wire/Header is Header::encode and decode, Wire/Handshake the framing of handshake
--                 packets, Wire/Route is owner_shard
--   Shard         shard.rs. ShardCount{new, contains, home}
--   Config        config.rs. BudgetConfig, MaxAckDelay, Liveness; bits_required of bits.rs and the
--                 frame size of channel.rs
--   Ack           ack.rs. WindowedMin, Estimate, Rtt and the acknowledgement delay; Ack/Delivery is
--                 the ledger's sending and confirming, Ack/Loss its acknowledgements and timers
--   Budget        budget.rs. Every operation of Budget
--   Crypto        crypto.rs. Cipher{nonce, encrypt, decrypt}; the AEAD is the parameter Aead
--   Packet        packet.rs. PacketCrypto; Packet/Send is about encrypt, Packet/Receive about decrypt
--                 and resolve_ack
--   Bits          bits.rs. BitWriter and BitReader; Bits/Written, Writing, Reading and Position compare
--                 them with one number, Bits/Codec writes fields and reads them back
--   Channel       channel.rs without payloads. Channel.receive is read_message after parsing, with whether
--                 the receive arena had room as an argument; Channel/Ordered and Unordered are about
--                 what is delivered, Channel/Sending is the queue of messages to send
--   Connection    connection.rs. Acks{record, deadline, due, sent}; Connection/Control is write_frame and
--                 the writing of frame and control kinds of wire.rs, Connection/Steps what a step of
--                 that does to the packet so far, Connection/Queue is ControlQueue,
--                 Connection/Lifecycle is close, poll_event, transmit_at, handle_timeout and next_timeout, with the
--                 answers of the ledger, the channels and the role as arguments, Connection/Migration
--                 the server's path validation
--   Connector     connector.rs. Connector{connect, handle_datagram, poll_transmit, handle_timeout,
--                 next_timeout, close}. Its connection has the life of Connection/Lifecycle, and the
--                 interface Peer for its packets and timers; Connector/States and Machine are about its
--                 states, Connector/Accepted about how it comes to be connected, Connector/Writing about the
--                 packets of the handshake, Connector/Retry about their timing, Connector/Events about
--                 the loop over the connection's events
--   Endpoint      endpoint.rs. Bucket and RateLimiter
--   Slab          slab.rs. Slab{insert, insert_with, remove, get}; Slab/Valid is its invariant
--   Arena         arena.rs. Arena{new, reserve, write_at, store, load, release, chunks}; Arena/Valid is
--                 its invariant, Arena/Content the bytes of a chain of blocks
--   Timer         timer.rs. TimerHeap{with_slots, deadline, peek, set, cancel, pop_due}, whose set is
--                 set_deadline; Timer/Linked is the agreement of entries and positions, Timer/Up and
--                 Down the two sifts
--   Stats         stats.rs. Counters and Histogram{record, merge}, and the context of ctx.rs
--   Tests         the theorems at concrete inputs
--
-- How the code is modelled. A method that changes self is a function from the state to the state,
-- beside its result. Machine integers are natural numbers with the wrap, the saturation or the check of the
-- source written out; a panic on overflow is none. A slice is a list of numbers below 256, a
-- const generic size an argument. Result and Option stay what they are.
--
-- Bounds and fuel. No definition runs on unbounded fuel: digits_of stops after 32 steps, which is the
-- width of the u32 that bits_required is given, retain_from counts down the vector's
-- length, the refill of the bit reader runs on one unit of fuel per bit asked for and loads at least eight
-- bits for each, the flush of held messages on the length of their list, which gets shorter each time,
-- and the loops of the ledger count the sequences up to the last one sent or acknowledged. The loops of the
-- arena run on a unit for every byte to copy or every block there is, and each turn takes a byte and a block
-- at least; a sift of the heap runs on one unit more than the position, or than the entries, it starts
-- from; the loop over a connection's events on one unit more than the events that wait.
--
-- Not modelled. Sockets, system calls and benchmarks (hex-net-io), the simulator (hex-net-sim), the
-- cipher and the random source (third-party code), the clocks that read the host's time, what the
-- histograms compute in floating point, and for now the frames of the channels, the composition of the
-- connection's own receiving and sending, the acceptor and the endpoint's table of connections.
pub mod Common
pub mod Seq
pub mod Time
pub mod Fixed
pub mod Wire
pub mod Shard
pub mod Config
pub mod Ack
pub mod Budget
pub mod Crypto
pub mod Packet
pub mod Bits
pub mod Slab
pub mod Channel
pub mod Endpoint
pub mod Connection
pub mod Arena
pub mod Timer
pub mod Stats
pub mod Connector
pub mod Tests
