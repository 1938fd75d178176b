-- ===== src/Lib.antt =====
-- xstack, a libp2p network stack in Rust: a model of its own logic, with the theorems that make it
-- correct.
--
-- The program. A `Switch` (crates/xstack/src/switch) runs connections and protocol streams; it keeps
-- its addresses in `MutableSwitch`, peers in a peer book, connections in a pool, and hands inbound
-- streams to a dispatcher. A connection enters the pool when its handshake, an exchange of identities,
-- has passed. `crates/kad` is the Kademlia node on top of it: a routing table that fills from
-- successful handshakes, the iterative lookup, and the calls between nodes. `crates/circuit` keeps
-- reservations at relays, dials through them and replaces such connections by direct ones.
--
-- The files.
--   Base: shared names, lists, maps, bit laws, `Outcome` for code that can panic; Base/Action: code
--     that changes a state, fails and can panic.
--   Kad/Key: `KBucketKey`, `KBucketDistance` of crates/kad/src/kbucket.rs.
--   Kad/Bucket: `KBucket::try_insert` there.
--   Kad/Table: `RawKBucketTable::try_insert` and `bucket` there; Kad/Closest: `closest`.
--   Kad/Refresh: `KBucketTable` there, with the tasks that it spawns.
--   Kad/Routing: `Recursively` of crates/kad/src/router.rs; Kad/Find: `FindNode::route` there;
--     Kad/Seeds: `KademliaOptions::with_seeds` there.
--   Kad/Messages: `KademliaRpc` and the conversions of peers of crates/kad/src/rpc.rs.
--   Pool: `RawConnPool` of crates/xstack/src/connector.rs; Pool/History: `ConnPool` as a sequence of
--     operations; Pool/Connect: its `connect`, `connect_to` and `connect_raddrs`.
--   PeerBook: `MemoryPeerBook` of crates/xstack/src/book.rs.
--   Dispatcher: `MutexStreamDispatcher` of crates/xstack/src/stream.rs.
--   AutoNat: `RawAutoNatClient` of crates/autonat/src/client.rs; AutoNat/Client: `AutoNatClient` there.
--   Switch/Addresses: `MutableSwitch` of crates/xstack/src/switch/mutable.rs.
--   Switch/State: the fields of `Switch`; Switch/Identity: the exchange of identities of
--     crates/xstack/src/switch/protocols.rs; Switch/Handshake: `handshake`, `transport_connect`,
--     `transport_bind` and `handle_incoming` of crates/xstack/src/switch/switch.rs; Switch/Streams:
--     `handle_incoming_stream` and `dispatch_stream` there; Switch/Builder: `SwitchBuilder` of
--     crates/xstack/src/switch/builder.rs.
--   Circuit: the errors and messages of crates/circuit; Circuit/Calls: its rpc.rs;
--     Circuit/Reservations: `reservation_client_loop_prv` of its protocols/stop.rs; Circuit/Upgrade:
--     `upgrade` of its protocols/dcutr.rs; Circuit/Transport: its transport.rs.
--   Event: the events of crates/xstack/src/event.rs; Event/Mediator: `EventSource` and
--     `SyncEventMediator` there.
--   Error: `Error` of crates/xstack/src/errors.rs. Rpc: `XStackRpc` of crates/xstack/src/rpc.rs, and
--     `ping_echo` of crates/xstack/src/switch/protocols.rs.
--   Multiaddr: crates/xstack/src/multiaddr.rs; Dns: `DnsAddr` of crates/dnsaddr/src/lib.rs.
--   Tests: runs, and each theorem at an input that meets its hypotheses.
--
-- Conventions. A `HashMap` is an association list, a `VecDeque` a list with its front at the head,
-- a 256-bit key a number below 2^256. Code behind a lock is one step. Identifiers of peers, their
-- keys (a hash), addresses and the network are parameters. Loops with fuel have a theorem that the
-- fuel is enough: `closest` takes 257 rounds, since after 256 steps both of its indices have left the
-- table; a lookup takes what `enough_fuel` counts, the queries and the names in their answers; the echo
-- of pings runs until its stream ends, in more rounds than the blocks that arrive.
--
-- A timeout strikes while the code waits for a peer, and what a peer sends is on the stream before it
-- is read. The clock, and whether a stream or a connection opens, are parameters.
-- Where other tasks, or the handshake of a connection that a step opens, change the state before the
-- step goes on, this change is a parameter, `meanwhile`, and a list of operations for the pool
-- (Kad/Find, Switch/Streams, Pool/Connect); connecting to a relay gives the addresses of the switch
-- anew (Circuit/Reservations). A reservation is modelled beside no other.
--
-- Not modelled: input and output, TLS and X.509, QUIC, TCP and mDNS sockets, which are calls of other
-- libraries; protobuf code that the build generates; the keystore, macros, getters, and the loops that
-- only spawn tasks.
pub mod AutoNat
pub mod Base
pub mod Circuit
pub mod Dispatcher
pub mod Dns
pub mod Error
pub mod Event
pub mod Kad
pub mod Multiaddr
pub mod PeerBook
pub mod Pool
pub mod Rpc
pub mod Switch
pub mod Tests
