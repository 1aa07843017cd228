-- ===== src/Lib.antt =====
-- A library of models and theorems for the MQTT 3.1.1 broker rustquitto (Rust, `src/`).
--
-- The program reads packets from TCP and WebSocket connections (`src/server`), turns bytes into
-- packets and back (`src/protocol`), and keeps sessions and a tree of subscriptions by which a
-- published message finds its receivers (`src/broker`). A connection decodes a packet, calls the
-- broker, and the broker answers into the channels of sessions, whose packets the connection
-- encodes.
--
-- Files and what they model:
--   Base          shared names, Boolean tests, lists over native numbers, bytes, counting
--   Error         src/error.rs: `BrokerError`, `Result`, the operator `?` as a bind
--   Text          the functions of Rust's `str` that the program calls, on bytes; a `String` is a
--                 byte list whose validity `is_utf8` decides
--   Extern        the packages `bytes` (Buffer: `BytesMut`), `tokio` (Channel: unbounded `mpsc`)
--                 and `dashmap` (DashMap), as records of operations and documented laws,
--                 each with an instance (Channels is a second one of Channel)
--   Protocol      src/protocol/types.rs (Qos, PacketType, Types), decode.rs (Decode, with Readers and
--                 Packets), encode.rs (Encode); Wire describes the wire form without the code;
--                 Decode/Length, Decode/Total, Encode/Layout and RoundTrip hold the theorems
--   Broker        src/broker/subscriptions.rs (Subscriptions), src/broker/session.rs (Session),
--                 and of src/broker/mod.rs `is_valid_topic_filter` (Filter, with Valid) and the
--                 handlers (Handlers, whose children hold the theorems)
--   Server        `extract_packet` of src/server/tcp.rs (Extract), what a connection keeps and the arms
--                 of `handle_packet` (Connection), `handle_packet` (Tcp) and the loop of
--                 `handle_connection` (Tcp/Loop) of src/server/tcp.rs, `handle_ws_packet` (Ws) and the
--                 loop of `handle_ws` (Ws/Loop) of src/server/ws.rs, the program as a step relation
--                 over its connections (System), the way of a message through it (Delivery),
--                 handlers and TCP connections by their atomic actions (Atomic: Handlers, Packets,
--                 Loop; its other children hold the theorems), and src/main.rs with src/config.rs and
--                 both `start` (Start); their children hold the theorems
-- Functions keep the names they have in the source; a method takes the state it changes and
-- returns the new one. `&mut &[u8]` is the list of bytes that are left, returned with the result.
--
-- Bounds: a `u16` counter wraps by `% 65536` (`new_packet_id`), a length field is written by
-- `% 65536` (`put_u16`), shifts of a byte are written out. `usize` lengths of buffers in memory are
-- not wrapped. Fuel: the loops of `decode_subscribe` and `decode_unsubscribe` have as much as the
-- buffer has bytes, and each round takes two at least; `encode_remaining_length` recurs on the
-- accessibility of its number; the loop over the packets of a buffer has one more than the buffer has
-- bytes, and each packet takes two at least; all else is structural.
--
-- Concurrency: in System, each event of a connection, with all the packets that it handles, is one
-- step. In Atomic, a TCP connection is a sequence of actions, one for each use of a lock, an atomic
-- counter, a channel or the concurrent map, and the actions of different tasks follow one another in
-- any order; WebSocket connections are in System only. `sender_of` takes as an argument whether
-- another task holds the lock, with one answer for each event. An `Arc<Session>` is an address, so the
-- map of sessions and a connection share a session.
--
-- Not modelled: the sockets, the router and the upgrade to a WebSocket, which are calls of tokio
-- and axum; what they find (bytes, messages, errors, whether a write, a `bind` or an `accept` fails)
-- are the events of the model. Logging. The command line is read by clap: a configuration is given.
-- A server whose task panics.
pub mod Base
pub mod Error
pub mod Text
pub mod Extern
pub mod Protocol
pub mod Broker
pub mod Server
