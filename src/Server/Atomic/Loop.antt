-- ===== src/Server/Atomic/Loop.antt =====
-- The loop of `handle_connection` of src/server/tcp.rs by its atomic actions: one event of its
-- `select!` at a time, and the events of a whole connection.
pub mod Agree
pub mod Safe
use opencode_rustquitto.Base.{
  ℕ, zero, suc, Bool, Option, none, some, List, [], ◌∷◌, ◌++◌, length, Bytes,
}
use opencode_rustquitto.Error.{Result, ok, err, BrokerError, io, stuck}
use opencode_rustquitto.Extern.Buffer.{BytesMut}
use opencode_rustquitto.Extern.Channel.{Mpsc}
use opencode_rustquitto.Extern.DashMap.{DashMap}
use opencode_rustquitto.Protocol.Types.{Packet}
use opencode_rustquitto.Protocol.Encode.{encode}
use opencode_rustquitto.Broker.Handlers.{Address}
use opencode_rustquitto.Server.Connection.{Connection, World, drop_rx, on_broker}
use opencode_rustquitto.Server.Extract.{extract_packet}
use opencode_rustquitto.Server.Tcp.Loop.{Event, received, read_failed, outgoing, Local}
use opencode_rustquitto.Server.Atomic.{Program, done, act, bind}
use opencode_rustquitto.Server.Atomic.Handlers.{Task, handle_disconnect}
use opencode_rustquitto.Server.Atomic.Packets.{with_session, handle_packet}

-- What is left when the buffer has no packet any more, or the error that ends the connection.
pub data Served (M : Mpsc) (Buffer : Type 0) : Type 0 where
  waiting : Buffer → Connection M → Served M Buffer
  failed : BrokerError → Served M Buffer

pub data Turned (M : Mpsc) (Buffer : Type 0) : Type 0 where
  running : Local M Buffer → Turned M Buffer
  returned : Result (Unit {0}) → Turned M Buffer

module _ (B : BytesMut) (M : Mpsc) (D : DashMap Address) (without_receiver : M.Sender) where
  open B use {Buffer, contents, put}

  -- What is behind the end of the loop.
  unfoldable pub close_connection : Connection M → Task M D (Unit {0})
  close_connection conn =
      bind (with_session M D (λ s. handle_disconnect M D s) conn.session)
        (λ u. act (drop_rx M D conn.out_rx) (λ w. done tt))

  -- The channel and the unwritten data go out of scope with an error.
  abbrev pub fails : BrokerError → Connection M → Task M D (Turned M Buffer)
  fails e conn = act (drop_rx M D conn.out_rx) (λ w. done (returned (err e)))

  module _ (locked : Bool) where
    abbrev pub on_handled :
        (Connection M → Task M D (Served M Buffer))
        → Result (Connection M × ℕ)
        → Task M D (Served M Buffer)
    on_handled rest (err e) = done (failed e)
    on_handled rest (ok (conn, keep_alive)) = rest conn

    abbrev pub on_extracted :
        (Buffer → Connection M → Task M D (Served M Buffer))
        → Option (Result Packet) × Buffer
        → Connection M
        → Task M D (Served M Buffer)
    on_extracted rest (none, buf) conn = done (waiting buf conn)
    on_extracted rest (some (err e), buf) conn =
        act (drop_rx M D conn.out_rx) (λ w. done (failed e))
    on_extracted rest (some (ok packet), buf) conn =
        bind (handle_packet M D locked without_receiver conn packet) (on_handled (rest buf))

    unfoldable pub serve_loop : ℕ → Buffer → Connection M → Task M D (Served M Buffer)
    serve_loop zero buf conn = done (failed stuck)
    serve_loop (suc fuel) buf conn =
        on_extracted (λ b c. serve_loop fuel b c) (extract_packet B buf) conn

    unfoldable pub serve : Buffer → Connection M → Task M D (Served M Buffer)
    serve buf conn = serve_loop (suc (length (contents buf))) buf conn

  abbrev pub on_served : Local M Buffer → Served M Buffer → Task M D (Turned M Buffer)
  on_served l (waiting buf conn) = done (running (record l { buf = buf; conn = conn }))
  on_served l (failed e) = done (returned (err e))

  abbrev pub on_written : Option ℕ → Bytes → Local M Buffer → Task M D (Turned M Buffer)
  on_written none bytes l = done (running (record l { written = l.written ++ (bytes ∷ []) }))
  on_written (some e) bytes l = fails (io e) l.conn

  abbrev pub on_encoded : Option ℕ → Result Buffer → Local M Buffer → Task M D (Turned M Buffer)
  on_encoded failure (err e) l = fails e l.conn
  on_encoded failure (ok out) l = on_written failure (contents out) l

  abbrev pub on_received : Option ℕ → Option Packet → Local M Buffer → Task M D (Turned M Buffer)
  on_received failure none l = done (running l)
  on_received failure (some packet) l = on_encoded failure (encode B packet) l

  -- The packet that was received leaves its channel.
  abbrev pub leaves : Option Packet × M.Network → World M D → World M D
  leaves (none, net) w = w
  leaves (some packet, net) w = on_broker M D (λ b. record b { net = net }) w

  abbrev pub on_channel : Option ℕ → Option M.Receiver → Local M Buffer → Task M D (Turned M Buffer)
  on_channel failure none l = done (running l)
  on_channel failure (some rx) l =
      act (λ w. leaves (M.recv w.broker.net rx) w)
        (λ w. on_received failure (M.recv w.broker.net rx).0 l)

  unfoldable pub connection_turn : Bool → Event → Local M Buffer → Task M D (Turned M Buffer)
  connection_turn locked (received []) l =
      bind (close_connection l.conn) (λ u. done (returned (ok tt)))
  connection_turn locked (received (x ∷ xs)) l =
      bind (serve locked (put l.buf (x ∷ xs)) l.conn) (on_served l)
  connection_turn locked (read_failed e) l = fails (io e) l.conn
  connection_turn locked (outgoing failure) l = on_channel failure l.conn.out_rx l

  abbrev pub on_turned :
      (Local M Buffer → Task M D (Turned M Buffer)) → Turned M Buffer → Task M D (Turned M Buffer)
  on_turned next (running l) = next l
  on_turned next (returned r) = done (returned r)

  -- The events that a connection finds, each with whether another task holds the lock of its session.
  unfoldable pub connection : List (Bool × Event) → Local M Buffer → Task M D (Turned M Buffer)
  connection [] l = done (running l)
  connection ((locked, event) ∷ events) l =
      bind (connection_turn locked event l) (on_turned (connection events))
