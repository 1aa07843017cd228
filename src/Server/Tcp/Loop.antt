-- ===== src/Server/Tcp/Loop.antt =====
-- `handle_connection` of src/server/tcp.rs: the loop of a TCP connection, one event of its `select!` at
-- a time. When a function returns early, what it holds goes out of scope.
pub mod Fuel
pub mod Chunks
pub mod Ends
pub mod Drains
pub mod Failing
pub mod Closing
use opencode_rustquitto.Base.{
  ℕ, zero, suc, Bool, Option, none, some, List, [], ◌∷◌, ◌++◌, length, Bytes,
}
use opencode_rustquitto.Error.{Result, ok, err, BrokerError, io, stuck}
use opencode_rustquitto.Extern.Buffer.{BytesMut}
use opencode_rustquitto.Extern.Channel.{Mpsc}
use opencode_rustquitto.Extern.DashMap.{DashMap}
use opencode_rustquitto.Protocol.Types.{Packet}
use opencode_rustquitto.Protocol.Encode.{encode}
use opencode_rustquitto.Broker.Handlers.{Address}
use opencode_rustquitto.Server.Connection.{Connection, World, drop_rx, on_broker, close_connection}
use opencode_rustquitto.Server.Extract.{extract_packet}
use opencode_rustquitto.Server.Tcp.{handle_packet}

-- What a branch of the `select!` has found: bytes that were read, none at the end of the stream; an
-- error of the read, by its code; or a turn of the channel, with the error of the write if it fails.
pub data Event : Type 0 where
  received : Bytes → Event
  read_failed : ℕ → Event
  outgoing : Option ℕ → Event

-- `handle_packet` is called until the buffer has no packet: what is left, or the error that ends the
-- connection.
pub data Served (M : Mpsc) (D : DashMap Address) (Buffer : Type 0) : Type 0 where
  waiting : Buffer → Connection M → World M D → Served M D Buffer
  failed : BrokerError → World M D → Served M D Buffer

-- The local variables, and what was written to the socket, oldest first.
pub record Local (M : Mpsc) (Buffer : Type 0) : Type 0 where
  pub buf : Buffer
  pub conn : Connection M
  pub written : List Bytes

pub data Status (M : Mpsc) (D : DashMap Address) (Buffer : Type 0) : Type 0 where
  running : Local M Buffer → World M D → Status M D Buffer
  returned : Result (Unit {0}) → World M D → Status M D Buffer

module _ (B : BytesMut) (M : Mpsc) (D : DashMap Address) (locked : Bool)
    (without_receiver : M.Sender) where
  open B use {Buffer, contents, put}

  -- The `match packet_result`, with the next round of the loop as `rest`.
  abbrev pub on_handled :
      (Connection M → World M D → Served M D Buffer)
      → Result (Connection M × ℕ) × World M D
      → Served M D Buffer
  on_handled rest (err e, w) = failed e w
  on_handled rest (ok (conn, keep_alive), w) = rest conn w

  abbrev pub on_extracted :
      (Buffer → Connection M → World M D → Served M D Buffer)
      → Option (Result Packet) × Buffer
      → Connection M
      → World M D
      → Served M D Buffer
  on_extracted rest (none, buf) conn w = waiting buf conn w
  on_extracted rest (some (err e), buf) conn w = failed e (drop_rx M D conn.out_rx w)
  on_extracted rest (some (ok packet), buf) conn w =
      on_handled (rest buf) (handle_packet M D locked without_receiver conn packet w)

  -- `while let Some(packet_result) = extract_packet(&mut buf)`
  unfoldable pub serve_loop : ℕ → Buffer → Connection M → World M D → Served M D Buffer
  serve_loop zero buf conn w = failed stuck w
  serve_loop (suc fuel) buf conn w =
      on_extracted (λ b c v. serve_loop fuel b c v) (extract_packet B buf) conn w

  -- Every packet takes two bytes at least.
  unfoldable pub serve : Buffer → Connection M → World M D → Served M D Buffer
  serve buf conn w = serve_loop (suc (length (contents buf))) buf conn w

  abbrev pub on_served : Local M Buffer → Served M D Buffer → Status M D Buffer
  on_served l (waiting buf conn w) = running (record l { buf = buf; conn = conn }) w
  on_served l (failed e w) = returned (err e) w

  -- `writer.write_all(&data)`
  abbrev pub on_written : Option ℕ → Bytes → Local M Buffer → World M D → Status M D Buffer
  on_written none bytes l w = running (record l { written = l.written ++ (bytes ∷ []) }) w
  on_written (some e) bytes l w = returned (err (io e)) (drop_rx M D l.conn.out_rx w)

  abbrev pub on_encoded : Option ℕ → Result Buffer → Local M Buffer → World M D → Status M D Buffer
  on_encoded failure (err e) l w = returned (err e) (drop_rx M D l.conn.out_rx w)
  on_encoded failure (ok out) l w = on_written failure (contents out) l w

  abbrev pub on_received :
      Option ℕ → Option Packet × M.Network → Local M Buffer → World M D → Status M D Buffer
  on_received failure (none, net) l w = running l w
  on_received failure (some packet, net) l w =
      on_encoded failure (encode B packet) l (on_broker M D (λ b. record b { net = net }) w)

  -- `recv_from_session`, which waits for ever without a channel.
  abbrev pub on_channel :
      Option ℕ → Option M.Receiver → Local M Buffer → World M D → Status M D Buffer
  on_channel failure none l w = running l w
  on_channel failure (some rx) l w = on_received failure (M.recv w.broker.net rx) l w

  unfoldable pub connection_step : Event → Local M Buffer → World M D → Status M D Buffer
  connection_step (received []) l w = returned (ok tt) (close_connection M D l.conn w)
  connection_step (received (x ∷ xs)) l w = on_served l (serve (put l.buf (x ∷ xs)) l.conn w)
  connection_step (read_failed e) l w = returned (err (io e)) (drop_rx M D l.conn.out_rx w)
  connection_step (outgoing failure) l w = on_channel failure l.conn.out_rx l w
