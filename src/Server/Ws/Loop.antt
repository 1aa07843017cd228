-- ===== src/Server/Ws/Loop.antt =====
-- `handle_ws` of src/server/ws.rs: the loop of a WebSocket connection, one event of its `select!` at a
-- time. Every way out of the loop leads to the same end.
use opencode_rustquitto.Base.{Bool, true, false, Option, none, some, List, [], ◌∷◌, ◌++◌, Bytes}
use opencode_rustquitto.Error.{Result, ok, err}
use opencode_rustquitto.Extern.Buffer.{BytesMut}
use opencode_rustquitto.Extern.Channel.{Mpsc}
use opencode_rustquitto.Extern.DashMap.{DashMap}
use opencode_rustquitto.Protocol.Types.{Packet}
use opencode_rustquitto.Protocol.Encode.{encode}
use opencode_rustquitto.Broker.Handlers.{Address}
use opencode_rustquitto.Server.Connection.{Connection, World, on_broker, close_connection}
use opencode_rustquitto.Server.Extract.{packet_of}
use opencode_rustquitto.Server.Ws.{handle_ws_packet}

-- The messages of axum's WebSocket that the loop tells apart.
pub data Message : Type 0 where
  binary ping pong : Bytes → Message
  close other : Message

-- What a branch of the `select!` has found: a message, with whether a reply to it can be sent; the end
-- of the stream; an error; or a turn of the channel, with whether its packet can be sent.
pub data WsEvent : Type 0 where
  message : Message → Bool → WsEvent
  ended broken : WsEvent
  outgoing : Bool → WsEvent

-- The local variables, and what was sent to the socket, oldest first.
pub record WsLocal (M : Mpsc) : Type 0 where
  pub conn : Connection M
  pub sent : List Message

pub data WsStatus (M : Mpsc) (D : DashMap Address) : Type 0 where
  running : WsLocal M → World M D → WsStatus M D
  closed : World M D → WsStatus M D

module _ (B : BytesMut) (M : Mpsc) (D : DashMap Address) (locked : Bool)
    (without_receiver : M.Sender) where
  open B use {Buffer, contents}

  -- `break`
  abbrev pub leave : Connection M → World M D → WsStatus M D
  leave conn w = closed (close_connection M D conn w)

  -- The `match` on the result of `handle_ws_packet`: the channel was taken out of its variable, the
  -- session was cloned.
  abbrev pub on_handled : WsLocal M → Result (Connection M) × World M D → WsStatus M D
  on_handled l (ok conn, w) = running (record l { conn = conn }) w
  on_handled l (err e, w) = leave (record l.conn { out_rx = none }) w

  abbrev pub on_decoded : Result Packet → WsLocal M → World M D → WsStatus M D
  on_decoded (err e) l w = leave l.conn w
  on_decoded (ok packet) l w =
      on_handled l (handle_ws_packet M D locked without_receiver l.conn packet w)

  -- `sender.send(message)`
  abbrev pub on_sent : Bool → Message → WsLocal M → World M D → WsStatus M D
  on_sent true m l w = running (record l { sent = l.sent ++ (m ∷ []) }) w
  on_sent false m l w = leave l.conn w

  abbrev pub on_message : Message → Bool → WsLocal M → World M D → WsStatus M D
  on_message (binary data_bytes) sendable l w = on_decoded (packet_of data_bytes) l w
  on_message close sendable l w = leave l.conn w
  on_message (ping data_bytes) sendable l w = on_sent sendable (pong data_bytes) l w
  on_message (pong data_bytes) sendable l w = running l w
  on_message other sendable l w = running l w

  -- A packet that cannot be encoded is passed over.
  abbrev pub on_encoded : Bool → Result Buffer → WsLocal M → World M D → WsStatus M D
  on_encoded sendable (err e) l w = running l w
  on_encoded sendable (ok out) l w = on_sent sendable (binary (contents out)) l w

  abbrev pub on_received : Bool → Option Packet × M.Network → WsLocal M → World M D → WsStatus M D
  on_received sendable (none, net) l w = running l w
  on_received sendable (some packet, net) l w =
      on_encoded sendable (encode B packet) l (on_broker M D (λ b. record b { net = net }) w)

  -- `recv_from_ws_session`, which waits for ever without a channel.
  abbrev pub on_channel : Bool → Option M.Receiver → WsLocal M → World M D → WsStatus M D
  on_channel sendable none l w = running l w
  on_channel sendable (some rx) l w = on_received sendable (M.recv w.broker.net rx) l w

  unfoldable pub ws_step : WsEvent → WsLocal M → World M D → WsStatus M D
  ws_step (message m sendable) l w = on_message m sendable l w
  ws_step ended l w = leave l.conn w
  ws_step broken l w = leave l.conn w
  ws_step (outgoing sendable) l w = on_channel sendable l.conn.out_rx l w
