-- ===== src/Server/Ws/Invariant.antt =====
-- What a step of a WebSocket connection of src/server/ws.rs keeps.
use opencode_rustquitto.Base.{ℕ, sym, subst, Bool, true, false, Option, none, some}
use opencode_rustquitto.Error.{Result, ok, err}
use opencode_rustquitto.Extern.Buffer.{BytesMut}
use opencode_rustquitto.Extern.Channel.{Mpsc}
use opencode_rustquitto.Extern.DashMap.{DashMap}
use opencode_rustquitto.Protocol.Types.{Packet}
use opencode_rustquitto.Protocol.Encode.{encode}
use opencode_rustquitto.Broker.Handlers.{Address}
use opencode_rustquitto.Broker.Handlers.Invariant.{Keeps-net}
use opencode_rustquitto.Server.Connection.{Connection, World, on_broker, close_connection}
use opencode_rustquitto.Server.Connection.Invariant.{
  IsConnection, IsConnection-Grows, Grows, Grows-refl, Grows-trans, Grows-Keeps,
  close_connection-Grows,
}
use opencode_rustquitto.Server.Extract.{packet_of}
use opencode_rustquitto.Server.Tcp.{handle_packet}
use opencode_rustquitto.Server.Tcp.Invariant.{Returns, handle_packet-Returns}
use opencode_rustquitto.Server.Ws.Agree.{without_keep_alive, handle_ws_packet_lem}
use opencode_rustquitto.Server.Ws.Loop.{
  Message, binary, ping, pong, close, other, WsEvent, message, ended, broken, outgoing, WsLocal,
  WsStatus, running, closed, on_handled, on_decoded, on_sent, on_message, on_encoded, on_received,
  on_channel, ws_step,
}

module _ (M : Mpsc) (D : DashMap Address) (locked : Bool) (without_receiver : M.Sender) where
  -- What a status says of the world and the connection.
  abbrev pub WsReturns : Connection M → World M D → WsStatus M D → Type 0
  WsReturns conn w (running l v) =
      Grows M D w v × (IsConnection M D conn w → IsConnection M D l.conn v)
  WsReturns conn w (closed v) = Grows M D w v

  module _ (B : BytesMut) (l : WsLocal M) (w : World M D) where
    unchanged : WsReturns l.conn w (running l w)
    unchanged = (Grows-refl M D w, λ h. h)

    on_sent-WsReturns :
        (sendable : Bool) (m : Message) (u : World M D)
        → Grows M D w u
        → WsReturns l.conn w (on_sent B M D locked without_receiver sendable m l u)
    on_sent-WsReturns true m u g = (g, IsConnection-Grows M D l.conn w u g)
    on_sent-WsReturns false m u g =
        Grows-trans M D w u (close_connection M D l.conn u) g (close_connection-Grows M D l.conn u)

    handled :
        (r : Result (Connection M × ℕ) × World M D)
        → Returns M D locked without_receiver l.conn w r
        → WsReturns l.conn w
            (on_handled B M D locked without_receiver l (without_keep_alive r.0, r.1))
    handled (err e, v) g =
        Grows-trans M D w v (close_connection M D (record l.conn { out_rx = none }) v) g
          (close_connection-Grows M D (record l.conn { out_rx = none }) v)
    handled (ok (conn, k), v) g = g

    on_decoded-WsReturns :
        (r : Result Packet) → WsReturns l.conn w (on_decoded B M D locked without_receiver r l w)
    on_decoded-WsReturns (err e) = close_connection-Grows M D l.conn w
    on_decoded-WsReturns (ok p) =
        subst (λ r. WsReturns l.conn w (on_handled B M D locked without_receiver l r))
          (sym (handle_ws_packet_lem M D locked without_receiver l.conn p w))
          (handled (handle_packet M D locked without_receiver l.conn p w)
            (handle_packet-Returns M D locked without_receiver l.conn p w))

    on_message-WsReturns :
        (m : Message) (sendable : Bool)
        → WsReturns l.conn w (on_message B M D locked without_receiver m sendable l w)
    on_message-WsReturns (binary c) sendable = on_decoded-WsReturns (packet_of c)
    on_message-WsReturns close sendable = close_connection-Grows M D l.conn w
    on_message-WsReturns (ping c) sendable =
        on_sent-WsReturns sendable (pong c) w (Grows-refl M D w)
    on_message-WsReturns (pong c) sendable = unchanged
    on_message-WsReturns other sendable = unchanged

    on_encoded-WsReturns :
        (sendable : Bool) (r : Result B.Buffer) (u : World M D)
        → Grows M D w u
        → WsReturns l.conn w (on_encoded B M D locked without_receiver sendable r l u)
    on_encoded-WsReturns sendable (err e) u g = (g, IsConnection-Grows M D l.conn w u g)
    on_encoded-WsReturns sendable (ok out) u g =
        on_sent-WsReturns sendable (binary (B.contents out)) u g

    on_received-WsReturns :
        (sendable : Bool) (r : Option Packet × M.Network)
        → WsReturns l.conn w (on_received B M D locked without_receiver sendable r l w)
    on_received-WsReturns sendable (none, net) = unchanged
    on_received-WsReturns sendable (some p, net) =
        on_encoded-WsReturns sendable (encode B p) (on_broker M D (λ b. record b { net = net }) w) (
          Grows-Keeps M D w (record w.broker { net = net })
            (Keeps-net M D w.next_address net w.broker))

    on_channel-WsReturns :
        (sendable : Bool) (rx : Option M.Receiver)
        → WsReturns l.conn w (on_channel B M D locked without_receiver sendable rx l w)
    on_channel-WsReturns sendable none = unchanged
    on_channel-WsReturns sendable (some rx) =
        on_received-WsReturns sendable (M.recv w.broker.net rx)

    pub ws_step-WsReturns :
        (event : WsEvent) → WsReturns l.conn w (ws_step B M D locked without_receiver event l w)
    unfolding ws_step
    ws_step-WsReturns (message m sendable) = on_message-WsReturns m sendable
    ws_step-WsReturns ended = close_connection-Grows M D l.conn w
    ws_step-WsReturns broken = close_connection-Grows M D l.conn w
    ws_step-WsReturns (outgoing sendable) = on_channel-WsReturns sendable l.conn.out_rx
