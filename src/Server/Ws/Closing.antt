-- ===== src/Server/Ws/Closing.antt =====
-- How a WebSocket connection of src/server/ws.rs ends.
use opencode_rustquitto.Base.{◌≡◌, refl, ap, subst, Bool, true, false, Option, none, some}
use opencode_rustquitto.Error.{Result, ok, err, BrokerError}
use opencode_rustquitto.Extern.Buffer.{BytesMut}
use opencode_rustquitto.Extern.Channel.{Mpsc}
use opencode_rustquitto.Extern.DashMap.{DashMap}
use opencode_rustquitto.Protocol.Types.{Packet}
use opencode_rustquitto.Protocol.Encode.{encode}
use opencode_rustquitto.Broker.Handlers.{Address}
use opencode_rustquitto.Server.Connection.{Connection, World, drop_rx, on_broker}
use opencode_rustquitto.Server.Connection.Closing.{
  Forgets, SameBut, SameBut-refl, drop_rx-SameBut, close_connection-Forgets,
}
use opencode_rustquitto.Server.Extract.{packet_of}
use opencode_rustquitto.Server.Ws.{handle_ws_packet}
use opencode_rustquitto.Server.Ws.Loop.{
  Message, binary, ping, pong, close, other, WsEvent, message, ended, broken, outgoing, WsLocal,
  WsStatus, closed, leave, on_handled, on_decoded, on_sent, on_message, on_encoded, on_received,
  on_channel, ws_step,
}

module _ (M : Mpsc) (D : DashMap Address) (locked : Bool) (without_receiver : M.Sender) where
  dropped_same :
      (conn : Connection M) (w v : World M D) (e x : BrokerError)
      → ◌≡◌ {A = Result (Connection M) × World M D} (err e, drop_rx M D conn.out_rx w) (err x, v)
      → SameBut M D w v
  dropped_same conn w v e x h =
      subst (λ u. SameBut M D w u) (ap (λ (r : Result (Connection M) × World M D). r.1) h)
        (drop_rx-SameBut M D conn.out_rx w)

  -- A packet that is refused changes no more than the channels.
  refused_same :
      (conn : Connection M) (p : Packet) (w : World M D) (e : BrokerError) (v : World M D)
      → handle_ws_packet M D locked without_receiver conn p w ≡ (err e, v)
      → SameBut M D w v
  unfolding handle_ws_packet
  refused_same conn (Packet.connack p) w e v h = dropped_same conn w v _ e h
  refused_same conn (Packet.suback p) w e v h = dropped_same conn w v _ e h
  refused_same conn (Packet.unsuback p) w e v h = dropped_same conn w v _ e h
  refused_same conn Packet.pingresp w e v h = dropped_same conn w v _ e h
  refused_same conn _ w e v h = absurd (cc)

  module _ (B : BytesMut) (a : Address) (l : WsLocal M) (has : l.conn.session ≡ some a)
      (w v : World M D) where
    left :
        (conn : Connection M) (u : World M D)
        → conn.session ≡ some a
        → SameBut M D w u
        → ◌≡◌ {A = WsStatus M D} (leave B M D locked without_receiver conn u) (closed v)
        → Forgets M D a w v
    left conn u s same h =
        subst (λ x. Forgets M D a w x) (cc) (close_connection-Forgets M D conn a w u s same)

    sent_closed :
        (sendable : Bool) (m : Message) (u : World M D)
        → SameBut M D w u
        → on_sent B M D locked without_receiver sendable m l u ≡ closed v
        → Forgets M D a w v
    sent_closed true m u same h = absurd (cc)
    sent_closed false m u same h = left l.conn u has same h

    handled_closed :
        (r : Result (Connection M) × World M D)
        → ((e : BrokerError) (u : World M D) → r ≡ (err e, u) → SameBut M D w u)
        → on_handled B M D locked without_receiver l r ≡ closed v
        → Forgets M D a w v
    handled_closed (ok conn, u) same h = absurd (cc)
    handled_closed (err e, u) same h =
        left (record l.conn { out_rx = none }) u has (same e u refl) h

    decoded_closed :
        (r : Result Packet)
        → on_decoded B M D locked without_receiver r l w ≡ closed v
        → Forgets M D a w v
    decoded_closed (err e) h = left l.conn w has (SameBut-refl M D w) h
    decoded_closed (ok p) h =
        handled_closed (handle_ws_packet M D locked without_receiver l.conn p w)
          (λ e u g. refused_same l.conn p w e u g) h

    message_closed :
        (m : Message) (sendable : Bool)
        → on_message B M D locked without_receiver m sendable l w ≡ closed v
        → Forgets M D a w v
    message_closed (binary c) sendable h = decoded_closed (packet_of c) h
    message_closed close sendable h = left l.conn w has (SameBut-refl M D w) h
    message_closed (ping c) sendable h = sent_closed sendable (pong c) w (SameBut-refl M D w) h
    message_closed (pong c) sendable h = absurd (cc)
    message_closed other sendable h = absurd (cc)

    encoded_closed :
        (sendable : Bool) (r : Result B.Buffer) (u : World M D)
        → SameBut M D w u
        → on_encoded B M D locked without_receiver sendable r l u ≡ closed v
        → Forgets M D a w v
    encoded_closed sendable (err e) u same h = absurd (cc)
    encoded_closed sendable (ok out) u same h =
        sent_closed sendable (binary (B.contents out)) u same h

    received_closed :
        (sendable : Bool) (r : Option Packet × M.Network)
        → on_received B M D locked without_receiver sendable r l w ≡ closed v
        → Forgets M D a w v
    received_closed sendable (none, net) h = absurd (cc)
    received_closed sendable (some p, net) h =
        encoded_closed sendable (encode B p) (on_broker M D (λ b. record b { net = net }) w)
          (record { sessions = refl; subscriptions = refl; heap = refl; next_address = refl }) h

    channel_closed :
        (sendable : Bool) (rx : Option M.Receiver)
        → on_channel B M D locked without_receiver sendable rx l w ≡ closed v
        → Forgets M D a w v
    channel_closed sendable none h = absurd (cc)
    channel_closed sendable (some rx) h = received_closed sendable (M.recv w.broker.net rx) h

  -- However a WebSocket connection with a session ends, also by an error of its packets or of the
  -- socket, its client is forgotten: no session is found under its name, the others are found as
  -- before, and the tree keeps exactly the subscriptions of other clients.
  pub ws_step_closed :
      (B : BytesMut) (event : WsEvent) (a : Address) (l : WsLocal M) (w v : World M D)
      → l.conn.session ≡ some a
      → ws_step B M D locked without_receiver event l w ≡ closed v
      → Forgets M D a w v
  unfolding ws_step
  ws_step_closed B (message m sendable) a l w v has h = message_closed B a l has w v m sendable h
  ws_step_closed B ended a l w v has h = left B a l has w v l.conn w has (SameBut-refl M D w) h
  ws_step_closed B broken a l w v has h = left B a l has w v l.conn w has (SameBut-refl M D w) h
  ws_step_closed B (outgoing sendable) a l w v has h =
      channel_closed B a l has w v sendable l.conn.out_rx h
