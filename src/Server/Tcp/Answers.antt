-- ===== src/Server/Tcp/Answers.antt =====
-- What `handle_packet` of src/server/tcp.rs answers, and what it refuses.
use opencode_rustquitto.Base.{
  ℕ, ◌≡◌, refl, ◌∙◌, ap, sym, Bool, true, false, none, some, [], ◌∷◌, ◌++◌, not, ===_refl,
}
use opencode_rustquitto.Error.{ok, err, protocol, server_received}
use opencode_rustquitto.Extern.Channel.{Mpsc}
use opencode_rustquitto.Extern.DashMap.{DashMap}
use opencode_rustquitto.Protocol.Types.{Packet, ConnectPacket, packet_type, ConnackReturnCode}
use opencode_rustquitto.Broker.Session.{Session, sender_of}
use opencode_rustquitto.Broker.Session
use opencode_rustquitto.Broker.Handlers.{
  Address, store, reply, get_session, register_session, handle_connect,
}
use opencode_rustquitto.Broker.Handlers.Acknowledging.{store_same}
use opencode_rustquitto.Server.Connection.{Connection, World, drop_rx, connect_session}
use opencode_rustquitto.Server.Tcp.{handle_packet}

-- The packets that only a server sends.
unfoldable pub from_server : Packet → Bool
from_server (Packet.connack p) = true
from_server (Packet.suback p) = true
from_server (Packet.unsuback i) = true
from_server Packet.pingresp = true
from_server _ = false

module _ (M : Mpsc) (D : DashMap Address) (locked : Bool) (without_receiver : M.Sender) where
  -- A packet that only a server sends is refused by its kind, which closes the channel of the
  -- connection and changes nothing else; any other packet is handled without an error.
  pub handle_packet_refuses :
      (conn : Connection M) (packet : Packet) (w : World M D)
      → let result = handle_packet M D locked without_receiver conn packet w in
        (from_server packet ≡ true
          → result
            ≡ (err (protocol (server_received (packet_type packet))), drop_rx M D conn.out_rx w))
        × (from_server packet ≡ false → (answer : Connection M × ℕ) × (result.0 ≡ ok answer))
  unfolding handle_packet from_server packet_type
  handle_packet_refuses conn (Packet.connack p) w = ((λ h. refl), λ h. absurd (cc))
  handle_packet_refuses conn (Packet.suback p) w = ((λ h. refl), λ h. absurd (cc))
  handle_packet_refuses conn (Packet.unsuback p) w = ((λ h. refl), λ h. absurd (cc))
  handle_packet_refuses conn Packet.pingresp w = ((λ h. refl), λ h. absurd (cc))
  handle_packet_refuses conn (Packet.connect p) w = ((λ h. absurd (cc)), λ h. (_, refl))
  handle_packet_refuses conn _ w = ((λ h. absurd (cc)), λ h. (_, refl))

-- A CONNECT on a new connection, with the sender of the new session free: the connection gets the session and the
-- channel, the session is found under the client's name and keeps whether it is clean and its
-- keep-alive, and the channel, which
-- is the session's, is open and holds CONNACK alone, accepting, with the session announced as
-- present exactly if the client did not ask for a clean one.
pub handle_packet_connect :
    (M : Mpsc) (D : DashMap Address) (without_receiver : M.Sender) (connect : ConnectPacket)
    (w : World M D)
    → let result =
        handle_packet M D false without_receiver
          (record { session = none; out_rx = none })
          (Packet.connect connect)
          w in
      let b = result.1.broker in
      let s = b.heap w.next_address in
      (rx : M.Receiver) × (result.0
        ≡ ok (record { session = some w.next_address; out_rx = some rx }, connect.keep_alive))
      × (get_session M D b connect.client_id ≡ some w.next_address)
      × (s.client_id ≡ connect.client_id)
      × (s.clean_session ≡ connect.clean_session)
      × (s.keep_alive ≡ connect.keep_alive)
      × (M.receiving rx ≡ M.channel s.sender)
      × (M.is_open b.net s.sender ≡ true)
      × (M.queue b.net s.sender
          ≡ Packet.connack (record {
            session_present = not connect.clean_session;
            return_code = ConnackReturnCode.accepted;
          })
            ∷ [])
unfolding handle_packet connect_session drop_rx reply handle_connect register_session get_session
    sender_of Session.new
handle_packet_connect M D without_receiver connect w =
    let a = w.next_address in
    let (tx, rx) = (M.unbounded_channel w.broker.net).0 in
    let net = (M.unbounded_channel w.broker.net).1 in
    let s = Session.new tx connect.client_id connect.clean_session connect.keep_alive in
    let stored : store a s w.broker.heap a ≡ s = store_same M D a s w.broker.heap in
    let greeting : Packet = Packet.connack (record {
      session_present = not connect.clean_session;
      return_code = ConnackReturnCode.accepted;
    }) in
    let opened = M.is_open-unbounded_channel w.broker.net in
    rw stored (
      rx,
      refl,
      D.get-insert w.broker.sessions connect.client_id connect.client_id a
          ∙ rw (===_refl connect.client_id),
      refl,
      refl,
      refl,
      sym (M.channel-unbounded_channel w.broker.net),
      M.is_open-send net tx tx _ ∙ opened,
      (M.send_open net tx _ opened).1
          ∙ ap (λ q. q ++ (greeting ∷ [])) (M.queue-unbounded_channel w.broker.net),
    )
