-- ===== src/Broker/Handlers/Acknowledging.antt =====
-- `handle_pubrec` and `handle_pubrel` of src/broker/mod.rs: the answers in a QoS 2 flow.
use opencode_rustquitto.Base.{◌≡◌, refl, ◌∙◌, ap, true, false, [], ◌∷◌, ◌++◌, ==_refl}
use mathlib.Core.Option
use opencode_rustquitto.Extern.Channel.{Mpsc}
use opencode_rustquitto.Extern.DashMap.{DashMap}
use opencode_rustquitto.Protocol.Types.{Packet, PacketId}
use opencode_rustquitto.Broker.Session.{Session, lookup, await_pubcomp, sender_of}
use opencode_rustquitto.Broker.Session
use opencode_rustquitto.Broker.Session.Pending.{lookup-update}
use opencode_rustquitto.Broker.Handlers.{
  Address, Broker, store, reply, handle_pubrec, handle_pubrel,
}

module _ (M : Mpsc) (D : DashMap Address) where
  open M use {Sender, queue, is_open}

  pub store_same :
      (r : Address) (s : Session Sender) (heap : Address → Session Sender) → store r s heap r ≡ s
  unfolding store
  store_same r s heap = rw (==_refl r) refl

  -- Over an open channel and with the sender free, a PUBREC moves its message, if it is in flight, on
  -- to waiting for PUBCOMP and is answered by PUBREL, and a PUBREL is answered by PUBCOMP; each
  -- answer has the identifier that it answers, and goes behind what is in the channel.
  pub handle_pubrec_lem :
      (without_receiver : Sender) (session : Address) (id : PacketId) (b : Broker M D)
      → is_open b.net (b.heap session).sender ≡ true
      → let sender = (b.heap session).sender in
        let received = handle_pubrec M D false without_receiver session id b in
        (lookup id (received.heap session).pending_qos2
          ≡ Option.map await_pubcomp (lookup id (b.heap session).pending_qos2))
        × (queue received.net sender ≡ queue b.net sender ++ (Packet.pubrel id ∷ []))
        × (queue (handle_pubrel M D false without_receiver session id b).net sender
            ≡ queue b.net sender ++ (Packet.pubcomp id ∷ []))
  unfolding handle_pubrec handle_pubrel reply sender_of Session.handle_pubrec
  handle_pubrec_lem without_receiver session id b h =
      let sender = (b.heap session).sender in
      let stored = store_same session (Session.handle_pubrec id (b.heap session)) b.heap in
      (
        ap (λ s. lookup id s.pending_qos2) stored
            ∙ lookup-update await_pubcomp id id (b.heap session).pending_qos2
            ∙ rw (==_refl id.raw) refl,
        ap (λ s. queue (M.send b.net s.sender (Packet.pubrel id)).0 sender) stored
            ∙ (M.send_open b.net sender (Packet.pubrel id) h).1,
        (M.send_open b.net sender (Packet.pubcomp id) h).1,
      )
