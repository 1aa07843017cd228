-- ===== src/Broker/Session/Handshake.antt =====
-- The acknowledgements of a session (src/broker/session.rs) over the messages in flight.
use opencode_rustquitto.Base.{◌≡◌, true, none, some, arith}
use opencode_rustquitto.Extern.Channel.{Mpsc}
use opencode_rustquitto.Protocol.Qos.{exactly_once}
use opencode_rustquitto.Protocol.Types.{PublishPacket}
use opencode_rustquitto.Broker.Session.{
  Session, waiting_pubrec, waiting_pubcomp, lookup, new_packet_id, enqueue_publish, handle_pubrec,
  handle_pubcomp,
}
use opencode_rustquitto.Broker.Session.Pending.{
  lookup-remove, lookup-update, numbered, enqueue_publish_qos2,
}

-- The flow of a QoS 2 message: sent, it waits for PUBREC; after PUBREC it waits for PUBCOMP; after
-- PUBCOMP it is no longer in flight.
pub qos2_handshake :
    (M : Mpsc) (net : M.Network) (s : Session M.Sender) (p : PublishPacket)
    → p.qos ≡ exactly_once
    → M.is_open net s.sender ≡ true
    → let id = (new_packet_id s).0 in
      let sent = (enqueue_publish M net s p).1 in
      (lookup id sent.pending_qos2
        ≡ some (record { packet = numbered M s p; state = waiting_pubrec }))
      × (lookup id (handle_pubrec id sent).pending_qos2
          ≡ some (record { packet = numbered M s p; state = waiting_pubcomp }))
      × (lookup id (handle_pubcomp id (handle_pubrec id sent)).pending_qos2 ≡ none)
unfolding handle_pubrec handle_pubcomp
qos2_handshake M net s p q h =
    let id = (new_packet_id s).0 in
    let waiting = (enqueue_publish_qos2 M net s p q h).1 id in
    (
      rw waiting (ground arith),
      rw (lookup-update, waiting) (ground arith),
      rw lookup-remove (ground arith),
    )
