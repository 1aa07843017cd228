-- ===== src/Server/Atomic/Races.antt =====
-- `enqueue_publish` of src/broker/session.rs sends a message before it enters it among the pending ones:
-- what an acknowledgement between the two does.
mod Tests
use opencode_rustquitto.Base.{
  ℕ, ◌≡◌, ◌∙◌, ap, refl, true, false, Option, none, some, List, [], ◌∷◌, ◌==◌, ==_refl,
  if◌then◌else◌, arith,
}
use opencode_rustquitto.Extern.Channel.{Mpsc}
use opencode_rustquitto.Extern.DashMap.{DashMap}
use opencode_rustquitto.Protocol.Qos.{at_least_once}
use opencode_rustquitto.Protocol.Types.{Packet, PacketId, PublishPacket}
use opencode_rustquitto.Broker.Session.{Session, PendingQos1, lookup, insert, remove, remember}
use opencode_rustquitto.Broker.Session
use opencode_rustquitto.Broker.Session.Pending.{lookup-insert, lookup-remove}
use opencode_rustquitto.Broker.Handlers.{Address, store}
use opencode_rustquitto.Broker.Handlers.Acknowledging.{store_same}
use opencode_rustquitto.Server.Connection.{World, on_broker}
use opencode_rustquitto.Server.Atomic.{Program, done, act, bind, change, look}
use opencode_rustquitto.Server.Atomic.Handlers.{
  Task, on_session, sends, send_with_id, handle_puback,
}
use opencode_rustquitto.Server.Atomic.Safe.{interleave}
use opencode_rustquitto.Server.System.{place}

module _ (M : Mpsc) (D : DashMap Address) where
  -- Task 0 sends a message behind its new identifier, task 1 handles the client's acknowledgement.
  abbrev pub acknowledged_send : Address → PublishPacket → PacketId → ℕ → Task M D (Unit {0})
  acknowledged_send r packet id =
      place 1 (handle_puback M D r id) (λ i. send_with_id M D r packet id)

  -- The message in flight with an identifier, at QoS 1.
  abbrev pub in_flight : Address → PacketId → World M D → Option PendingQos1
  in_flight r id w = lookup id (w.broker.heap r).pending_qos1

  in_flight-on_session :
      (r : Address) (id : PacketId) (f : Session M.Sender → Session M.Sender) (w : World M D)
      → in_flight r id (on_session M D r f w) ≡ lookup id (f (w.broker.heap r)).pending_qos1
  in_flight-on_session r id f w =
      ap (λ s. lookup id s.pending_qos1) (store_same M D r (f (w.broker.heap r)) w.broker.heap)

  -- Over an open channel, a message is sent at QoS 1. If the client's PUBACK is handled after the
  -- message has been entered among the pending ones, it is not in flight any more; if it is handled
  -- between the send and the entry, the message stays in flight.
  puback_race :
      (r : Address) (packet : PublishPacket) (id : PacketId) (w : World M D)
      → packet.qos ≡ at_least_once
      → M.is_open w.broker.net (w.broker.heap r).sender ≡ true
      → let tasks = acknowledged_send r packet id in
        (in_flight r id (interleave M D (0 ∷ 0 ∷ 1 ∷ []) tasks w).1 ≡ none)
        × (in_flight r id (interleave M D (0 ∷ 1 ∷ 0 ∷ []) tasks w).1
            ≡ some (record { packet = record packet { packet_id = some id } }))
  unfolding interleave place send_with_id handle_puback Session.handle_puback remember
  puback_race r packet id w q h =
      let p : PublishPacket = record packet { packet_id = some id } in
      let sender = (w.broker.heap r).sender in
      let sent = (M.send_open w.broker.net sender (Packet.publish p) h).0 in
      let v = sends M D sender (Packet.publish p) w in
      let entered = λ (s : Session M.Sender). remember packet.qos id p s in
      let removed = λ (s : Session M.Sender). Session.handle_puback id s in
      (
        rw sent (
            in_flight-on_session r id removed (on_session M D r entered v)
            ∙ lookup-remove id id ((on_session M D r entered v).broker.heap r).pending_qos1
            ∙ rw (==_refl id.raw) refl),
        rw sent (
            in_flight-on_session r id entered (on_session M D r removed v)
            ∙ ap
                (λ l.
                  lookup id
                    (remember l id p ((on_session M D r removed v).broker.heap r)).pending_qos1)
                q
            ∙ lookup-insert id id (record { packet = p })
                ((on_session M D r removed v).broker.heap r).pending_qos1
            ∙ rw (==_refl id.raw) refl),
      )
