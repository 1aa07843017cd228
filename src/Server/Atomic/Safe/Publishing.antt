-- ===== src/Server/Atomic/Safe/Publishing.antt =====
-- The atomic actions that publish a message (src/broker/mod.rs, src/broker/session.rs) keep the
-- invariant.
use opencode_rustquitto.Base.{
  ℕ, ◌+◌, ◌%◌, ◌<◌, refl, true, false, Option, none, some, List, [], ◌∷◌, ◌==◌, if◌then◌else◌,
  arith,
}
use opencode_rustquitto.Extern.Channel.{Mpsc}
use opencode_rustquitto.Extern.DashMap.{DashMap}
use opencode_rustquitto.Protocol.Qos.{Qos, at_most_once, at_least_once, exactly_once, min_qos}
use opencode_rustquitto.Protocol.Qos
use opencode_rustquitto.Protocol.Types.{Packet, PacketId, PublishPacket}
use opencode_rustquitto.Broker.Subscriptions.{Subscriber, matches}
use opencode_rustquitto.Broker.Session.{Session, remember}
use opencode_rustquitto.Broker.Session.Invariant.{KeepsSession, remember-KeepsSession}
use opencode_rustquitto.Broker.Handlers.{Address, Broker, get_session}
use opencode_rustquitto.Broker.Handlers.Invariant.{Keeps, Keeps-net, Keeps-store}
use opencode_rustquitto.Server.Connection.{World, on_broker}
use opencode_rustquitto.Server.Connection.Invariant.{Grows, Grows-refl, Grows-Keeps}
use opencode_rustquitto.Server.Atomic.{done, act, change, look}
use opencode_rustquitto.Server.Atomic.Handlers.{
  count_up, restart, on_session, sends, new_packet_id, send_with_id, enqueue_by, enqueue_publish,
  enqueue_to, publish_to, publish_to_all, handle_publish,
}
use opencode_rustquitto.Server.Atomic.Safe.{Safe, Safe-bind, Safe-change, Any}

module _ (M : Mpsc) (D : DashMap Address) where
  pub on_session-Grows :
      (r : Address) (f : Session M.Sender → Session M.Sender) (w : World M D)
      → ((s : Session M.Sender) → KeepsSession s (f s))
      → Grows M D w (on_session M D r f w)
  on_session-Grows r f w k =
      let s = f (w.broker.heap r) in
      Grows-Keeps M D w (on_session M D r f w).broker
        (Keeps-store M D w.next_address r s w.broker (k (w.broker.heap r)))

  sends-Grows : (tx : M.Sender) (p : Packet) (w : World M D) → Grows M D w (sends M D tx p w)
  sends-Grows tx p w =
      Grows-Keeps M D w (sends M D tx p w).broker
        (Keeps-net M D w.next_address (M.send w.broker.net tx p).0 w.broker)

  pub on_broker-Grows :
      (f : Broker M D → Broker M D) (w : World M D)
      → ((n : Address) (b : Broker M D) → Keeps M D n b (f b))
      → Grows M D w (on_broker M D f w)
  on_broker-Grows f w k = Grows-Keeps M D w (f w.broker) (k w.next_address w.broker)

  -- An identifier that was handed out, by either branch.
  counted-KeepsSession :
      {S : Type 0} (s : Session S) (c : ℕ)
      → c < 65536
      → KeepsSession s (record s { next_packet_id = c })
  counted-KeepsSession s c small = record {
    client_id = refl;
    kept = λ h. record { counted = small; qos1 = h.qos1; qos2 = h.qos2 };
  }

  Safe-new_packet_id : (n : ℕ) (r : Address) → Safe M D Any n (new_packet_id M D r)
  unfolding new_packet_id
  Safe-new_packet_id n r = λ w h le.
      let id = (w.broker.heap r).next_packet_id in
      (
        on_session-Grows r count_up w
            (λ s. counted-KeepsSession s ((s.next_packet_id + 1) % 65536) (omega arith)),
        elim (id == 0)
            as (λ c. Safe M D {A = PacketId} Any w.next_address (
              if c
              then act (on_session M D r restart) (λ v. done (record { raw = 1 }))
              else done (record { raw = id }))) [
                | true ↦ λ v g lv.
                    (on_session-Grows r restart v (λ s. counted-KeepsSession s 1 (omega arith)), tt)
                | false ↦ tt
              ],
      )

  Safe-send_with_id :
      (n : ℕ) (r : Address) (packet : PublishPacket) (id : PacketId)
      → Safe M D Any n (send_with_id M D r packet id)
  unfolding send_with_id
  Safe-send_with_id n r packet id = λ w h le.
      let p : PublishPacket = record packet { packet_id = some id } in
      let keep : Session M.Sender → Session M.Sender = λ s. remember packet.qos id p s in
      (
        sends-Grows (w.broker.heap r).sender (Packet.publish p) w,
        elim (M.send w.broker.net (w.broker.heap r).sender (Packet.publish p)).1
            as (λ c.
              Safe M D Any w.next_address (if c then change (on_session M D r keep) else done tt)) [
                | true ↦ Safe-change M D w.next_address (on_session M D r keep) (λ v lv.
                    on_session-Grows r keep v
                      (λ s. remember-KeepsSession packet.qos id p s refl refl))
                | false ↦ tt
              ],
      )

  Safe-enqueue_by :
      (n : ℕ) (q : Qos) (r : Address) (packet : PublishPacket)
      → Safe M D Any n (enqueue_by M D q r packet)
  unfolding enqueue_by
  Safe-enqueue_by n at_most_once r packet =
      Safe-change M D n (λ w. sends M D (w.broker.heap r).sender (Packet.publish packet) w)
        (λ w le. sends-Grows (w.broker.heap r).sender (Packet.publish packet) w)
  Safe-enqueue_by n at_least_once r packet =
      Safe-bind M D Any Any n (new_packet_id M D r) (λ id. send_with_id M D r packet id)
        (Safe-new_packet_id n r) (λ m id le q. Safe-send_with_id m r packet id)
  Safe-enqueue_by n exactly_once r packet =
      Safe-bind M D Any Any n (new_packet_id M D r) (λ id. send_with_id M D r packet id)
        (Safe-new_packet_id n r) (λ m id le q. Safe-send_with_id m r packet id)

  Safe-enqueue_to :
      (n : ℕ) (o : Option Address) (packet : PublishPacket)
      → Safe M D Any n (enqueue_to M D o packet)
  unfolding enqueue_to enqueue_publish
  Safe-enqueue_to n none packet = tt
  Safe-enqueue_to n (some r) packet = Safe-enqueue_by n packet.qos r packet

  Safe-publish_to :
      (n : ℕ) (packet : PublishPacket) (s : Subscriber M.Sender)
      → Safe M D Any n (publish_to M D packet s)
  unfolding publish_to
  Safe-publish_to n packet s =
      let q = min_qos packet.qos s.qos in
      let p : PublishPacket = record packet { qos = q } in
      elim (Qos.eq q at_most_once)
        as (λ c. Safe M D Any n (
          if c
          then change (sends M D s.sender (Packet.publish p))
          else look (λ w. enqueue_to M D (get_session M D w.broker s.client_id) p))) [
            | true ↦
                Safe-change M D n (sends M D s.sender (Packet.publish p))
                  (λ w le. sends-Grows s.sender (Packet.publish p) w)
            | false ↦ λ w h le. (
              Grows-refl M D w,
              Safe-enqueue_to w.next_address (get_session M D w.broker s.client_id) p,
            )
          ]

  Safe-publish_to_all :
      (n : ℕ) (packet : PublishPacket) (ss : List (Subscriber M.Sender))
      → Safe M D Any n (publish_to_all M D packet ss)
  unfolding publish_to_all
  Safe-publish_to_all n packet [] = tt
  Safe-publish_to_all n packet (s ∷ ss) =
      Safe-bind M D Any Any n (publish_to M D packet s) (λ u. publish_to_all M D packet ss)
        (Safe-publish_to n packet s) (λ m u le q. Safe-publish_to_all m packet ss)

  pub Safe-handle_publish :
      (n : ℕ) (packet : PublishPacket) → Safe M D Any n (handle_publish M D packet)
  unfolding handle_publish
  Safe-handle_publish n packet = λ w h le. (
    Grows-refl M D w,
    Safe-publish_to_all w.next_address packet (matches w.broker.subscriptions packet.topic_name),
  )
