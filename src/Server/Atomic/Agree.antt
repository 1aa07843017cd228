-- ===== src/Server/Atomic/Agree.antt =====
-- Without interruption, the atomic actions of a handler do what the handler does in one step.
pub mod Answers
pub mod Packets
use opencode_rustquitto.Base.{
  ℕ, ◌+◌, ◌%◌, ◌≡◌, refl, sym, ap, ◌∙◌, Bool, true, false, Bool-cases, inl, inr, Option, none, some,
  List, [], ◌∷◌, ◌==◌, if◌then◌else◌, arith,
}
use mathlib.Core.Path.{fun_ext}
use opencode_rustquitto.Extern.Channel.{Mpsc}
use opencode_rustquitto.Extern.DashMap.{DashMap}
use opencode_rustquitto.Text.{Text}
use opencode_rustquitto.Protocol.Qos.{Qos, at_most_once, at_least_once, exactly_once, min_qos}
use opencode_rustquitto.Protocol.Qos
use opencode_rustquitto.Protocol.Types.{
  Packet, PacketId, PublishPacket, SubscribePacket, UnsubscribePacket,
}
use opencode_rustquitto.Broker.Filter.{is_valid_topic_filter}
use opencode_rustquitto.Broker.Subscriptions.{Subscriber, TopicTree, add, matches}
use opencode_rustquitto.Broker.Session.{Session, remember, sender_of}
use opencode_rustquitto.Broker.Session
use opencode_rustquitto.Broker.Handlers.{Address, Broker, store, get_session, subscriber_of}
use opencode_rustquitto.Broker.Handlers
use opencode_rustquitto.Broker.Handlers.Acknowledging.{store_same}
use opencode_rustquitto.Server.Connection.{World, on_broker}
use opencode_rustquitto.Server.Atomic.{Program, done, act, change, look, run, bind, run-bind}
use opencode_rustquitto.Server.Atomic.Handlers.{
  Task, on_session, sends, count_up, restart, new_packet_id, send_with_id, enqueue_by,
  enqueue_publish, enqueue_to, publish_to, publish_to_all, handle_publish,
}

module _ (M : Mpsc) (D : DashMap Address) where
  store-store :
      (r : Address) (s t : Session M.Sender) (heap : Address → Session M.Sender)
      → store r s (store r t heap) ≡ store r s heap
  unfolding store
  store-store r s t heap = fun_ext λ a. ground arith

  store_back : (r : Address) (heap : Address → Session M.Sender) → store r (heap r) heap ≡ heap
  unfolding store
  store_back r heap = fun_ext λ a. elim (Bool-cases (r == a)) [
    | inl here ↦ let same : r ≡ a = ground (arith, here) in rw here (ap (λ i. heap i) same)
    | inr there ↦ rw there refl
  ]

  -- The session and the channels after a message went through the session.
  abbrev settle : Address → M.Network × Session M.Sender → World M D → World M D
  settle r e w = on_broker M D (λ b. record b { heap = store r e.1 b.heap; net = e.0 }) w

  settle-on_session :
      (r : Address) (f : Session M.Sender → Session M.Sender)
      (e : Session M.Sender → M.Network × Session M.Sender) (w : World M D)
      → settle r (e ((on_session M D r f w).broker.heap r)) (on_session M D r f w)
        ≡ settle r (e (f (w.broker.heap r))) w
  settle-on_session r f e w =
      let s = f (w.broker.heap r) in
      let heap = store r s w.broker.heap in
      ap (λ t. settle r (e t) (on_session M D r f w)) (store_same M D r s w.broker.heap)
      ∙ ap (λ h. on_broker M D (λ b. record b { heap = h; net = (e s).0 }) w)
          (store-store r (e s).1 s w.broker.heap)

  on_session-twice :
      (r : Address) (f g : Session M.Sender → Session M.Sender) (w : World M D)
      → on_session M D r g (on_session M D r f w) ≡ on_session M D r (λ s. g (f s)) w
  on_session-twice r f g w = settle-on_session r f (λ s. (w.broker.net, g s)) w

  run-new_packet_id :
      (r : Address) (w : World M D)
      → run (new_packet_id M D r) w ≡ (
        (Session.new_packet_id (w.broker.heap r)).0,
        on_session M D r (λ s. (Session.new_packet_id s).1) w,
      )
  unfolding run new_packet_id Session.new_packet_id
  run-new_packet_id r w =
      let s = w.broker.heap r in
      let first : PacketId × Session M.Sender = (record { raw = 1 }, restart s) in
      let next : PacketId × Session M.Sender = (record { raw = s.next_packet_id }, count_up s) in
      elim (s.next_packet_id == 0)
        as (λ c.
          run (if c then act (on_session M D r restart) (λ v. done first.0) else done next.0)
            (on_session M D r count_up w)
          ≡ (
            (if c then first else next).0,
            on_session M D r (λ t. (if c then first else next).1) w,
          )) [
            | true ↦ ap (λ (v : World M D). (first.0, v)) (on_session-twice r count_up restart w)
            | false ↦ refl
          ]

  -- `send_with_id` on the session and the channels.
  abbrev sent_by :
      PublishPacket → PacketId → M.Network → Session M.Sender → M.Network × Session M.Sender
  sent_by packet id net s =
      let p : PublishPacket = record packet { packet_id = some id } in
      let (net₁, sent) = M.send net s.sender (Packet.publish p) in
      if sent then (net₁, remember packet.qos id p s) else (net₁, s)

  run-send_with_id :
      (r : Address) (packet : PublishPacket) (id : PacketId) (w : World M D)
      → run (send_with_id M D r packet id) w
        ≡ (tt, settle r (sent_by packet id w.broker.net (w.broker.heap r)) w)
  unfolding run send_with_id
  run-send_with_id r packet id w =
      let p : PublishPacket = record packet { packet_id = some id } in
      let s = w.broker.heap r in
      let net = (M.send w.broker.net s.sender (Packet.publish p)).0 in
      let kept = remember packet.qos id p s in
      elim (M.send w.broker.net s.sender (Packet.publish p)).1
        as (λ c.
          run (if c then change (on_session M D r (λ t. remember packet.qos id p t)) else done tt)
            (sends M D s.sender (Packet.publish p) w)
          ≡ (tt, settle r (if c then (net, kept) else (net, s)) w)) [
            | true ↦ refl
            | false ↦
                ap (λ h. (tt, on_broker M D (λ b. record b { heap = h; net = net }) w))
                  (sym (store_back r w.broker.heap))
          ]

  run-with_id :
      (r : Address) (packet : PublishPacket) (w : World M D)
      → run (bind (new_packet_id M D r) (λ id. send_with_id M D r packet id)) w
        ≡ (tt, settle r (Session.enqueue_with_id M w.broker.net (w.broker.heap r) packet) w)
  unfolding Session.enqueue_with_id
  run-with_id r packet w =
      let s = w.broker.heap r in
      let id = (Session.new_packet_id s).0 in
      let f : Session M.Sender → Session M.Sender = λ s. (Session.new_packet_id s).1 in
      run-bind (new_packet_id M D r) (λ id. send_with_id M D r packet id) w
      ∙ ap (λ o. run (send_with_id M D r packet o.0) o.1) (run-new_packet_id r w)
      ∙ run-send_with_id r packet id (on_session M D r f w)
      ∙ ap (λ v. (tt, v)) (settle-on_session r f (λ s. sent_by packet id w.broker.net s) w)

  run-enqueue_by :
      (q : Qos) (r : Address) (packet : PublishPacket) (w : World M D)
      → run (enqueue_by M D q r packet) w
        ≡ (tt, settle r (Session.enqueue_by M q w.broker.net (w.broker.heap r) packet) w)
  unfolding run enqueue_by Session.enqueue_by
  run-enqueue_by at_most_once r packet w =
      let net = (M.send w.broker.net (w.broker.heap r).sender (Packet.publish packet)).0 in
      ap (λ h. (tt, on_broker M D (λ b. record b { heap = h; net = net }) w))
        (sym (store_back r w.broker.heap))
  run-enqueue_by at_least_once r packet w = run-with_id r packet w
  run-enqueue_by exactly_once r packet w = run-with_id r packet w

  run-enqueue_to :
      (o : Option Address) (packet : PublishPacket) (w : World M D)
      → run (enqueue_to M D o packet) w
        ≡ (tt, on_broker M D (λ b. Handlers.enqueue_to M D o packet b) w)
  unfolding run enqueue_to enqueue_publish Handlers.enqueue_to Session.enqueue_publish
  run-enqueue_to none packet w = refl
  run-enqueue_to (some r) packet w = run-enqueue_by packet.qos r packet w

  run-publish_to :
      (packet : PublishPacket) (s : Subscriber M.Sender) (w : World M D)
      → run (publish_to M D packet s) w
        ≡ (tt, on_broker M D (λ b. Handlers.publish_to M D packet s b) w)
  unfolding run publish_to Handlers.publish_to
  run-publish_to packet s w =
      let q = min_qos packet.qos s.qos in
      let p : PublishPacket = record packet { qos = q } in
      elim (Qos.eq q at_most_once)
        as (λ c.
          run
            (if c
              then change (sends M D s.sender (Packet.publish p))
              else look (λ v. enqueue_to M D (get_session M D v.broker s.client_id) p))
            w
          ≡ (
            tt,
            on_broker M D
                (λ b.
                  if c
                  then record b { net = (M.send b.net s.sender (Packet.publish p)).0 }
                  else Handlers.enqueue_to M D (get_session M D b s.client_id) p b)
                w,
          )) [ true ↦ refl | false ↦ run-enqueue_to (get_session M D w.broker s.client_id) p w ]

  run-publish_to_all :
      (packet : PublishPacket) (ss : List (Subscriber M.Sender)) (w : World M D)
      → run (publish_to_all M D packet ss) w
        ≡ (tt, on_broker M D (λ b. Handlers.publish_to_all M D packet ss b) w)
  unfolding run publish_to_all Handlers.publish_to_all
  run-publish_to_all packet [] w = refl
  run-publish_to_all packet (s ∷ ss) w =
      run-bind (publish_to M D packet s) (λ u. publish_to_all M D packet ss) w
      ∙ ap (λ (o : Unit {0} × World M D). run (publish_to_all M D packet ss) o.1)
          (run-publish_to packet s w)
      ∙ run-publish_to_all packet ss (on_broker M D (λ b. Handlers.publish_to M D packet s b) w)

  pub run-handle_publish :
      (packet : PublishPacket) (w : World M D)
      → run (handle_publish M D packet) w
        ≡ (tt, on_broker M D (λ b. Handlers.handle_publish M D packet b) w)
  unfolding run handle_publish Handlers.handle_publish
  run-handle_publish packet w =
      run-publish_to_all packet (matches w.broker.subscriptions packet.topic_name) w
