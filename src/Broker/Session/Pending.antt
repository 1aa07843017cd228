-- ===== src/Broker/Session/Pending.antt =====
-- The messages in flight of a session (src/broker/session.rs): what `enqueue_publish` and the
-- acknowledgements do to them.
use opencode_rustquitto.Base.{
  ◌≡◌, ◌≢◌, refl, ◌∙◌, ap, true, false, none, some, List, [], ◌∷◌, ◌++◌, ◌==◌, if◌then◌else◌, arith,
}
use mathlib.Core.Option
use opencode_rustquitto.Extern.Channel.{Mpsc}
use opencode_rustquitto.Protocol.Qos.{Qos, at_most_once, at_least_once, exactly_once}
use opencode_rustquitto.Protocol.Types.{Packet, PacketId, PublishPacket}
use opencode_rustquitto.Broker.Session.{
  Session, waiting_pubrec, lookup, insert, update, remove, new_packet_id, remember, enqueue_with_id,
  enqueue_by, enqueue_publish,
}

module _ {ℓ} {V : Type ℓ} where
  pub lookup-insert :
      (k j : PacketId) (v : V) (m : List (PacketId × V))
      → lookup j (insert k v m) ≡ (if k.raw == j.raw then some v else lookup j m)
  unfolding lookup insert
  lookup-insert k j v [] = refl
  lookup-insert k j v ((i, w) ∷ m) = ground (arith, lookup-insert k j v m)

  pub lookup-remove :
      (k j : PacketId) (m : List (PacketId × V))
      → lookup j (remove k m) ≡ (if k.raw == j.raw then none else lookup j m)
  unfolding lookup remove
  lookup-remove k j [] = ground arith
  lookup-remove k j ((i, w) ∷ m) = ground (arith, lookup-remove k j m)

  pub lookup-update :
      (f : V → V) (k j : PacketId) (m : List (PacketId × V))
      → lookup j (update f k m) ≡ (if k.raw == j.raw then Option.map f (lookup j m) else lookup j m)
  unfolding lookup update
  lookup-update f k j [] = ground arith
  lookup-update f k j ((i, w) ∷ m) = ground (arith, lookup-update f k j m)

module _ (M : Mpsc) where
  open M use {Network, Sender, queue, is_open}

  -- What a session sends for `p`, with the identifier that is next.
  abbrev pub numbered : Session Sender → PublishPacket → PublishPacket
  numbered s p = record p { packet_id = some (new_packet_id s).0 }

  enqueue-eq-remember :
      (net : Network) (s : Session Sender) (p : PublishPacket)
      → is_open net (new_packet_id s).1.sender ≡ true
      → enqueue_with_id M net s p ≡ (
        (M.send net (new_packet_id s).1.sender (Packet.publish (numbered s p))).0,
        remember p.qos (new_packet_id s).0 (numbered s p) (new_packet_id s).1,
      )
  unfolding enqueue_with_id
  enqueue-eq-remember net s p h =
      rw ((M.send_open net (new_packet_id s).1.sender (Packet.publish (numbered s p)) h).0)

  pub sender-new_packet_id : (s : Session Sender) → (new_packet_id s).1.sender ≡ s.sender
  unfolding new_packet_id
  sender-new_packet_id s = ground arith

  pending_qos1-new_packet_id :
      (s : Session Sender) → (new_packet_id s).1.pending_qos1 ≡ s.pending_qos1
  unfolding new_packet_id
  pending_qos1-new_packet_id s = ground arith

  pending_qos2-new_packet_id :
      (s : Session Sender) → (new_packet_id s).1.pending_qos2 ≡ s.pending_qos2
  unfolding new_packet_id
  pending_qos2-new_packet_id s = ground arith

  enqueue_by-eq :
      (q : Qos) (net : Network) (s : Session Sender) (p : PublishPacket)
      → q ≢ at_most_once
      → enqueue_by M q net s p ≡ enqueue_with_id M net s p
  unfolding enqueue_by
  enqueue_by-eq at_most_once net s p h = absurd (h refl)
  enqueue_by-eq at_least_once net s p h = refl
  enqueue_by-eq exactly_once net s p h = refl

  -- A successful send, at a QoS above 0.
  pub sent_with_id :
      (q : Qos) (net : Network) (s : Session Sender) (p : PublishPacket)
      → p.qos ≡ q
      → q ≢ at_most_once
      → is_open net s.sender ≡ true
      → enqueue_publish M net s p ≡ (
        (M.send net (new_packet_id s).1.sender (Packet.publish (numbered s p))).0,
        remember q (new_packet_id s).0 (numbered s p) (new_packet_id s).1,
      )
  unfolding enqueue_publish
  sent_with_id q net s p e n h =
      ap (λ k. enqueue_by M k net s p) e
      ∙ enqueue_by-eq q net s p n
      ∙ enqueue-eq-remember net s p (ap (λ c. is_open net c) (sender-new_packet_id s) ∙ h)
      ∙ ap
          (λ k. (
            (M.send net (new_packet_id s).1.sender (Packet.publish (numbered s p))).0,
            remember k (new_packet_id s).0 (numbered s p) (new_packet_id s).1,
          ))
          e

  pub delivered :
      (net : Network) (s : Session Sender) (p : PublishPacket)
      → is_open net s.sender ≡ true
      → queue (M.send net (new_packet_id s).1.sender (Packet.publish (numbered s p))).0 s.sender
        ≡ queue net s.sender ++ (Packet.publish (numbered s p) ∷ [])
  delivered net s p h =
      rw (sender-new_packet_id s) ((M.send_open net s.sender (Packet.publish (numbered s p)) h).1)

  -- A QoS 1 message to a connected client goes into its channel behind what is there, under a new
  -- identifier, and is kept under that identifier until it is acknowledged; the other messages in
  -- flight stay as they were.
  pub enqueue_publish_qos1 :
      (net : Network) (s : Session Sender) (p : PublishPacket)
      → p.qos ≡ at_least_once
      → is_open net s.sender ≡ true
      → (queue (enqueue_publish M net s p).0 s.sender
          ≡ queue net s.sender ++ (Packet.publish (numbered s p) ∷ []))
        × ((j : PacketId)
            → lookup j (enqueue_publish M net s p).1.pending_qos1 ≡ (
                if (new_packet_id s).0.raw == j.raw
                then some (record { packet = numbered s p })
                else lookup j s.pending_qos1))
        × ((enqueue_publish M net s p).1.pending_qos2 ≡ s.pending_qos2)
  unfolding remember
  enqueue_publish_qos1 net s p q h = rw (sent_with_id at_least_once net s p q (λ e. cc) h) (
    delivered net s p h,
    λ j. rw (lookup-insert, pending_qos1-new_packet_id s),
    pending_qos2-new_packet_id s,
  )

  -- A QoS 2 message goes the same way, and is kept as waiting for PUBREC.
  pub enqueue_publish_qos2 :
      (net : Network) (s : Session Sender) (p : PublishPacket)
      → p.qos ≡ exactly_once
      → is_open net s.sender ≡ true
      → (queue (enqueue_publish M net s p).0 s.sender
          ≡ queue net s.sender ++ (Packet.publish (numbered s p) ∷ []))
        × ((j : PacketId)
            → lookup j (enqueue_publish M net s p).1.pending_qos2 ≡ (
                if (new_packet_id s).0.raw == j.raw
                then some (record { packet = numbered s p; state = waiting_pubrec })
                else lookup j s.pending_qos2))
        × ((enqueue_publish M net s p).1.pending_qos1 ≡ s.pending_qos1)
  unfolding remember
  enqueue_publish_qos2 net s p q h = rw (sent_with_id exactly_once net s p q (λ e. cc) h) (
    delivered net s p h,
    λ j. rw (lookup-insert, pending_qos2-new_packet_id s),
    pending_qos1-new_packet_id s,
  )

  closed_with_id :
      (net : Network) (s : Session Sender) (p : PublishPacket)
      → is_open net s.sender ≡ false
      → enqueue_with_id M net s p ≡ (net, (new_packet_id s).1)
  unfolding enqueue_with_id
  closed_with_id net s p h =
      rw (sender-new_packet_id s, M.send_closed net s.sender (Packet.publish (numbered s p)) h)

  closed_by :
      (q : Qos) (net : Network) (s : Session Sender) (p : PublishPacket)
      → is_open net s.sender ≡ false
      → ((enqueue_by M q net s p).0 ≡ net)
        × ((enqueue_by M q net s p).1.pending_qos1 ≡ s.pending_qos1)
        × ((enqueue_by M q net s p).1.pending_qos2 ≡ s.pending_qos2)
  unfolding enqueue_by
  closed_by at_most_once net s p h =
      rw (M.send_closed net s.sender (Packet.publish p) h) (refl, refl, refl)
  closed_by at_least_once net s p h =
      rw (closed_with_id net s p h)
        (refl, pending_qos1-new_packet_id s, pending_qos2-new_packet_id s)
  closed_by exactly_once net s p h =
      rw (closed_with_id net s p h)
        (refl, pending_qos1-new_packet_id s, pending_qos2-new_packet_id s)

  -- A message to a client whose receiver is gone changes no channel and leaves nothing in flight,
  -- whatever its QoS.
  pub enqueue_publish_closed :
      (net : Network) (s : Session Sender) (p : PublishPacket)
      → is_open net s.sender ≡ false
      → ((enqueue_publish M net s p).0 ≡ net)
        × ((enqueue_publish M net s p).1.pending_qos1 ≡ s.pending_qos1)
        × ((enqueue_publish M net s p).1.pending_qos2 ≡ s.pending_qos2)
  unfolding enqueue_publish
  enqueue_publish_closed net s p h = closed_by p.qos net s p h
