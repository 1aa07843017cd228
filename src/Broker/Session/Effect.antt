-- ===== src/Broker/Session/Effect.antt =====
-- What `enqueue_publish` of src/broker/session.rs does to the channels.
use opencode_rustquitto.Base.{◌≡◌, ◌≢◌, refl, ◌∙◌, sym, ap, Bool-cases, inl, inr}
use opencode_rustquitto.Extern.Channel.{Mpsc}
use opencode_rustquitto.Protocol.Qos.{Qos, at_most_once, at_least_once, exactly_once}
use opencode_rustquitto.Protocol.Types.{Packet, PublishPacket}
use opencode_rustquitto.Broker.Session.{
  Session, new_packet_id, remember, enqueue_with_id, enqueue_by, enqueue_publish,
}
use opencode_rustquitto.Broker.Session.Pending.{numbered, sender-new_packet_id}

-- What sending a message through one session leaves alone.
module _ (M : Mpsc) where
  pub record Affects (net : M.Network) (s : Session M.Sender) (r : M.Network × Session M.Sender)
      : Type 0 where
    pub sender : r.1.sender ≡ s.sender
    pub opened : (t : M.Sender) → M.is_open r.0 t ≡ M.is_open net t
    pub queues : (t : M.Sender) → M.channel s.sender ≢ M.channel t → M.queue r.0 t ≡ M.queue net t

  pub remember-sender :
      (q : Qos) (s : Session M.Sender) (p : PublishPacket)
      → (remember q (new_packet_id s).0 p (new_packet_id s).1).sender ≡ (new_packet_id s).1.sender
  unfolding remember
  remember-sender at_most_once s p = refl
  remember-sender at_least_once s p = refl
  remember-sender exactly_once s p = refl

  enqueue_with_id-Affects :
      (net : M.Network) (s : Session M.Sender) (p : PublishPacket)
      → Affects net s (enqueue_with_id M net s p)
  unfolding enqueue_with_id
  enqueue_with_id-Affects net s p =
      let (id, s₁) = new_packet_id s in
      let p₁ = numbered M s p in
      let same = sender-new_packet_id M s in
      let opened = λ (t : M.Sender). M.is_open-send net s₁.sender t (Packet.publish p₁) in
      let queues = λ (t : M.Sender) (far : M.channel s.sender ≢ M.channel t).
        M.send_other net s₁.sender t (Packet.publish p₁)
          (λ e. far (ap (λ c. M.channel c) (sym same) ∙ e)) in
      elim (Bool-cases (M.send net s₁.sender (Packet.publish p₁)).1) [
        | inl sent ↦ rw sent (record {
          sender = remember-sender p.qos s p₁ ∙ same;
          opened = opened;
          queues = queues;
        })
        | inr lost ↦ rw lost (record { sender = same; opened = opened; queues = queues })
      ]

  enqueue_by-Affects :
      (q : Qos) (net : M.Network) (s : Session M.Sender) (p : PublishPacket)
      → Affects net s (enqueue_by M q net s p)
  unfolding enqueue_by
  enqueue_by-Affects at_most_once net s p = record {
    sender = refl;
    opened = λ t. M.is_open-send net s.sender t (Packet.publish p);
    queues = λ t far. M.send_other net s.sender t (Packet.publish p) far;
  }
  enqueue_by-Affects at_least_once net s p = enqueue_with_id-Affects net s p
  enqueue_by-Affects exactly_once net s p = enqueue_with_id-Affects net s p

  pub enqueue_publish-Affects :
      (net : M.Network) (s : Session M.Sender) (p : PublishPacket)
      → Affects net s (enqueue_publish M net s p)
  unfolding enqueue_publish
  enqueue_publish-Affects net s p = enqueue_by-Affects p.qos net s p
