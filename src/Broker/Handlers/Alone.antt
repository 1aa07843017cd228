-- ===== src/Broker/Handlers/Alone.antt =====
-- What one client sees of `handle_publish` of src/broker/mod.rs: the messages to the other clients
-- leave its session and its channel alone.
mod Tests
use opencode_rustquitto.Base.{
  ℕ, ◌≡◌, ◌≢◌, refl, ◌∙◌, sym, ap, subst, Bool, true, false, Bool-cases, inl, inr, Option, none,
  some, List, [], ◌∷◌, ◌++◌, ◌==◌, ◌===◌, ===_iff, ==_refl, if◌then◌else◌, ℕ_discrete, arith,
}
use opencode_rustquitto.Extern.Channel.{Mpsc}
use opencode_rustquitto.Extern.DashMap.{DashMap}
use opencode_rustquitto.Text.{Text}
use opencode_rustquitto.Protocol.Qos.{Qos, at_most_once, at_least_once, exactly_once, min_qos}
use opencode_rustquitto.Protocol.Qos
use opencode_rustquitto.Protocol.Types.{Packet, PacketId, PublishPacket}
use opencode_rustquitto.Broker.Subscriptions.{Subscriber, matches}
use opencode_rustquitto.Broker.Session.{
  Session, waiting_pubrec, insert, new_packet_id, remember, enqueue_with_id, enqueue_by,
  enqueue_publish,
}
use opencode_rustquitto.Broker.Session.Pending.{
  numbered, sent_with_id, sender-new_packet_id, delivered,
}
use opencode_rustquitto.Broker.Session.Effect.{Affects, remember-sender, enqueue_publish-Affects}
use opencode_rustquitto.Broker.Handlers.{
  Address, Broker, store, get_session, enqueue_to, publish_to, publish_to_all, handle_publish,
}
use opencode_rustquitto.Broker.Handlers.Acknowledging.{store_same}
use opencode_rustquitto.Broker.Handlers.Publishing.{copies, of_channel, queue-send}

module _ (M : Mpsc) (D : DashMap Address) (a : Address) (k : Text) (t : M.Sender) where
  -- The channel and the session of a client.
  abbrev pub Seen : Type 0
  Seen = List Packet × Session M.Sender

  -- A message in flight: at QoS 1 it waits for PUBACK, at QoS 2 for PUBREC.
  abbrev pub kept : Qos → PacketId → PublishPacket → Session M.Sender → Session M.Sender
  kept qos id p s = record s {
    pending_qos1 =
        if Qos.eq qos at_least_once
        then insert id (record { packet = p }) s.pending_qos1
        else s.pending_qos1;
    pending_qos2 =
        if Qos.eq qos exactly_once
        then insert id (record { packet = p; state = waiting_pubrec }) s.pending_qos2
        else s.pending_qos2;
  }

  remember-kept :
      (qos : Qos) (id : PacketId) (p : PublishPacket) (s : Session M.Sender)
      → remember qos id p s ≡ kept qos id p s
  unfolding remember Qos.eq Qos.as_u8
  remember-kept at_most_once id p s = refl
  remember-kept at_least_once id p s = refl
  remember-kept exactly_once id p s = refl

  -- What one subscriber in the list of `matches` means for the client `k` with the sender `t`.
  abbrev pub see : PublishPacket → Subscriber M.Sender → Seen → Seen
  see packet x (q, s) =
      let qos = min_qos packet.qos x.qos in
      let p : PublishPacket = record packet { qos = qos } in
      if Qos.eq qos at_most_once
      then (q ++ copies (if of_channel M D t x then 1 else 0) (Packet.publish p), s)
      else if x.client_id === k
      then (
        q ++ (Packet.publish (numbered M s p) ∷ []),
        kept qos (new_packet_id s).0 (numbered M s p) (new_packet_id s).1,
      )
      else (q, s)

  pub see_all : PublishPacket → List (Subscriber M.Sender) → Seen → Seen
  see_all packet [] v = v
  see_all packet (x ∷ xs) v = see_all packet xs (see packet x v)

  abbrev pub view : Broker M D → Seen
  view b = (M.queue b.net t, b.heap a)

  -- The session at `a` is the client's, over an open channel of its own.
  pub record Stands (b : Broker M D) : Type 0 where
    pub found : get_session M D b k ≡ some a
    pub only : (j : Text) → get_session M D b j ≡ some a → j ≡ k
    pub sender : (b.heap a).sender ≡ t
    pub opened : M.is_open b.net t ≡ true
    pub apart :
        (j : Text) (r : Address)
        → get_session M D b j ≡ some r
        → r ≢ a
        → M.channel (b.heap r).sender ≢ M.channel t

  abbrev Sees : PublishPacket → Subscriber M.Sender → Broker M D → Broker M D → Type 0
  Sees packet x b b' = Stands b' × (view b' ≡ see packet x (view b))

  not_zero : (q : Qos) → Qos.eq q at_most_once ≡ false → q ≢ at_most_once
  unfolding Qos.eq Qos.as_u8
  not_zero at_most_once h = absurd (cc)
  not_zero at_least_once h = λ e. cc
  not_zero exactly_once h = λ e. cc

  seen_zero :
      (packet : PublishPacket) (x : Subscriber M.Sender) (b : Broker M D)
      → Stands b
      → Qos.eq (min_qos packet.qos x.qos) at_most_once ≡ true
      → Sees packet x b (publish_to M D packet x b)
  unfolding publish_to get_session
  seen_zero packet x b h zero =
      let p : PublishPacket = record packet { qos = min_qos packet.qos x.qos } in
      rw zero (
        record {
          found = h.found;
          only = h.only;
          sender = h.sender;
          opened = M.is_open-send b.net x.sender t (Packet.publish p) ∙ h.opened;
          apart = h.apart;
        },
        (λ i. (queue-send M D b.net t x (Packet.publish p) h.opened i, b.heap a)),
      )

  store_sender :
      (r j : Address) (s : Session M.Sender) (heap : Address → Session M.Sender)
      → s.sender ≡ (heap r).sender
      → (store r s heap j).sender ≡ (heap j).sender
  unfolding store
  store_sender r j s heap h = elim (Bool-cases (r == j)) [
    | inl here ↦ rw here (h ∙ ap (λ i. (heap i).sender) (ground (arith, here)))
    | inr there ↦ rw there refl
  ]

  -- The session at `r` sends.
  Stands-enqueue_to :
      (r : Address) (p : PublishPacket) (b : Broker M D)
      → Stands b
      → Stands (enqueue_to M D (some r) p b)
  unfolding enqueue_to get_session store
  Stands-enqueue_to r p b h =
      let e = enqueue_publish M b.net (b.heap r) p in
      let effect = enqueue_publish-Affects M b.net (b.heap r) p in
      let senders : (j : Address) → (store r e.1 b.heap j).sender ≡ (b.heap j).sender =
        λ j. store_sender r j e.1 b.heap effect.sender in
      record {
        found = h.found;
        only = h.only;
        sender = senders a ∙ h.sender;
        opened = effect.opened t ∙ h.opened;
        apart = λ j i found far same.
            h.apart j i found far (ap (λ c. M.channel c) (sym (senders i)) ∙ same);
      }

  seen_by_other :
      (j : Text) (r : Address) (p : PublishPacket) (b : Broker M D)
      → Stands b
      → get_session M D b j ≡ some r
      → r ≢ a
      → view (enqueue_to M D (some r) p b) ≡ view b
  unfolding enqueue_to store
  seen_by_other j r p b h found far =
      let effect = enqueue_publish-Affects M b.net (b.heap r) p in
      let other : (r == a) ≡ false = ground (arith, far) in
      rw other (λ i. (effect.queues t (h.apart j r found far) i, b.heap a))

  seen_by_self :
      (p : PublishPacket) (b : Broker M D)
      → Stands b
      → p.qos ≢ at_most_once
      → view (enqueue_to M D (some a) p b) ≡ (
        M.queue b.net t ++ (Packet.publish (numbered M (b.heap a) p) ∷ []),
        kept p.qos
            (new_packet_id (b.heap a)).0
            (numbered M (b.heap a) p)
            (new_packet_id (b.heap a)).1,
      )
  unfolding enqueue_to
  seen_by_self p b h more =
      let s = b.heap a in
      let open_s : M.is_open b.net s.sender ≡ true =
        ap (λ c. M.is_open b.net c) h.sender ∙ h.opened in
      let sent = sent_with_id M p.qos b.net s p refl more open_s in
      let queued : M.queue
            (M.send b.net (new_packet_id s).1.sender (Packet.publish (numbered M s p))).0 t
          ≡ M.queue b.net t ++ (Packet.publish (numbered M s p) ∷ []) =
        subst
          (λ c.
            M.queue (M.send b.net (new_packet_id s).1.sender (Packet.publish (numbered M s p))).0 c
            ≡ M.queue b.net c ++ (Packet.publish (numbered M s p) ∷ []))
          h.sender (delivered M b.net s p open_s) in
      (λ i. (M.queue (sent i).0 t, store_same M D a (sent i).1 b.heap i)) ∙ (λ i.
        (queued i, remember-kept p.qos (new_packet_id s).0 (numbered M s p) (new_packet_id s).1 i))

  -- A subscriber of another session has another name.
  named_not :
      (packet : PublishPacket) (x : Subscriber M.Sender) (b : Broker M D) (o : Option Address)
      → Stands b
      → get_session M D b x.client_id ≡ o
      → o ≢ some a
      → (x.client_id === k) ≡ false
  named_not packet x b o h e other = elim (Bool-cases (x.client_id === k)) [
    | inl here ↦
        let same = (===_iff x.client_id k).0 here in
        absurd (other (sym e ∙ ap (λ j. get_session M D b j) same ∙ h.found))
    | inr there ↦ there
  ]

  seen_more :
      (packet : PublishPacket) (x : Subscriber M.Sender) (b : Broker M D) (o : Option Address)
      → Stands b
      → Qos.eq (min_qos packet.qos x.qos) at_most_once ≡ false
      → get_session M D b x.client_id ≡ o
      → Sees packet x b (publish_to M D packet x b)
  unfolding publish_to enqueue_to
  seen_more packet x b none h more e =
      let far = named_not packet x b none h e (λ same. cc) in rw (more, e, far) (h, refl)
  seen_more packet x b (some r) h more e =
      let p : PublishPacket = record packet { qos = min_qos packet.qos x.qos } in
      elim (ℕ_discrete r a) [
        | yes same ↦
            let mine : get_session M D b x.client_id ≡ some a = e ∙ ap some same in
            let named : (x.client_id === k) ≡ true =
              (===_iff x.client_id k).1 (h.only x.client_id mine) in
            rw (more, mine, named)
              (
                Stands-enqueue_to a p b h,
                seen_by_self p b h (not_zero (min_qos packet.qos x.qos) more),
              )
        | no other ↦
            let far = named_not packet x b (some r) h e (λ same. other (cc)) in
            rw (more, e, far) (Stands-enqueue_to r p b h, seen_by_other x.client_id r p b h e other)
      ]

  pub publish_to-Sees :
      (packet : PublishPacket) (x : Subscriber M.Sender) (b : Broker M D)
      → Stands b
      → Sees packet x b (publish_to M D packet x b)
  publish_to-Sees packet x b h =
      elim (Bool-cases (Qos.eq (min_qos packet.qos x.qos) at_most_once)) [
        | inl zero ↦ seen_zero packet x b h zero
        | inr more ↦ seen_more packet x b (get_session M D b x.client_id) h more refl
      ]

  publish_to_all-Sees :
      (packet : PublishPacket) (xs : List (Subscriber M.Sender)) (b : Broker M D)
      → Stands b
      → view (publish_to_all M D packet xs b) ≡ see_all packet xs (view b)
  unfolding publish_to_all see_all
  publish_to_all-Sees packet [] b h = refl
  publish_to_all-Sees packet (x ∷ xs) b h =
      let (stands, seen) = publish_to-Sees packet x b h in
      publish_to_all-Sees packet xs (publish_to M D packet x b) stands
      ∙ ap (λ v. see_all packet xs v) seen

  -- Of a message that is published, a client whose session is found under its name alone, with an
  -- open channel that no other found session shares, sees what it would see alone: its channel and
  -- its session end up as when the list of matched subscribers is gone through for this client
  -- only. A subscriber that gets the message by QoS 0 puts it into the channel if that is its own;
  -- by a higher QoS, one with the client's name puts it there under a new identifier and enters it
  -- under that identifier among the messages that wait for PUBACK at QoS 1, or for PUBREC at QoS 2;
  -- all others do nothing.
  pub handle_publish_alone :
      (packet : PublishPacket) (b : Broker M D)
      → Stands b
      → (M.queue (handle_publish M D packet b).net t, (handle_publish M D packet b).heap a)
        ≡ see_all packet (matches b.subscriptions packet.topic_name) (M.queue b.net t, b.heap a)
  unfolding handle_publish
  handle_publish_alone packet b h =
      publish_to_all-Sees packet (matches b.subscriptions packet.topic_name) b h
