-- ===== src/Broker/Handlers/Publishing.antt =====
-- `handle_publish` of src/broker/mod.rs: who receives a message, and what it leaves alone.
use opencode_rustquitto.Base.{
  ℕ, zero, suc, ◌+◌, ◌≡◌, ◌≢◌, refl, ◌∙◌, ap, sym, Bool, true, ◌&&◌, Option, none, some, List, [],
  ◌∷◌, ◌++◌, append-nil, append_assoc, ◌==◌, ==_iff, if◌then◌else◌, All, arith, Bool-cases, inl,
  inr,
}
use opencode_rustquitto.Base.Count.{count}
use opencode_rustquitto.Extern.Channel.{Mpsc}
use opencode_rustquitto.Extern.DashMap.{DashMap}
use opencode_rustquitto.Text.Split.{split}
use opencode_rustquitto.Protocol.Qos.{Qos, at_most_once, at_least_once, exactly_once, min_qos}
use opencode_rustquitto.Protocol.Qos
use opencode_rustquitto.Protocol.Types.{Packet, PublishPacket}
use opencode_rustquitto.Broker.Subscriptions.{Subscriber, matches}
use opencode_rustquitto.Broker.Subscriptions.Entries.{entries}
use opencode_rustquitto.Broker.Subscriptions.WellFormed.{IsWellFormed}
use opencode_rustquitto.Broker.Subscriptions.Match.{matches_prefix, count-matches}
use opencode_rustquitto.Broker.Handlers.{
  Address, Broker, store, get_session, enqueue_to, publish_to, publish_to_all, handle_publish,
}

-- `n` times the same packet.
unfoldable pub copies : ℕ → Packet → List Packet
copies zero p = []
copies (suc n) p = p ∷ copies n p

copies-add : (m n : ℕ) (p : Packet) → copies (m + n) p ≡ copies m p ++ copies n p
unfolding copies
copies-add zero n p = let same : 0 + n ≡ n = omega arith in ap (λ k. copies k p) same
copies-add (suc m) n p =
    let next : suc m + n ≡ suc (m + n) = omega arith in
    ap (λ k. copies k p) next ∙ ap (λ ps. p ∷ ps) (copies-add m n p)

module _ (M : Mpsc) (D : DashMap Address) where
  open M use {Sender, send, queue, is_open, channel}

  -- The two senders belong to the same channel.
  abbrev pub of_channel : Sender → Subscriber Sender → Bool
  of_channel c s = channel s.sender == channel c

  pub queue-send :
      (net : M.Network) (c : Sender) (s : Subscriber Sender) (p : Packet)
      → is_open net c ≡ true
      → queue (send net s.sender p).0 c ≡ queue net c ++ copies (if of_channel c s then 1 else 0) p
  unfolding copies
  queue-send net c s p h = elim (Bool-cases (of_channel c s)) [
    | inl e ↦
        let same = (==_iff (channel s.sender) (channel c)).0 e in
        let open_s = M.is_open_clone net s.sender c same ∙ h in
        rw e (
          sym (M.queue_clone (send net s.sender p).0 s.sender c same)
          ∙ (M.send_open net s.sender p open_s).1
          ∙ ap (λ q. q ++ (p ∷ [])) (M.queue_clone net s.sender c same))
    | inr e ↦
        rw (e, append-nil)
          (M.send_other net s.sender c p
            (λ same. ground (arith, e, (==_iff (channel s.sender) (channel c)).1 same)))
  ]

  min_qos_zero : (q : Qos) → min_qos at_most_once q ≡ at_most_once
  unfolding min_qos Qos.as_u8
  min_qos_zero at_most_once = refl
  min_qos_zero at_least_once = refl
  min_qos_zero exactly_once = refl

  publish_to_zero :
      (packet : PublishPacket) (s : Subscriber Sender) (b : Broker M D)
      → packet.qos ≡ at_most_once
      → publish_to M D packet s b
        ≡ record b { net = (send b.net s.sender (Packet.publish packet)).0 }
  unfolding publish_to Qos.eq Qos.as_u8
  publish_to_zero packet s b h = rw (ap (λ q. min_qos q s.qos) h ∙ min_qos_zero s.qos) (
      ap
        (λ q. record b {
          net = (send b.net s.sender (Packet.publish (record packet { qos = q }))).0;
        })
        (sym h))

  queue-publish_to_all :
      (packet : PublishPacket) (ss : List (Subscriber Sender)) (b : Broker M D) (c : Sender)
      → packet.qos ≡ at_most_once
      → is_open b.net c ≡ true
      → queue (publish_to_all M D packet ss b).net c
        ≡ queue b.net c ++ copies (count (of_channel c) ss) (Packet.publish packet)
  unfolding publish_to_all count copies
  queue-publish_to_all packet [] b c q h = sym (append-nil (queue b.net c))
  queue-publish_to_all packet (s ∷ ss) b c q h =
      let p = Packet.publish packet in
      ap (λ after. queue (publish_to_all M D packet ss after).net c) (publish_to_zero packet s b q)
      ∙ queue-publish_to_all packet ss (record b { net = (send b.net s.sender p).0 }) c q
          (M.is_open-send b.net s.sender c p ∙ h)
      ∙ ap (λ before. before ++ copies (count (of_channel c) ss) p) (queue-send b.net c s p h)
      ∙ append_assoc (queue b.net c) (copies (if of_channel c s then 1 else 0) p) _
      ∙ ap (λ sent. queue b.net c ++ sent)
          (sym (copies-add (if of_channel c s then 1 else 0) (count (of_channel c) ss) p))

  -- A QoS 0 message goes into an open channel, behind what is there, once for each stored
  -- subscription of the channel whose levels match a prefix of the levels of the topic, in a
  -- well-formed tree.
  pub handle_publish_qos0 :
      (packet : PublishPacket) (b : Broker M D) (c : Sender)
      → packet.qos ≡ at_most_once
      → is_open b.net c ≡ true
      → IsWellFormed b.subscriptions.root
      → queue (handle_publish M D packet b).net c
        ≡ queue b.net c
          ++ copies
              (count
                (λ e. matches_prefix e.0 (split packet.topic_name) && of_channel c e.1)
                (entries b.subscriptions.root))
              (Packet.publish packet)
  unfolding handle_publish
  handle_publish_qos0 packet b c q h w =
      queue-publish_to_all packet (matches b.subscriptions packet.topic_name) b c q h
      ∙ rw (count-matches (of_channel c) b.subscriptions packet.topic_name w)

  enqueue_to_keeps :
      (r : Address) (o : Option Address) (packet : PublishPacket) (b : Broker M D)
      → o ≢ some r
      → ((enqueue_to M D o packet b).heap r ≡ b.heap r)
        × ((enqueue_to M D o packet b).sessions ≡ b.sessions)
        × ((enqueue_to M D o packet b).subscriptions ≡ b.subscriptions)
  unfolding enqueue_to store
  enqueue_to_keeps r none packet b h = (refl, refl, refl)
  enqueue_to_keeps r (some a) packet b h = (ground (arith, h), refl, refl)

  publish_to_keeps :
      (r : Address) (packet : PublishPacket) (s : Subscriber Sender) (b : Broker M D)
      → get_session M D b s.client_id ≢ some r
      → ((publish_to M D packet s b).heap r ≡ b.heap r)
        × ((publish_to M D packet s b).sessions ≡ b.sessions)
        × ((publish_to M D packet s b).subscriptions ≡ b.subscriptions)
  unfolding publish_to
  publish_to_keeps r packet s b h =
      elim (Bool-cases (Qos.eq (min_qos packet.qos s.qos) at_most_once)) [
        | inl e ↦ rw e (refl, refl, refl)
        | inr e ↦ rw e (
            enqueue_to_keeps r (get_session M D b s.client_id)
              (record packet { qos = min_qos packet.qos s.qos }) b h)
      ]

  -- `m` is the map of sessions, which no step of the loop changes.
  publish_to_all_keeps :
      (r : Address) (packet : PublishPacket) (ss : List (Subscriber Sender)) (b : Broker M D)
      (m : D.Map)
      → b.sessions ≡ m
      → All (λ s. D.get m s.client_id ≢ some r) ss
      → ((publish_to_all M D packet ss b).heap r ≡ b.heap r)
        × ((publish_to_all M D packet ss b).sessions ≡ b.sessions)
        × ((publish_to_all M D packet ss b).subscriptions ≡ b.subscriptions)
  unfolding publish_to_all get_session
  publish_to_all_keeps r packet [] b m e h = (refl, refl, refl)
  publish_to_all_keeps r packet (s ∷ ss) b m e h =
      let first =
        publish_to_keeps r packet s b
          (λ found. h.0 (sym (ap (λ k. D.get k s.client_id) e) ∙ found)) in
      let rest = publish_to_all_keeps r packet ss (publish_to M D packet s b) m (first.1 ∙ e) h.1 in
      (rest.0 ∙ first.0, rest.1 ∙ first.1, rest.2 ∙ first.2)

  -- Publishing changes no session of a client without a matching subscription: a session that is
  -- found under the name of no matched subscriber stays as it was, and so do the map of sessions
  -- and the tree.
  pub handle_publish_isolated :
      (r : Address) (packet : PublishPacket) (b : Broker M D)
      → All
          (λ s. get_session M D b s.client_id ≢ some r)
          (matches b.subscriptions packet.topic_name)
      → ((handle_publish M D packet b).heap r ≡ b.heap r)
        × ((handle_publish M D packet b).sessions ≡ b.sessions)
        × ((handle_publish M D packet b).subscriptions ≡ b.subscriptions)
  unfolding handle_publish get_session
  handle_publish_isolated r packet b h =
      publish_to_all_keeps r packet (matches b.subscriptions packet.topic_name) b b.sessions refl h
