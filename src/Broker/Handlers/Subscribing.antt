-- ===== src/Broker/Handlers/Subscribing.antt =====
-- `handle_subscribe` and `handle_unsubscribe` of src/broker/mod.rs over the stored subscriptions.
use opencode_rustquitto.Base.{
  ◌+◌, ◌≡◌, refl, ◌∙◌, Bool, false, not, ◌&&◌, ◌||◌, List, [], ◌∷◌, ◌===◌, if◌then◌else◌, map,
  arith, Bool-cases, inl, inr,
}
use opencode_rustquitto.Base.Count.{count, count-ext}
use opencode_rustquitto.Extern.Channel.{Mpsc}
use opencode_rustquitto.Extern.DashMap.{DashMap}
use opencode_rustquitto.Text.{Text}
use opencode_rustquitto.Text.Split.{split}
use opencode_rustquitto.Protocol.Qos.{Qos, at_least_once}
use opencode_rustquitto.Protocol.Types.{
  SubscribePacket, UnsubscribePacket, SubscribeReturnCode, success_qos1, failure,
}
use opencode_rustquitto.Broker.Filter.{is_valid_topic_filter}
use opencode_rustquitto.Broker.Subscriptions.{TopicTree, add, remove}
use opencode_rustquitto.Broker.Subscriptions.Entries.{Subscription, kept_levels, entries}
use opencode_rustquitto.Broker.Subscriptions.WellFormed.{IsWellFormed, remove-IsWellFormed}
use opencode_rustquitto.Broker.Subscriptions.Add.{count-add}
use opencode_rustquitto.Broker.Subscriptions.Remove.{same_levels, left_by, count-remove}
use opencode_rustquitto.Broker.Session.{sender_of}
use opencode_rustquitto.Broker.Handlers.{
  Address, Broker, subscriber_of, subscribe_all, unsubscribe_all, handle_subscribe,
  handle_unsubscribe,
}

-- The answer to one filter.
abbrev pub code_for : Text × Qos → SubscribeReturnCode
code_for (filter, requested) = if is_valid_topic_filter filter then success_qos1 else failure

module _ (M : Mpsc) (D : DashMap Address) where
  open M use {Sender}

  codes-subscribe_all :
      (client_id : Text) (sender : Sender) (asked : List (Text × Qos)) (tree : TopicTree Sender)
      → (subscribe_all M D client_id sender asked tree).0 ≡ map code_for asked
  unfolding subscribe_all
  codes-subscribe_all client_id sender [] tree = refl
  codes-subscribe_all client_id sender ((filter, q) ∷ rest) tree =
      rw (codes-subscribe_all client_id sender rest)

  -- The subscriptions that a SUBSCRIBE asks for and that pass a test.
  abbrev pub wanted : (Subscription Sender → Bool) → Text → Sender → Text × Qos → Bool
  wanted p client_id sender (filter, requested) =
      is_valid_topic_filter filter
      && p (
        kept_levels (split filter),
        record { client_id = client_id; sender = sender; qos = at_least_once },
      )

  count-subscribe_all :
      (p : Subscription Sender → Bool) (client_id : Text) (sender : Sender)
      (asked : List (Text × Qos)) (tree : TopicTree Sender)
      → count p (entries (subscribe_all M D client_id sender asked tree).1.root)
        ≡ count p (entries tree.root) + count (wanted p client_id sender) asked
  unfolding subscribe_all count
  count-subscribe_all p client_id sender [] tree = omega arith
  count-subscribe_all p client_id sender ((filter, q) ∷ rest) tree =
      let s = subscriber_of M D client_id sender in
      elim (Bool-cases (is_valid_topic_filter filter)) [
        | inl v ↦ rw v (
            omega (
              arith,
              count-subscribe_all p client_id sender rest (add tree filter s),
              count-add p tree filter s,
            ))
        | inr v ↦ rw v (omega (arith, count-subscribe_all p client_id sender rest tree))
      ]

  -- A SUBSCRIBE is answered under its identifier with one code for each filter, in order: QoS 1 for
  -- a valid filter, whatever level was requested, and failure for any other. The tree then stores
  -- what it stored before and the valid filters, each for the session's client and its sender, at
  -- QoS 1.
  -- Stated for the number of subscriptions that pass any test `p`.
  pub handle_subscribe_lem :
      (p : Subscription Sender → Bool) (locked : Bool) (without_receiver : Sender)
      (session : Address) (packet : SubscribePacket) (b : Broker M D)
      → let s = b.heap session in
        let result = handle_subscribe M D locked without_receiver session packet b in
        (result.0.packet_id ≡ packet.packet_id)
        × (result.0.return_codes ≡ map code_for packet.subscriptions)
        × (count p (entries result.1.subscriptions.root)
            ≡ count p (entries b.subscriptions.root)
              + count
                  (wanted p s.client_id (sender_of locked without_receiver s))
                  packet.subscriptions)
  unfolding handle_subscribe
  handle_subscribe_lem p locked without_receiver session packet b =
      let s = b.heap session in
      let sender = sender_of locked without_receiver s in
      (
        refl,
        codes-subscribe_all s.client_id sender packet.subscriptions b.subscriptions,
        count-subscribe_all p s.client_id sender packet.subscriptions b.subscriptions,
      )

  -- The subscription is one of a client to one of some filters.
  pub cancelled : Text → List Text → Subscription Sender → Bool
  cancelled client_id [] e = false
  cancelled client_id (filter ∷ rest) e =
      (same_levels e.0 (kept_levels (split filter)) && (e.1.client_id === client_id))
      || cancelled client_id rest e

  left_by-cancelled :
      (p : Subscription Sender → Bool) (client_id filter : Text) (rest : List Text)
      (e : Subscription Sender)
      → left_by
          (kept_levels (split filter))
          client_id
          (λ x. not (cancelled client_id rest x) && p x)
          e
        ≡ (not (cancelled client_id (filter ∷ rest) e) && p e)
  unfolding cancelled
  left_by-cancelled p client_id filter rest e = ground arith

  count-unsubscribe_all :
      (p : Subscription Sender → Bool) (client_id : Text) (filters : List Text)
      (tree : TopicTree Sender)
      → IsWellFormed tree.root
      → count p (entries (unsubscribe_all M D client_id filters tree).root)
        ≡ count (λ e. not (cancelled client_id filters e) && p e) (entries tree.root)
  unfolding unsubscribe_all cancelled
  count-unsubscribe_all p client_id [] tree h = refl
  count-unsubscribe_all p client_id (filter ∷ rest) tree h =
      count-unsubscribe_all p client_id rest (remove tree filter client_id)
        (remove-IsWellFormed tree filter client_id h)
      ∙ count-remove (λ e. not (cancelled client_id rest e) && p e) tree filter client_id h
      ∙ count-ext _ _ (left_by-cancelled p client_id filter rest) (entries tree.root)

  -- After an UNSUBSCRIBE over a well-formed tree, the tree stores what it stored before but for the
  -- subscriptions of the session's client to one of the filters of the packet. Stated for the number
  -- of subscriptions that pass any test `p`.
  pub handle_unsubscribe_lem :
      (p : Subscription Sender → Bool) (session : Address) (packet : UnsubscribePacket)
      (b : Broker M D)
      → IsWellFormed b.subscriptions.root
      → count p (entries (handle_unsubscribe M D session packet b).subscriptions.root)
        ≡ count
            (λ e. not (cancelled (b.heap session).client_id packet.topic_filters e) && p e)
            (entries b.subscriptions.root)
  unfolding handle_unsubscribe
  handle_unsubscribe_lem p session packet b h =
      count-unsubscribe_all p (b.heap session).client_id packet.topic_filters b.subscriptions h
