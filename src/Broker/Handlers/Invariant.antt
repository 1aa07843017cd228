-- ===== src/Broker/Handlers/Invariant.antt =====
-- What holds of the broker of src/broker/mod.rs between two calls of its handlers.
pub mod Preserved
pub mod Registered
use opencode_rustquitto.Base.{
  ℕ, suc, ◌+◌, ◌%◌, ◌≤◌, ◌<◌, ◌≡◌, refl, ◌∙◌, sym, ap, subst, Bool, true, false, Bool-cases, inl,
  inr, Option, none, some, List, [], ◌∷◌, ◌==◌, ◌===◌, ===_iff, if◌then◌else◌, arith,
}
use opencode_rustquitto.Extern.Channel.{Mpsc}
use opencode_rustquitto.Extern.DashMap.{DashMap}
use opencode_rustquitto.Text.{Text}
use opencode_rustquitto.Protocol.Qos.{Qos, at_most_once, at_least_once, exactly_once, min_qos}
use opencode_rustquitto.Protocol.Qos
use opencode_rustquitto.Protocol.Types.{
  Packet, PacketId, PublishPacket, SubscribePacket, UnsubscribePacket,
}
use opencode_rustquitto.Broker.Filter.{is_valid_topic_filter}
use opencode_rustquitto.Broker.Subscriptions.{
  Subscriber, TopicTree, add, remove, remove_all_for_client, matches,
}
use opencode_rustquitto.Broker.Subscriptions.WellFormed.{
  IsWellFormed, operations-AreWellFormed, remove-IsWellFormed,
}
use opencode_rustquitto.Broker.Session.{Session, sender_of}
use opencode_rustquitto.Broker.Session
use opencode_rustquitto.Broker.Session.Invariant.{
  IsSession, KeepsSession, new-IsSession, acknowledged, enqueue_publish-KeepsSession,
}
use opencode_rustquitto.Broker.Handlers.{
  Address, Broker, store, register_session, remove_session, get_session, enqueue_to, publish_to,
  publish_to_all, handle_publish, subscribe_all, subscriber_of, handle_subscribe, unsubscribe_all,
  handle_unsubscribe, handle_disconnect, handle_puback, reply, handle_pubrec, handle_pubrel,
  handle_pubcomp,
}

module _ (M : Mpsc) (D : DashMap Address) where
  -- The sessions live below the address `n`.
  pub record IsBroker (n : Address) (b : Broker M D) : Type 0 where
    -- A session that is found was created, and is found under its client's name.
    pub named :
        (k : Text) (a : Address)
        → get_session M D b k ≡ some a
        → (a < n) × ((b.heap a).client_id ≡ k)
    pub sessions_hold : (a : Address) → a < n → IsSession (b.heap a)
    pub tree : IsWellFormed b.subscriptions.root

  pub record Keeps (n : Address) (b b' : Broker M D) : Type 0 where
    pub kept : IsBroker n b → IsBroker n b'
    pub names : (a : Address) → (b'.heap a).client_id ≡ (b.heap a).client_id

  module _ (n : Address) where
    pub Keeps-refl : (b : Broker M D) → Keeps n b b
    Keeps-refl b = record { kept = λ h. h; names = λ a. refl }

    pub Keeps-trans : (a b c : Broker M D) → Keeps n a b → Keeps n b c → Keeps n a c
    Keeps-trans a b c f g = record {
      kept = λ h. g.kept (f.kept h);
      names = λ r. g.names r ∙ f.names r;
    }

    pub Keeps-net : (net : M.Network) (b : Broker M D) → Keeps n b (record b { net = net })
    unfolding get_session
    Keeps-net net b = record {
      kept = λ h. record { named = h.named; sessions_hold = h.sessions_hold; tree = h.tree };
      names = λ a. refl;
    }

    pub Keeps-tree :
        (tree : TopicTree M.Sender) (b : Broker M D)
        → (IsWellFormed b.subscriptions.root → IsWellFormed tree.root)
        → Keeps n b (record b { subscriptions = tree })
    unfolding get_session
    Keeps-tree tree b f = record {
      kept = λ h. record { named = h.named; sessions_hold = h.sessions_hold; tree = f h.tree };
      names = λ a. refl;
    }

    store_client :
        (session a : Address) (s : Session M.Sender) (heap : Address → Session M.Sender)
        → KeepsSession (heap session) s
        → (store session s heap a).client_id ≡ (heap a).client_id
    unfolding store
    store_client session a s heap k =
        let same = k.client_id in
        elim (Bool-cases (session == a)) [
          | inl here ↦ rw here (same ∙ ap (λ r. (heap r).client_id) (ground (arith, here)))
          | inr there ↦ rw there refl
        ]

    store_session :
        (session a : Address) (s : Session M.Sender) (heap : Address → Session M.Sender)
        → KeepsSession (heap session) s
        → IsSession (heap a)
        → IsSession (store session s heap a)
    unfolding store
    store_session session a s heap k h = elim (Bool-cases (session == a)) [
      | inl here ↦
          let same : session ≡ a = ground (arith, here) in
          rw here (k.kept (subst (λ r. IsSession (heap r)) (sym same) h))
      | inr there ↦ rw there h
    ]

    pub Keeps-store :
        (session : Address) (s : Session M.Sender) (b : Broker M D)
        → KeepsSession (b.heap session) s
        → Keeps n b (record b { heap = store session s b.heap })
    unfolding get_session
    Keeps-store session s b k = record {
      kept = λ h. record {
        named = λ c a g.
            let (small, same) = h.named c a g in (small, store_client session a s b.heap k ∙ same);
        sessions_hold = λ a lt. store_session session a s b.heap k (h.sessions_hold a lt);
        tree = h.tree;
      };
      names = λ a. store_client session a s b.heap k;
    }
