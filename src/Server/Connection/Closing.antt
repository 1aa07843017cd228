-- ===== src/Server/Connection/Closing.antt =====
-- What the end of a connection of src/server/tcp.rs or src/server/ws.rs does to the broker.
use opencode_rustquitto.Base.{
  ◌≡◌, refl, ◌∙◌, ap, Bool, ◌&&◌, Option, none, some, if◌then◌else◌, ◌===◌,
}
use opencode_rustquitto.Base.Count.{count}
use opencode_rustquitto.Extern.Channel.{Mpsc}
use opencode_rustquitto.Extern.DashMap.{DashMap}
use opencode_rustquitto.Text.{Text}
use opencode_rustquitto.Broker.Subscriptions.{of_other}
use opencode_rustquitto.Broker.Subscriptions.Entries.{Subscription, entries}
use opencode_rustquitto.Broker.Handlers.{Address, get_session, handle_disconnect}
use opencode_rustquitto.Broker.Handlers.Leaving.{get-handle_disconnect, handle_disconnect_lem}
use opencode_rustquitto.Server.Connection.{
  Connection, World, drop_rx, with_session, close_connection,
}

module _ (M : Mpsc) (D : DashMap Address) where
  -- From `w` to `v`, the client of the session was forgotten, and nobody else.
  pub record Forgets (session : Address) (w v : World M D) : Type 0 where
    pub sessions :
        (k : Text)
        → get_session M D v.broker k
          ≡ (if (w.broker.heap session).client_id === k then none else get_session M D w.broker k)
    pub subscriptions :
        (p : Subscription M.Sender → Bool)
        → count p (entries v.broker.subscriptions.root)
          ≡ count
              (λ e. of_other (w.broker.heap session).client_id e.1 && p e)
              (entries w.broker.subscriptions.root)

  -- The two worlds differ in their channels at most.
  pub record SameBut (w v : World M D) : Type 0 where
    pub sessions : v.broker.sessions ≡ w.broker.sessions
    pub subscriptions : v.broker.subscriptions ≡ w.broker.subscriptions
    pub heap : v.broker.heap ≡ w.broker.heap
    pub next_address : v.next_address ≡ w.next_address

  pub SameBut-refl : (w : World M D) → SameBut w w
  SameBut-refl w = record {
    sessions = refl;
    subscriptions = refl;
    heap = refl;
    next_address = refl;
  }

  pub drop_rx-SameBut : (rx : Option M.Receiver) (w : World M D) → SameBut w (drop_rx M D rx w)
  unfolding drop_rx
  drop_rx-SameBut none w = SameBut-refl w
  drop_rx-SameBut (some rx) w = record {
    sessions = refl;
    subscriptions = refl;
    heap = refl;
    next_address = refl;
  }

  pub SameBut-trans : (u v w : World M D) → SameBut u v → SameBut v w → SameBut u w
  SameBut-trans u v w e f = record {
    sessions = f.sessions ∙ e.sessions;
    subscriptions = f.subscriptions ∙ e.subscriptions;
    heap = f.heap ∙ e.heap;
    next_address = f.next_address ∙ e.next_address;
  }

  Forgets-SameBut : (a : Address) (w v u : World M D) → Forgets a w v → SameBut v u → Forgets a w u
  unfolding get_session
  Forgets-SameBut a w v u f e = record {
    sessions = λ k. ap (λ m. D.get m k) e.sessions ∙ f.sessions k;
    subscriptions = λ p. ap (λ t. count p (entries t.root)) e.subscriptions ∙ f.subscriptions p;
  }

  disconnected-Forgets :
      (a : Address) (w v : World M D)
      → SameBut w v
      → Forgets a w (record v { broker = handle_disconnect M D a v.broker })
  unfolding get_session
  disconnected-Forgets a w v e = record {
    sessions = λ k.
        get-handle_disconnect M D a v.broker k
        ∙ (λ i. if (e.heap i a).client_id === k then none else D.get (e.sessions i) k);
    subscriptions = λ p. (handle_disconnect_lem M D p a v.broker).2 ∙ (λ i.
        count (λ s. of_other (e.heap i a).client_id s.1 && p s) (entries (e.subscriptions i).root));
  }

  -- The end of a connection with a session, in a world that has changed in its channels at most.
  pub close_connection-Forgets :
      (conn : Connection M) (a : Address) (w v : World M D)
      → conn.session ≡ some a
      → SameBut w v
      → Forgets a w (close_connection M D conn v)
  unfolding close_connection with_session get_session
  close_connection-Forgets conn a w v h e = rw h (
      Forgets-SameBut a w (record v { broker = handle_disconnect M D a v.broker })
        (drop_rx M D conn.out_rx (record v { broker = handle_disconnect M D a v.broker }))
        (disconnected-Forgets a w v e)
        (drop_rx-SameBut conn.out_rx (record v { broker = handle_disconnect M D a v.broker })))
