-- ===== src/Server/Tcp/Invariant.antt =====
-- What `handle_packet` of src/server/tcp.rs keeps.
use opencode_rustquitto.Base.{ℕ, ◌≡◌, ◌∙◌, sym, ap, subst, Bool, arith}
use opencode_rustquitto.Error.{Result, ok, err}
use opencode_rustquitto.Extern.Channel.{Mpsc}
use opencode_rustquitto.Extern.DashMap.{DashMap}
use opencode_rustquitto.Protocol.Types.{Packet}
use opencode_rustquitto.Broker.Session.Invariant.{IsSession}
use opencode_rustquitto.Broker.Subscriptions.WellFormed.{IsWellFormed}
use opencode_rustquitto.Broker.Handlers.{
  Address, Broker, get_session, reply, handle_puback, handle_pubrec, handle_pubrel, handle_pubcomp,
  handle_disconnect,
}
use opencode_rustquitto.Broker.Handlers.Invariant.{Keeps}
use opencode_rustquitto.Broker.Handlers.Invariant.Preserved.{
  handle_puback-Keeps, handle_pubrec-Keeps, handle_pubrel-Keeps, handle_pubcomp-Keeps, reply-Keeps,
}
use opencode_rustquitto.Server.Connection.{
  Connection, World, drop_rx, on_broker, with_session, answer_publish, answer_subscribe,
  answer_unsubscribe, connect_session,
}
use opencode_rustquitto.Server.Connection.Invariant.{
  IsConnection, IsConnection-Grows, Grows, Grows-refl, Grows-trans, Grows-Keeps, drop_rx-Grows,
  with_session-Keeps, answer_publish-Keeps, answer_subscribe-Keeps, answer_unsubscribe-Keeps,
  disconnect-Grows, connect_session-Grows,
}
use opencode_rustquitto.Server.Tcp.{handle_packet, keep_connection}
use opencode_rustquitto.Server.Connection.Closing.{SameBut}
use opencode_rustquitto.Server.Tcp.Handled.{Handled, done, next, After, after}

module _ (M : Mpsc) (D : DashMap Address) (locked : Bool) (without_receiver : M.Sender) where
  -- The connection that a result returns is one, in the world that it leaves.
  abbrev pub Returns : Connection M → World M D → Result (Connection M × ℕ) × World M D → Type 0
  Returns conn w (err e, v) = Grows M D w v
  Returns conn w (ok (conn', k), v) =
      Grows M D w v × (IsConnection M D conn w → IsConnection M D conn' v)

  changed :
      (f : Broker M D → Broker M D) (conn : Connection M) (w : World M D)
      → Keeps M D w.next_address w.broker (f w.broker)
      → Returns conn w (keep_connection M D locked without_receiver f conn w)
  changed f conn w k =
      let g = Grows-Keeps M D w (f w.broker) k in
      (g, IsConnection-Grows M D conn w (record w { broker = f w.broker }) g)

  with_changed :
      (f : Address → Broker M D → Broker M D) (conn : Connection M) (w : World M D)
      → ((s : Address) → Keeps M D w.next_address w.broker (f s w.broker))
      → Returns conn w
          (keep_connection M D locked without_receiver (with_session M D f conn.session) conn w)
  with_changed f conn w k =
      changed (with_session M D f conn.session) conn w
        (with_session-Keeps M D w.next_address f conn.session w.broker k)

  pub handle_packet-Returns :
      (conn : Connection M) (packet : Packet) (w : World M D)
      → Returns conn w (handle_packet M D locked without_receiver conn packet w)
  unfolding handle_packet IsConnection
  handle_packet-Returns conn (Packet.connect p) w =
      let (g, e) = connect_session-Grows M D locked without_receiver p w in
      let v = (connect_session M D locked without_receiver p w).1 in
      let d = drop_rx-Grows M D conn.out_rx v in
      (
        Grows-trans M D w v (drop_rx M D conn.out_rx v) g d,
        λ h a same. omega (arith, d.more, e, (let last : w.next_address ≡ a = cc in last)),
      )
  handle_packet-Returns conn (Packet.connack p) w = drop_rx-Grows M D conn.out_rx w
  handle_packet-Returns conn (Packet.publish p) w =
      changed (answer_publish M D locked without_receiver p.qos conn.session p) conn w (
        answer_publish-Keeps M D w.next_address locked without_receiver p.qos conn.session p
          w.broker)
  handle_packet-Returns conn (Packet.puback id) w =
      with_changed (λ s b. handle_puback M D s id b) conn w
        (λ s. handle_puback-Keeps M D w.next_address s id w.broker)
  handle_packet-Returns conn (Packet.pubrec id) w =
      with_changed (λ s b. handle_pubrec M D locked without_receiver s id b) conn w
        (λ s. handle_pubrec-Keeps M D w.next_address locked without_receiver s id w.broker)
  handle_packet-Returns conn (Packet.pubrel id) w =
      with_changed (λ s b. handle_pubrel M D locked without_receiver s id b) conn w
        (λ s. handle_pubrel-Keeps M D w.next_address locked without_receiver s id w.broker)
  handle_packet-Returns conn (Packet.pubcomp id) w =
      with_changed (λ s b. handle_pubcomp M D s id b) conn w
        (λ s. handle_pubcomp-Keeps M D w.next_address s id w.broker)
  handle_packet-Returns conn (Packet.subscribe p) w =
      with_changed (answer_subscribe M D locked without_receiver p) conn w
        (λ s. answer_subscribe-Keeps M D w.next_address locked without_receiver p s w.broker)
  handle_packet-Returns conn (Packet.suback p) w = drop_rx-Grows M D conn.out_rx w
  handle_packet-Returns conn (Packet.unsubscribe p) w =
      with_changed (answer_unsubscribe M D locked without_receiver p) conn w
        (λ s. answer_unsubscribe-Keeps M D w.next_address locked without_receiver p s w.broker)
  handle_packet-Returns conn (Packet.unsuback p) w = drop_rx-Grows M D conn.out_rx w
  handle_packet-Returns conn Packet.pingreq w =
      with_changed (λ s b. reply M D locked without_receiver s Packet.pingresp b) conn w
        (λ s. reply-Keeps M D w.next_address locked without_receiver s Packet.pingresp w.broker)
  handle_packet-Returns conn Packet.pingresp w = drop_rx-Grows M D conn.out_rx w
  handle_packet-Returns conn Packet.disconnect w =
      let v = on_broker M D (with_session M D (λ s b. handle_disconnect M D s b) conn.session) w in
      (
        Grows-trans M D w v (drop_rx M D conn.out_rx v) (disconnect-Grows M D conn.session w)
            (drop_rx-Grows M D conn.out_rx v),
        λ h a same. absurd (cc),
      )

  pub Handled-Grows :
      (conn conn' : Connection M) (w w' : World M D)
      → Handled M D locked without_receiver conn w conn' w'
      → Grows M D w w' × (IsConnection M D conn w → IsConnection M D conn' w')
  Handled-Grows conn conn' w w' (done e f) = (
    subst (λ v. Grows M D w v) f (Grows-refl M D w),
    subst (λ (s : Connection M × World M D). IsConnection M D s.0 s.1) (λ i. (e i, f i)),
  )
  Handled-Grows conn conn' w w' (next {conn₁ = c} {w₁ = v} packet k e r) =
      let (g, c₁) = subst (λ s. Returns conn w s) e (handle_packet-Returns conn packet w) in
      let (g₂, c₂) = Handled-Grows c conn' v w' r in (Grows-trans M D w v w' g g₂, λ h. c₂ (c₁ h))

  SameBut-Grows : (w v : World M D) → SameBut M D w v → Grows M D w v
  unfolding get_session
  SameBut-Grows w v e = record {
    kept = λ h. record {
      named = λ k a g.
          let (below, same) = h.named k a (ap (λ m. D.get m k) (sym e.sessions) ∙ g) in
          (rw e.next_address below, ap (λ m. (m a).client_id) e.heap ∙ same);
      sessions_hold = λ a lt.
          subst (λ m. IsSession (m a)) (sym e.heap)
            (h.sessions_hold a (omega (arith, lt, e.next_address)));
      tree = subst (λ t. IsWellFormed t.root) (sym e.subscriptions) h.tree;
    };
    more = omega (arith, e.next_address);
    names = λ a lt. ap (λ m. (m a).client_id) e.heap;
  }

  pub After-Grows :
      (conn conn' : Connection M) (w v : World M D)
      → After M D locked without_receiver conn w conn' v
      → Grows M D w v × (IsConnection M D conn w → IsConnection M D conn' v)
  After-Grows conn conn' w v (after w' r same) =
      let (g, c) = Handled-Grows conn conn' w w' r in
      let s = SameBut-Grows w' v same in
      (Grows-trans M D w w' v g s, λ h. IsConnection-Grows M D conn' w' v s (c h))
