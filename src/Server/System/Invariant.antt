-- ===== src/Server/System/Invariant.antt =====
-- What holds of the program whenever no handler runs, however the events of its connections
-- interleave.
use opencode_rustquitto.Base.{
  ℕ, ◌<◌, ◌≡◌, ◌∙◌, sym, ap, subst, Bool, Bool-cases, inl, inr, Option, none, some, ◌==◌, arith,
}
use opencode_rustquitto.Error.{Result, ok, err}
use opencode_rustquitto.Extern.Buffer.{BytesMut}
use opencode_rustquitto.Extern.Channel.{Mpsc}
use opencode_rustquitto.Extern.DashMap.{DashMap}
use opencode_rustquitto.Broker.Handlers.{Address}
use opencode_rustquitto.Broker.Handlers.Invariant.Registered.{new-IsBroker}
use opencode_rustquitto.Server.Connection.{World}
use opencode_rustquitto.Server.Connection.Invariant.{
  IsWorld, IsConnection, Grows, Grows-refl, close_connection-Grows,
}
use opencode_rustquitto.Server.Tcp.Loop.{Event, Local, Status, connection_step}
use opencode_rustquitto.Server.Tcp.Loop
use opencode_rustquitto.Server.Tcp.Loop.Closing.{Left, connection_step-Left}
use opencode_rustquitto.Server.Tcp.Invariant.{After-Grows}
use opencode_rustquitto.Server.Ws.Invariant.{WsReturns, ws_step-WsReturns}
use opencode_rustquitto.Server.System.{
  Task, idle, tcp, web, System, place, IsInitial, Step, accept_tcp, accept_ws, tcp_runs,
  tcp_returns, ws_runs, ws_closes, Reach, start, later,
}

module _ (B : BytesMut) (M : Mpsc) (D : DashMap Address) (without_receiver : M.Sender) where
  open B use {Buffer}

  -- The session of a task.
  pub session_of : Task M Buffer → Option Address
  session_of idle = none
  session_of (tcp l) = l.conn.session
  session_of (web l) = l.conn.session

  pub record IsSystem (s : System M D Buffer) : Type 0 where
    pub world : IsWorld M D s.world
    -- The sessions that the tasks hold were created.
    pub tasks : (i : ℕ) (a : Address) → session_of (s.tasks i) ≡ some a → a < s.world.next_address

  IsInitial-IsSystem : (s : System M D Buffer) → IsInitial B M D without_receiver s → IsSystem s
  unfolding session_of
  IsInitial-IsSystem s h = record {
    world = subst (λ w. IsWorld M D w) (sym h.world) (new-IsBroker M D h.heap h.net);
    tasks = λ i a e. absurd (let x = h.tasks i in cc);
  }

  -- A task and the world are replaced.
  placed :
      (s : System M D Buffer) (i : ℕ) (t : Task M Buffer) (w : World M D)
      → Grows M D s.world w
      → ((a : Address) → session_of t ≡ some a → a < w.next_address)
      → IsSystem s
      → IsSystem (record { world = w; tasks = place i t s.tasks })
  unfolding place
  placed s i t w g new h = record {
    world = g.kept h.world;
    tasks = λ j a e. elim (Bool-cases (i == j)) [
      | inl here ↦ new a (rw here at e)
      | inr there ↦ omega (arith, h.tasks j a (rw there at e), g.more)
    ];
  }

  returned-Grows :
      (locked : Bool) (event : Event) (l : Local M Buffer) (w v : World M D)
      (st : Status M D Buffer)
      → Left M D locked without_receiver l.conn w event st
      → (r : Result (Unit {0})) → st ≡ Loop.returned r v
      → Grows M D w v
  returned-Grows locked event l w v (Loop.running l' u) h r e = absurd (cc)
  returned-Grows locked event l w v (Loop.returned (ok x) u) h r e =
      subst (λ y. Grows M D w y) (sym h.1 ∙ cc) (close_connection-Grows M D l.conn w)
  returned-Grows locked event l w v (Loop.returned (err x) u) h r e =
      subst (λ y. Grows M D w y) (cc) (After-Grows M D locked without_receiver l.conn h.0 w u h.1).0

  Step-IsSystem :
      (s t : System M D Buffer) → Step B M D without_receiver s t → IsSystem s → IsSystem t
  unfolding session_of IsConnection
  Step-IsSystem s _ (accept_tcp i e) h =
      placed s i _ s.world (Grows-refl M D s.world) (λ a x. absurd (cc)) h
  Step-IsSystem s _ (accept_ws i e) h =
      placed s i _ s.world (Grows-refl M D s.world) (λ a x. absurd (cc)) h
  Step-IsSystem s _ (tcp_runs i locked event l l' w' at_i e) h =
      let left =
        subst (λ st. Left M D locked without_receiver l.conn s.world event st) e
          (connection_step-Left M D locked without_receiver B l s.world event) in
      let (g, c) = After-Grows M D locked without_receiver l.conn l'.conn s.world w' left in
      placed s i (tcp l') w' g (c (λ a x. h.tasks i a (ap session_of at_i ∙ x))) h
  Step-IsSystem s _ (tcp_returns i locked event l w' r at_i e) h =
      placed s i idle w'
        (returned-Grows locked event l s.world w'
          (connection_step B M D locked without_receiver event l s.world)
          (connection_step-Left M D locked without_receiver B l s.world event) r e)
        (λ a x. absurd (cc)) h
  Step-IsSystem s _ (ws_runs i locked event l l' w' at_i e) h =
      let (g, c) =
        subst (λ st. WsReturns M D locked without_receiver l.conn s.world st) e
          (ws_step-WsReturns M D locked without_receiver B l s.world event) in
      placed s i (web l') w' g (c (λ a x. h.tasks i a (ap session_of at_i ∙ x))) h
  Step-IsSystem s _ (ws_closes i locked event l w' at_i e) h =
      placed s i idle w'
        (subst (λ st. WsReturns M D locked without_receiver l.conn s.world st) e
          (ws_step-WsReturns M D locked without_receiver B l s.world event))
        (λ a x. absurd (cc)) h

  -- Whatever connections come and go and however their events interleave: every session that is
  -- found is found under the name of its client and was created before; no connection holds a session
  -- that was not created; every session has a 16-bit counter, and keeps in flight only messages under
  -- their own identifier and QoS; and the tree is well-formed.
  pub Reach-IsSystem : (s : System M D Buffer) → Reach B M D without_receiver s → IsSystem s
  Reach-IsSystem s (start h) = IsInitial-IsSystem s h
  Reach-IsSystem s (later {s = r} before step) = Step-IsSystem r s step (Reach-IsSystem r before)
