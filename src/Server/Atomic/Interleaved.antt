-- ===== src/Server/Atomic/Interleaved.antt =====
-- Connections of src/server/tcp.rs, each in its own task: their atomic actions follow one another in any
-- order.
mod Tests
use opencode_rustquitto.Base.{ℕ, ◌≡◌, subst, Bool, List}
use opencode_rustquitto.Extern.Buffer.{BytesMut}
use opencode_rustquitto.Extern.Channel.{Mpsc}
use opencode_rustquitto.Extern.DashMap.{DashMap}
use opencode_rustquitto.Broker.Handlers.{Address}
use opencode_rustquitto.Server.Connection.{World}
use opencode_rustquitto.Server.Connection.Invariant.{IsWorld, IsConnection, Grows}
use opencode_rustquitto.Server.Tcp.Loop.{Event, Local}
use opencode_rustquitto.Server.Atomic.{done}
use opencode_rustquitto.Server.Atomic.Safe.{Safe, interleave, interleave-Safe}
use opencode_rustquitto.Server.Atomic.Loop.{running, connection}
use opencode_rustquitto.Server.Atomic.Loop.Safe.{Runs, Runs-Stays, Safe-connection}

module _ (B : BytesMut) (M : Mpsc) (D : DashMap Address) (without_receiver : M.Sender) where
  open B use {Buffer}

  -- From a world that keeps the invariant, with TCP connections whose sessions were created, the events
  -- of all connections are handled in tasks whose atomic actions interleave by any schedule. Then the
  -- invariant holds after every action, no session has changed its client, and the session of a
  -- connection that goes on after its events was created.
  pub interleaved_connections :
      (events : ℕ → List (Bool × Event)) (locals : ℕ → Local M Buffer) (schedule : List ℕ)
      (w : World M D)
      → IsWorld M D w
      → ((i : ℕ) → IsConnection M D (locals i).conn w)
      → let (tasks, v) =
          interleave M D schedule
            (λ i. connection B M D without_receiver (events i) (locals i))
            w in
        IsWorld M D v
        × Grows M D w v
        × ((i : ℕ) (l : Local M Buffer) → tasks i ≡ done (running l) → IsConnection M D l.conn v)
  unfolding IsConnection
  interleaved_connections events locals schedule w h c =
      let tasks = λ (i : ℕ). connection B M D without_receiver (events i) (locals i) in
      let (g, safe) =
        interleave-Safe M D (Runs B M D without_receiver) schedule tasks w
          (Runs-Stays B M D without_receiver) h
          (λ i.
            Safe-connection B M D without_receiver w.next_address (events i) (locals i) (c i)) in
      (
        g.kept h,
        g,
        λ i l e.
            subst
              (λ p.
                Safe M D (Runs B M D without_receiver)
                  (interleave M D schedule tasks w).1.next_address p)
              e (safe i),
      )
