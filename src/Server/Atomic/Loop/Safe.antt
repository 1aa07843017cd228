-- ===== src/Server/Atomic/Loop/Safe.antt =====
-- What every atomic action of a connection of src/server/tcp.rs keeps.
use opencode_rustquitto.Base.{
  ℕ, zero, suc, Bool, Option, none, some, List, [], ◌∷◌, length, Bytes, arith,
}
use opencode_rustquitto.Error.{Result, ok, err, BrokerError, io}
use opencode_rustquitto.Extern.Buffer.{BytesMut}
use opencode_rustquitto.Extern.Channel.{Mpsc}
use opencode_rustquitto.Extern.DashMap.{DashMap}
use opencode_rustquitto.Protocol.Types.{Packet}
use opencode_rustquitto.Protocol.Encode.{encode}
use opencode_rustquitto.Broker.Handlers.{Address}
use opencode_rustquitto.Broker.Handlers.Invariant.{Keeps-net}
use opencode_rustquitto.Server.Connection.{Connection, World, drop_rx}
use opencode_rustquitto.Server.Connection.Invariant.{Grows, Grows-refl, Grows-Keeps, drop_rx-Grows}
use opencode_rustquitto.Server.Extract.{extract_packet}
use opencode_rustquitto.Server.Tcp.Loop.{Event, received, read_failed, outgoing, Local}
use opencode_rustquitto.Server.Atomic.{done, act}
use opencode_rustquitto.Server.Atomic.Handlers.{Task, handle_disconnect}
use opencode_rustquitto.Server.Atomic.Packets.{with_session, handle_packet}
use opencode_rustquitto.Server.Atomic.Safe.{Any, Safe, Stays, Safe-bind}
use opencode_rustquitto.Server.Atomic.Safe.Handlers.{Safe-handle_disconnect}
use opencode_rustquitto.Server.Atomic.Safe.Packets.{
  Created, Returned, Safe-with_session, Safe-handle_packet,
}
use opencode_rustquitto.Server.Atomic.Loop.{
  Served, waiting, failed, Turned, running, returned, close_connection, fails, on_handled,
  on_extracted, serve_loop, serve, on_served, on_written, on_encoded, on_received, leaves,
  on_channel, connection_turn, on_turned, connection,
}

module _ (B : BytesMut) (M : Mpsc) (D : DashMap Address) (without_receiver : M.Sender) where
  open B use {Buffer, contents, put}

  -- The session of a connection that goes on was created.
  abbrev pub Waits : ℕ → Served M Buffer → Type 0
  Waits n (waiting buf conn) = Created M D n conn.session
  Waits n (failed e) = Unit {0}

  abbrev pub Runs : ℕ → Turned M Buffer → Type 0
  Runs n (running l) = Created M D n l.conn.session
  Runs n (returned r) = Unit {0}

  pub Runs-Stays : Stays M D Runs
  Runs-Stays n m (running l) le q = λ a e. omega (arith, q a e, le)
  Runs-Stays n m (returned r) le q = tt

  Safe-close_connection :
      (n : ℕ) (conn : Connection M) → Safe M D Any n (close_connection B M D without_receiver conn)
  unfolding close_connection
  Safe-close_connection n conn =
      Safe-bind M D Any Any n (with_session M D (λ s. handle_disconnect M D s) conn.session)
        (λ u. act (drop_rx M D conn.out_rx) (λ w. done tt))
        (Safe-with_session M D n (λ s. handle_disconnect M D s) conn.session
          (λ s. Safe-handle_disconnect M D n s))
        (λ m u le q. λ w h lw. (drop_rx-Grows M D conn.out_rx w, tt))

  Safe-fails :
      (n : ℕ) (e : BrokerError) (conn : Connection M)
      → Safe M D Runs n (fails B M D without_receiver e conn)
  Safe-fails n e conn = λ w h le. (drop_rx-Grows M D conn.out_rx w, tt)

  module _ (locked : Bool) where
    Safe-on_handled :
        (rest : Connection M → Task M D (Served M Buffer)) (n : ℕ) (o : Result (Connection M × ℕ))
        → ((c : Connection M) → Created M D n c.session → Safe M D Waits n (rest c))
        → Returned M D n o
        → Safe M D Waits n (on_handled B M D without_receiver locked rest o)
    Safe-on_handled rest n (err e) s q = tt
    Safe-on_handled rest n (ok (conn, k)) s q = s conn q

    Safe-on_extracted :
        (rest : Buffer → Connection M → Task M D (Served M Buffer)) (n : ℕ)
        (x : Option (Result Packet) × Buffer) (conn : Connection M)
        → ((m : ℕ) (b : Buffer) (c : Connection M)
            → Created M D m c.session
            → Safe M D Waits m (rest b c))
        → Created M D n conn.session
        → Safe M D Waits n (on_extracted B M D without_receiver locked rest x conn)
    Safe-on_extracted rest n (none, buf) conn s c = c
    Safe-on_extracted rest n (some (err e), buf) conn s c =
        λ w h le. (drop_rx-Grows M D conn.out_rx w, tt)
    Safe-on_extracted rest n (some (ok packet), buf) conn s c =
        Safe-bind M D (Returned M D) Waits n (handle_packet M D locked without_receiver conn packet)
          (on_handled B M D without_receiver locked (rest buf))
          (Safe-handle_packet M D locked without_receiver n conn packet c)
          (λ m o le q. Safe-on_handled (rest buf) m o (λ b. s m buf b) q)

    Safe-serve_loop :
        (fuel n : ℕ) (buf : Buffer) (conn : Connection M)
        → Created M D n conn.session
        → Safe M D Waits n (serve_loop B M D without_receiver locked fuel buf conn)
    unfolding serve_loop
    Safe-serve_loop zero n buf conn c = tt
    Safe-serve_loop (suc fuel) n buf conn c =
        Safe-on_extracted (λ b d. serve_loop B M D without_receiver locked fuel b d) n
          (extract_packet B buf) conn (λ m b d. Safe-serve_loop fuel m b d) c

  Safe-on_served :
      (n : ℕ) (l : Local M Buffer) (s : Served M Buffer)
      → Waits n s
      → Safe M D Runs n (on_served B M D without_receiver l s)
  Safe-on_served n l (waiting buf conn) q = q
  Safe-on_served n l (failed e) q = tt

  Safe-on_written :
      (n : ℕ) (failure : Option ℕ) (bytes : Bytes) (l : Local M Buffer)
      → Created M D n l.conn.session
      → Safe M D Runs n (on_written B M D without_receiver failure bytes l)
  Safe-on_written n none bytes l c = c
  Safe-on_written n (some e) bytes l c = Safe-fails n (io e) l.conn

  Safe-on_encoded :
      (n : ℕ) (failure : Option ℕ) (r : Result Buffer) (l : Local M Buffer)
      → Created M D n l.conn.session
      → Safe M D Runs n (on_encoded B M D without_receiver failure r l)
  Safe-on_encoded n failure (err e) l c = Safe-fails n e l.conn
  Safe-on_encoded n failure (ok out) l c = Safe-on_written n failure (contents out) l c

  Safe-on_received :
      (n : ℕ) (failure : Option ℕ) (o : Option Packet) (l : Local M Buffer)
      → Created M D n l.conn.session
      → Safe M D Runs n (on_received B M D without_receiver failure o l)
  Safe-on_received n failure none l c = c
  Safe-on_received n failure (some packet) l c = Safe-on_encoded n failure (encode B packet) l c

  leaves-Grows :
      (r : Option Packet × M.Network) (w : World M D)
      → Grows M D w (leaves B M D without_receiver r w)
  leaves-Grows (none, net) w = Grows-refl M D w
  leaves-Grows (some packet, net) w =
      Grows-Keeps M D w (record w.broker { net = net }) (Keeps-net M D w.next_address net w.broker)

  Safe-on_channel :
      (n : ℕ) (failure : Option ℕ) (o : Option M.Receiver) (l : Local M Buffer)
      → Created M D n l.conn.session
      → Safe M D Runs n (on_channel B M D without_receiver failure o l)
  Safe-on_channel n failure none l c = c
  Safe-on_channel n failure (some rx) l c = λ w h le.
      let r = M.recv w.broker.net rx in
      let g = leaves-Grows r w in
      (
        g,
        Safe-on_received (leaves B M D without_receiver r w).next_address failure r.0 l
            (λ a e. omega (arith, c a e, le, g.more)),
      )

  Safe-connection_turn :
      (locked : Bool) (n : ℕ) (event : Event) (l : Local M Buffer)
      → Created M D n l.conn.session
      → Safe M D Runs n (connection_turn B M D without_receiver locked event l)
  unfolding connection_turn serve
  Safe-connection_turn locked n (received []) l c =
      Safe-bind M D Any Runs n (close_connection B M D without_receiver l.conn)
        (λ u. done (returned (ok tt))) (Safe-close_connection n l.conn) (λ m u le q. tt)
  Safe-connection_turn locked n (received (x ∷ xs)) l c =
      let buf = put l.buf (x ∷ xs) in
      Safe-bind M D Waits Runs n (serve B M D without_receiver locked buf l.conn)
        (on_served B M D without_receiver l)
        (Safe-serve_loop locked (suc (length (contents buf))) n buf l.conn c)
        (λ m s le q. Safe-on_served m l s q)
  Safe-connection_turn locked n (read_failed e) l c = Safe-fails n (io e) l.conn
  Safe-connection_turn locked n (outgoing failure) l c = Safe-on_channel n failure l.conn.out_rx l c

  Safe-on_turned :
      (next : Local M Buffer → Task M D (Turned M Buffer)) (n : ℕ) (t : Turned M Buffer)
      → ((l : Local M Buffer) → Created M D n l.conn.session → Safe M D Runs n (next l))
      → Runs n t
      → Safe M D Runs n (on_turned B M D without_receiver next t)
  Safe-on_turned next n (running l) s q = s l q
  Safe-on_turned next n (returned r) s q = tt

  pub Safe-connection :
      (n : ℕ) (events : List (Bool × Event)) (l : Local M Buffer)
      → Created M D n l.conn.session
      → Safe M D Runs n (connection B M D without_receiver events l)
  unfolding connection
  Safe-connection n [] l c = c
  Safe-connection n ((locked, event) ∷ events) l c =
      Safe-bind M D Runs Runs n (connection_turn B M D without_receiver locked event l)
        (on_turned B M D without_receiver (connection B M D without_receiver events))
        (Safe-connection_turn locked n event l c)
        (λ m t le q.
          Safe-on_turned (connection B M D without_receiver events) m t
            (λ k d. Safe-connection m events k d) q)
