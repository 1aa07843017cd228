-- ===== src/Server/Atomic/Loop/Agree.antt =====
-- Without interruption, the atomic actions of a connection of src/server/tcp.rs do what each event does
-- in one step.
use opencode_rustquitto.Base.{
  ℕ, Bytes, zero, suc, ◌≡◌, refl, ap, ◌∙◌, Bool, Option, none, some, [], ◌∷◌, length,
}
use opencode_rustquitto.Error.{Result, ok, err}
use opencode_rustquitto.Extern.Buffer.{BytesMut}
use opencode_rustquitto.Extern.Channel.{Mpsc}
use opencode_rustquitto.Extern.DashMap.{DashMap}
use opencode_rustquitto.Protocol.Types.{Packet}
use opencode_rustquitto.Protocol.Encode.{encode}
use opencode_rustquitto.Broker.Handlers.{Address}
use opencode_rustquitto.Server.Connection.{Connection, World, on_broker}
use opencode_rustquitto.Server.Connection
use opencode_rustquitto.Server.Extract.{extract_packet}
use opencode_rustquitto.Server.Tcp
use opencode_rustquitto.Server.Tcp.Loop.{Event, received, read_failed, outgoing, Local}
use opencode_rustquitto.Server.Tcp.Loop as Tcp_loop
use opencode_rustquitto.Server.Atomic.{done, act, run, run-bind}
use opencode_rustquitto.Server.Atomic.Handlers.{Task, handle_disconnect}
use opencode_rustquitto.Server.Atomic.Packets.{with_session, handle_packet}
use opencode_rustquitto.Server.Atomic.Agree.Answers.{run-left}
use opencode_rustquitto.Server.Atomic.Agree.Packets.{run-handle_packet}
use opencode_rustquitto.Server.Atomic.Loop.{
  Served, waiting, failed, Turned, running, returned, close_connection, on_handled, on_extracted,
  serve_loop, serve, on_served, on_written, on_encoded, on_received, leaves, on_channel,
  connection_turn,
}

module _ (B : BytesMut) (M : Mpsc) (D : DashMap Address) (without_receiver : M.Sender)
    (locked : Bool) where
  open B use {Buffer, contents, put}

  -- The result and the world of a step.
  abbrev pub served_apart : Tcp_loop.Served M D Buffer → Served M Buffer × World M D
  served_apart (Tcp_loop.waiting buf conn w) = (waiting buf conn, w)
  served_apart (Tcp_loop.failed e w) = (failed e, w)

  abbrev pub apart : Tcp_loop.Status M D Buffer → Turned M Buffer × World M D
  apart (Tcp_loop.running l w) = (running l, w)
  apart (Tcp_loop.returned r w) = (returned r, w)

  run-on_handled :
      (rest : Connection M → Task M D (Served M Buffer))
      (rest' : Connection M → World M D → Tcp_loop.Served M D Buffer)
      (o : Result (Connection M × ℕ) × World M D)
      → ((c : Connection M) (v : World M D) → run (rest c) v ≡ served_apart (rest' c v))
      → run (on_handled B M D without_receiver locked rest o.0) o.1
        ≡ served_apart (Tcp_loop.on_handled B M D locked without_receiver rest' o)
  unfolding run
  run-on_handled rest rest' (err e, w) h = refl
  run-on_handled rest rest' (ok (conn, k), w) h = h conn w

  run-on_extracted :
      (rest : Buffer → Connection M → Task M D (Served M Buffer))
      (rest' : Buffer → Connection M → World M D → Tcp_loop.Served M D Buffer)
      (x : Option (Result Packet) × Buffer) (conn : Connection M) (w : World M D)
      → ((b : Buffer) (c : Connection M) (v : World M D)
          → run (rest b c) v ≡ served_apart (rest' b c v))
      → run (on_extracted B M D without_receiver locked rest x conn) w
        ≡ served_apart (Tcp_loop.on_extracted B M D locked without_receiver rest' x conn w)
  unfolding run
  run-on_extracted rest rest' (none, buf) conn w h = refl
  run-on_extracted rest rest' (some (err e), buf) conn w h = refl
  run-on_extracted rest rest' (some (ok packet), buf) conn w h =
      run-bind (handle_packet M D locked without_receiver conn packet)
        (on_handled B M D without_receiver locked (rest buf)) w
      ∙ ap
          (λ (o : Result (Connection M × ℕ) × World M D).
            run (on_handled B M D without_receiver locked (rest buf) o.0) o.1)
          (run-handle_packet M D locked without_receiver conn packet w)
      ∙ run-on_handled (rest buf) (rest' buf)
          (Tcp.handle_packet M D locked without_receiver conn packet w) (λ c v. h buf c v)

  run-serve_loop :
      (fuel : ℕ) (buf : Buffer) (conn : Connection M) (w : World M D)
      → run (serve_loop B M D without_receiver locked fuel buf conn) w
        ≡ served_apart (Tcp_loop.serve_loop B M D locked without_receiver fuel buf conn w)
  unfolding run serve_loop Tcp_loop.serve_loop
  run-serve_loop zero buf conn w = refl
  run-serve_loop (suc fuel) buf conn w =
      run-on_extracted (λ b c. serve_loop B M D without_receiver locked fuel b c)
        (λ b c v. Tcp_loop.serve_loop B M D locked without_receiver fuel b c v)
        (extract_packet B buf) conn w (λ b c v. run-serve_loop fuel b c v)

  run-on_served :
      (l : Local M Buffer) (s : Tcp_loop.Served M D Buffer)
      → run (on_served B M D without_receiver l (served_apart s).0) (served_apart s).1
        ≡ apart (Tcp_loop.on_served B M D locked without_receiver l s)
  unfolding run
  run-on_served l (Tcp_loop.waiting buf conn w) = refl
  run-on_served l (Tcp_loop.failed e w) = refl

  run-close_connection :
      (conn : Connection M) (w : World M D)
      → run (close_connection B M D without_receiver conn) w
        ≡ (tt, Connection.close_connection M D conn w)
  unfolding run close_connection Connection.close_connection
  run-close_connection conn w =
      run-bind (with_session M D (λ s. handle_disconnect M D s) conn.session)
        (λ u. act (Connection.drop_rx M D conn.out_rx) (λ v. done tt)) w
      ∙ ap (λ (o : Unit {0} × World M D). (tt, Connection.drop_rx M D conn.out_rx o.1))
          (run-left M D conn.session w)

  run-on_written :
      (failure : Option ℕ) (bytes : Bytes) (l : Local M Buffer) (w : World M D)
      → run (on_written B M D without_receiver failure bytes l) w
        ≡ apart (Tcp_loop.on_written B M D locked without_receiver failure bytes l w)
  unfolding run
  run-on_written none bytes l w = refl
  run-on_written (some e) bytes l w = refl

  run-on_encoded :
      (failure : Option ℕ) (r : Result Buffer) (l : Local M Buffer) (w : World M D)
      → run (on_encoded B M D without_receiver failure r l) w
        ≡ apart (Tcp_loop.on_encoded B M D locked without_receiver failure r l w)
  unfolding run
  run-on_encoded failure (err e) l w = refl
  run-on_encoded failure (ok out) l w = run-on_written failure (contents out) l w

  run-on_received :
      (failure : Option ℕ) (r : Option Packet × M.Network) (l : Local M Buffer) (w : World M D)
      → run (on_received B M D without_receiver failure r.0 l) (leaves B M D without_receiver r w)
        ≡ apart (Tcp_loop.on_received B M D locked without_receiver failure r l w)
  unfolding run
  run-on_received failure (none, net) l w = refl
  run-on_received failure (some packet, net) l w =
      run-on_encoded failure (encode B packet) l (on_broker M D (λ b. record b { net = net }) w)

  run-on_channel :
      (failure : Option ℕ) (o : Option M.Receiver) (l : Local M Buffer) (w : World M D)
      → run (on_channel B M D without_receiver failure o l) w
        ≡ apart (Tcp_loop.on_channel B M D locked without_receiver failure o l w)
  unfolding run
  run-on_channel failure none l w = refl
  run-on_channel failure (some rx) l w = run-on_received failure (M.recv w.broker.net rx) l w

  -- Run without interruption, the atomic actions of a TCP connection on an event give the result of
  -- its one step and leave the same world: the packets that are handled, the turn of the channel, and
  -- the end of the connection.
  pub run-connection_turn :
      (event : Event) (l : Local M Buffer) (w : World M D)
      → run (connection_turn B M D without_receiver locked event l) w
        ≡ apart (Tcp_loop.connection_step B M D locked without_receiver event l w)
  unfolding run connection_turn serve Tcp_loop.connection_step Tcp_loop.serve
  run-connection_turn (received []) l w =
      run-bind (close_connection B M D without_receiver l.conn) (λ u. done (returned (ok tt))) w
      ∙ ap (λ (o : Unit {0} × World M D). (returned (ok tt), o.1)) (run-close_connection l.conn w)
  run-connection_turn (received (x ∷ xs)) l w =
      let buf = put l.buf (x ∷ xs) in
      run-bind (serve B M D without_receiver locked buf l.conn) (on_served B M D without_receiver l)
        w
      ∙ ap (λ (o : Served M Buffer × World M D). run (on_served B M D without_receiver l o.0) o.1)
          (run-serve_loop (suc (length (contents buf))) buf l.conn w)
      ∙ run-on_served l (
          Tcp_loop.serve_loop B M D locked without_receiver (suc (length (contents buf))) buf l.conn
            w)
  run-connection_turn (read_failed e) l w = refl
  run-connection_turn (outgoing failure) l w = run-on_channel failure l.conn.out_rx l w
