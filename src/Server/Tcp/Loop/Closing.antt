-- ===== src/Server/Tcp/Loop/Closing.antt =====
-- What a TCP connection of src/server/tcp.rs leaves behind in the broker when it ends.
use opencode_rustquitto.Base.{
  ℕ, suc, ◌≡◌, refl, subst, sym, Bool, Option, none, some, [], ◌∷◌, length, Bytes,
}
use opencode_rustquitto.Error.{Result, ok, err, BrokerError}
use opencode_rustquitto.Extern.Buffer.{BytesMut}
use opencode_rustquitto.Extern.Channel.{Mpsc}
use opencode_rustquitto.Extern.DashMap.{DashMap}
use opencode_rustquitto.Protocol.Types.{Packet}
use opencode_rustquitto.Protocol.Encode.{encode}
use opencode_rustquitto.Broker.Handlers.{Address}
use opencode_rustquitto.Server.Connection.{Connection, World, drop_rx, on_broker, close_connection}
use opencode_rustquitto.Server.Connection.Closing.{
  Forgets, SameBut, SameBut-refl, SameBut-trans, drop_rx-SameBut, close_connection-Forgets,
}
use opencode_rustquitto.Server.Tcp.Handled.{
  done, After, after, FailedAfter, Reached, serve_loop-Reached,
}
use opencode_rustquitto.Server.Tcp.Loop.Failing.{FailsBy, connection_step-FailsBy}
use opencode_rustquitto.Server.Tcp.Loop.{
  Event, received, read_failed, outgoing, Served, waiting, failed, Local, Status, running, returned,
  on_served, on_written, on_encoded, on_received, on_channel, serve, connection_step,
}

module _ (M : Mpsc) (D : DashMap Address) (locked : Bool) (without_receiver : M.Sender) where
  -- What a step has left behind, by how it ended.
  abbrev pub Left :
      {Buffer : Type 0} → Connection M → World M D → Event → Status M D Buffer → Type 0
  Left conn w event (running l v) = After M D locked without_receiver conn w l.conn v
  Left conn w event (returned (ok u) v) = (event ≡ received []) × (v ≡ close_connection M D conn w)
  Left conn w event (returned (err e) v) = FailedAfter M D locked without_receiver conn w v

  at_once :
      (conn : Connection M) (w v : World M D)
      → SameBut M D w v
      → After M D locked without_receiver conn w conn v
  at_once conn w v same = after w (done refl refl) same

  module _ (B : BytesMut) (l : Local M B.Buffer) (w : World M D) (event : Event) where
    on_served-Left :
        (s : Served M D B.Buffer)
        → Reached M D locked without_receiver l.conn w s
        → Left l.conn w event (on_served B M D locked without_receiver l s)
    on_served-Left (waiting buf conn v) r = after v r (SameBut-refl M D v)
    on_served-Left (failed e v) r = r

    module _ (v : World M D) (same : SameBut M D w v) where
      dropped : SameBut M D w (drop_rx M D l.conn.out_rx v)
      dropped =
          SameBut-trans M D w v (drop_rx M D l.conn.out_rx v) same
            (drop_rx-SameBut M D l.conn.out_rx v)

      on_written-Left :
          (failure : Option ℕ) (c : Bytes)
          → Left l.conn w event (on_written B M D locked without_receiver failure c l v)
      on_written-Left none c = at_once l.conn w v same
      on_written-Left (some e) c = (l.conn, at_once l.conn w (drop_rx M D l.conn.out_rx v) dropped)

      on_encoded-Left :
          (failure : Option ℕ) (r : Result B.Buffer)
          → Left l.conn w event (on_encoded B M D locked without_receiver failure r l v)
      on_encoded-Left failure (err e) =
          (l.conn, at_once l.conn w (drop_rx M D l.conn.out_rx v) dropped)
      on_encoded-Left failure (ok out) = on_written-Left failure (B.contents out)

    on_received-Left :
        (failure : Option ℕ) (r : Option Packet × M.Network)
        → Left l.conn w event (on_received B M D locked without_receiver failure r l w)
    on_received-Left failure (none, net) = at_once l.conn w w (SameBut-refl M D w)
    on_received-Left failure (some p, net) =
        on_encoded-Left (on_broker M D (λ b. record b { net = net }) w)
          (record { sessions = refl; subscriptions = refl; heap = refl; next_address = refl })
          failure (encode B p)

    on_channel-Left :
        (failure : Option ℕ) (rx : Option M.Receiver)
        → Left l.conn w event (on_channel B M D locked without_receiver failure rx l w)
    on_channel-Left failure none = at_once l.conn w w (SameBut-refl M D w)
    on_channel-Left failure (some rx) = on_received-Left failure (M.recv w.broker.net rx)

  module _ (B : BytesMut) (l : Local M B.Buffer) (w : World M D) where
    pub connection_step-Left :
        (event : Event)
        → Left l.conn w event (connection_step B M D locked without_receiver event l w)
    unfolding connection_step serve
    connection_step-Left (received []) = (refl, refl)
    connection_step-Left (received (x ∷ xs)) =
        let buf = B.put l.buf (x ∷ xs) in
        on_served-Left B l w (received (x ∷ xs)) (serve B M D locked without_receiver buf l.conn w)
          (serve_loop-Reached M D locked without_receiver B (suc (length (B.contents buf))) buf
            l.conn w)
    connection_step-Left (read_failed e) = (
      l.conn,
      at_once l.conn w (drop_rx M D l.conn.out_rx w) (drop_rx-SameBut M D l.conn.out_rx w),
    )
    connection_step-Left (outgoing failure) =
        on_channel-Left B l w (outgoing failure) failure l.conn.out_rx

  -- A TCP connection with a session ends without an error only when nothing more can be read, and
  -- its client is then forgotten: no session is found under its name, the others are found as before,
  -- and the tree keeps exactly the subscriptions of the others. An error is one of the packets in the
  -- buffer, of the read or of the channel's turn: the packets at the front of the buffer that were
  -- handled have changed the broker as they do, and apart from that the sessions, their map and the
  -- tree stay as they were, so that the client is not disconnected.
  pub connection_step_returned :
      (B : BytesMut) (event : Event) (a : Address) (l : Local M B.Buffer) (w v : World M D)
      (r : Result (Unit {0}))
      → l.conn.session ≡ some a
      → connection_step B M D locked without_receiver event l w ≡ returned r v
      → (r ≡ ok tt → (event ≡ received []) × Forgets M D a w v)
        × ((e : BrokerError) → r ≡ err e → FailsBy B M D locked without_receiver event l w e v)
  connection_step_returned B event a l w v (err e) has h = (
    λ g. absurd (cc),
    λ x g.
        let same : e ≡ x = cc in
        subst (λ y. FailsBy B M D locked without_receiver event l w y v) same
          (connection_step-FailsBy B M D locked without_receiver event l w e v h),
  )
  connection_step_returned B event a l w v (ok u) has h =
      let (nothing, end) =
        subst (λ s. Left l.conn w event s) h (connection_step-Left B l w event) in
      (
        λ g. (
          nothing,
          subst (λ u. Forgets M D a w u) (sym end)
              (close_connection-Forgets M D l.conn a w w has (SameBut-refl M D w)),
        ),
        λ x g. absurd (cc),
      )
