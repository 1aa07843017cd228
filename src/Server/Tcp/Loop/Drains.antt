-- ===== src/Server/Tcp/Loop/Drains.antt =====
-- The packets in the channel of a TCP connection of src/server/tcp.rs reach its socket.
use opencode_rustquitto.Base.{
  ℕ, zero, suc, ◌≡◌, refl, ◌∙◌, sym, ap, Bool, none, some, List, [], ◌∷◌, ◌++◌, append-nil,
  append_assoc, length, Bytes,
}
use opencode_rustquitto.Error.{ok}
use opencode_rustquitto.Extern.Buffer.{BytesMut}
use opencode_rustquitto.Extern.Channel.{Mpsc}
use opencode_rustquitto.Extern.DashMap.{DashMap}
use opencode_rustquitto.Protocol.Types.{Packet}
use opencode_rustquitto.Protocol.Encode.{encode}
use opencode_rustquitto.Broker.Handlers.{Address}
use opencode_rustquitto.Server.Connection.{World, on_broker}
use opencode_rustquitto.Server.Connection.Closing.{SameBut, SameBut-refl, SameBut-trans}
use opencode_rustquitto.Server.Tcp.Loop.{
  outgoing, Local, Status, running, returned, on_received, on_encoded, on_channel, connection_step,
}

module _ (B : BytesMut) (M : Mpsc) (D : DashMap Address) (locked : Bool)
    (without_receiver : M.Sender) where
  open B use {Buffer, contents}

  -- A step after a step, if the connection goes on.
  abbrev and_then :
      (Local M Buffer → World M D → Status M D Buffer) → Status M D Buffer → Status M D Buffer
  and_then f (running l w) = f l w
  and_then f (returned r w) = returned r w

  -- Turns of the channel, one after the other, with a socket that takes every write.
  pub turns : ℕ → Local M Buffer → World M D → Status M D Buffer
  turns zero l w = running l w
  turns (suc k) l w =
      and_then (λ m v. turns k m v)
        (connection_step B M D locked without_receiver (outgoing none) l w)

  -- The packets have these encodings.
  abbrev pub Encodes : List Packet → List Bytes → Type 0
  Encodes [] [] = Unit
  Encodes (p ∷ ps) (c ∷ cs) =
      (out : Buffer) × (encode B p ≡ ok out) × (contents out ≡ c) × Encodes ps cs
  Encodes _ _ = ⊥

  -- The world after a turn.
  abbrev next_world : M.Receiver → World M D → World M D
  next_world rx w = on_broker M D (λ b. record b { net = (M.recv w.broker.net rx).1 }) w

  turn :
      (rx : M.Receiver) (s : M.Sender) (p : Packet) (q : List Packet) (out : Buffer)
      (l : Local M Buffer) (w : World M D)
      → l.conn.out_rx ≡ some rx
      → M.receiving rx ≡ M.channel s
      → M.queue w.broker.net s ≡ p ∷ q
      → encode B p ≡ ok out
      → connection_step B M D locked without_receiver (outgoing none) l w
        ≡ running (record l { written = l.written ++ (contents out ∷ []) }) (next_world rx w)
  unfolding connection_step
  turn rx s p q out l w has own queued e =
      let first = (M.recv_first w.broker.net rx s p q own queued).0 in
      ap (λ o. on_channel B M D locked without_receiver none o l w) has
      ∙ (λ i.
          on_received B M D locked without_receiver none (first i, (M.recv w.broker.net rx).1) l w)
      ∙ ap (λ r. on_encoded B M D locked without_receiver none r l (next_world rx w)) e

  -- A connection whose channel holds the packets `ps`, with the encodings `cs`, has written these
  -- behind what it had written, in their order, after as many turns of its channel, if the socket
  -- takes every write. The channel is then empty, and the broker has changed in its channels at most.
  pub turns-Encodes :
      (rx : M.Receiver) (s : M.Sender) (ps : List Packet) (cs : List Bytes) (l : Local M Buffer)
      (w : World M D)
      → l.conn.out_rx ≡ some rx
      → M.receiving rx ≡ M.channel s
      → M.queue w.broker.net s ≡ ps
      → Encodes ps cs
      → (v : World M D) × (turns (length ps) l w
          ≡ running (record l { written = l.written ++ cs }) v)
        × (M.queue v.broker.net s ≡ [])
        × SameBut M D w v
  unfolding turns
  turns-Encodes rx s [] [] l w has own queued h = (
    w,
    ap (λ t. running (record l { written = t }) w) (sym (append-nil l.written)),
    queued,
    SameBut-refl M D w,
  )
  turns-Encodes rx s [] (c ∷ cs) l w has own queued h = elim h [ ]
  turns-Encodes rx s (p ∷ ps) [] l w has own queued h = elim h [ ]
  turns-Encodes rx s (p ∷ ps) (c ∷ cs) l w has own queued (out, e, same, h) =
      let l₁ : Local M Buffer = record l { written = l.written ++ (contents out ∷ []) } in
      let w₁ = next_world rx w in
      let (v, run, empty, kept) =
        turns-Encodes rx s ps cs l₁ w₁ has own (M.recv_first w.broker.net rx s p ps own queued).1
          h in
      (
        v,
        ap (λ st. and_then (λ m u. turns (length ps) m u) st)
              (turn rx s p ps out l w has own queued e)
            ∙ run
            ∙ (λ i. running (record l { written = (append_assoc l.written (same i ∷ []) cs) i }) v),
        empty,
        SameBut-trans M D w w₁ v
            (record { sessions = refl; subscriptions = refl; heap = refl; next_address = refl })
            kept,
      )
