-- ===== src/Server/Tcp/Handled.antt =====
-- What the inner loop of `handle_connection` of src/server/tcp.rs does to the broker: the calls of
-- `handle_packet` that succeed, one after the other.
use opencode_rustquitto.Base.{
  ℕ, zero, suc, ◌≡◌, refl, sym, ap, subst, Bool, Bool-cases, inl, inr, Option, none, some,
}
use opencode_rustquitto.Error.{Result, ok, err, BrokerError}
use opencode_rustquitto.Extern.Buffer.{BytesMut}
use opencode_rustquitto.Extern.Channel.{Mpsc}
use opencode_rustquitto.Extern.DashMap.{DashMap}
use opencode_rustquitto.Protocol.Types.{Packet}
use opencode_rustquitto.Broker.Handlers.{Address}
use opencode_rustquitto.Server.Connection.{Connection, World}
use opencode_rustquitto.Server.Connection.Closing.{SameBut, SameBut-refl, drop_rx-SameBut}
use opencode_rustquitto.Server.Extract.{extract_packet}
use opencode_rustquitto.Server.Tcp.{handle_packet}
use opencode_rustquitto.Server.Tcp.Answers.{from_server, handle_packet_refuses}
use opencode_rustquitto.Server.Tcp.Loop.{
  Served, waiting, failed, on_handled, on_extracted, serve_loop,
}

module _ (M : Mpsc) (D : DashMap Address) (locked : Bool) (without_receiver : M.Sender) where
  -- Packets were handled without an error, from one state to the other.
  pub data Handled : Connection M → World M D → Connection M → World M D → Type 0 where
    done :
        {conn conn' : Connection M} {w w' : World M D}
        → conn ≡ conn'
        → w ≡ w'
        → Handled conn w conn' w'
    next :
        {conn conn₁ conn₂ : Connection M} {w w₁ w₂ : World M D}
        → (packet : Packet) → (keep_alive : ℕ)
        → handle_packet M D locked without_receiver conn packet w ≡ (ok (conn₁, keep_alive), w₁)
        → Handled conn₁ w₁ conn₂ w₂
        → Handled conn w conn₂ w₂

  -- A packet that is refused changes no more than the channels.
  pub handle_packet-err :
      (conn : Connection M) (packet : Packet) (w : World M D) (e : BrokerError)
      → (handle_packet M D locked without_receiver conn packet w).0 ≡ err e
      → SameBut M D w (handle_packet M D locked without_receiver conn packet w).1
  handle_packet-err conn packet w e h =
      let (refused, answered) = handle_packet_refuses M D locked without_receiver conn packet w in
      elim (Bool-cases (from_server packet)) [
        | inl server ↦
            subst (λ v. SameBut M D w v)
              (sym (ap (λ (r : Result (Connection M × ℕ) × World M D). r.1) (refused server)))
              (drop_rx-SameBut M D conn.out_rx w)
        | inr client ↦ absurd (let (answer, r) = answered client in cc)
      ]

  -- The packets were handled, and after them no more than the channels changed.
  pub data After (conn : Connection M) (w : World M D) (conn' : Connection M) (v : World M D)
      : Type 0 where
    after : (w' : World M D) → Handled conn w conn' w' → SameBut M D w' v → After conn w conn' v

  abbrev pub FailedAfter : Connection M → World M D → World M D → Type 0
  FailedAfter conn w v = (conn' : Connection M) × After conn w conn' v

  -- What the result says of the packets handled.
  abbrev pub Reached : {Buffer : Type 0} → Connection M → World M D → Served M D Buffer → Type 0
  Reached conn w (waiting buf conn' w') = Handled conn w conn' w'
  Reached conn w (failed e v) = FailedAfter conn w v

  Reached-next :
      {Buffer : Type 0} (conn conn' : Connection M) (packet : Packet) (k : ℕ) (w w' : World M D)
      (s : Served M D Buffer)
      → handle_packet M D locked without_receiver conn packet w ≡ (ok (conn', k), w')
      → Reached conn' w' s
      → Reached conn w s
  Reached-next conn conn' packet k w w' (waiting buf c v) h r = next packet k h r
  Reached-next conn conn' packet k w w' (failed e v) h (c, after u r same) =
      (c, after u (next packet k h r) same)

  module _ (B : BytesMut) where
    on_handled-Reached :
        (rest : Connection M → World M D → Served M D B.Buffer) (conn : Connection M)
        (packet : Packet) (w : World M D) (r : Result (Connection M × ℕ) × World M D)
        → ((c : Connection M) (v : World M D) → Reached c v (rest c v))
        → handle_packet M D locked without_receiver conn packet w ≡ r
        → ((e : BrokerError) → r.0 ≡ err e → SameBut M D w r.1)
        → Reached conn w (on_handled B M D locked without_receiver rest r)
    on_handled-Reached rest conn packet w (err e, v) ih h same =
        (conn, after w (done refl refl) (same e refl))
    on_handled-Reached rest conn packet w (ok (conn', k), v) ih h same =
        Reached-next conn conn' packet k w v (rest conn' v) h (ih conn' v)

    on_extracted-Reached :
        (rest : B.Buffer → Connection M → World M D → Served M D B.Buffer)
        (o : Option (Result Packet)) (buf : B.Buffer) (conn : Connection M) (w : World M D)
        → ((b : B.Buffer) (c : Connection M) (v : World M D) → Reached c v (rest b c v))
        → Reached conn w (on_extracted B M D locked without_receiver rest (o, buf) conn w)
    on_extracted-Reached rest none buf conn w ih = done refl refl
    on_extracted-Reached rest (some (err e)) buf conn w ih =
        (conn, after w (done refl refl) (drop_rx-SameBut M D conn.out_rx w))
    on_extracted-Reached rest (some (ok p)) buf conn w ih =
        on_handled-Reached (rest buf) conn p w (handle_packet M D locked without_receiver conn p w)
          (ih buf) refl (λ e h. handle_packet-err conn p w e h)

    pub serve_loop-Reached :
        (fuel : ℕ) (buf : B.Buffer) (conn : Connection M) (w : World M D)
        → Reached conn w (serve_loop B M D locked without_receiver fuel buf conn w)
    unfolding serve_loop
    serve_loop-Reached zero buf conn w = (conn, after w (done refl refl) (SameBut-refl M D w))
    serve_loop-Reached (suc fuel) buf conn w =
        let (o, rest) = extract_packet B buf in
        on_extracted-Reached (λ b c v. serve_loop B M D locked without_receiver fuel b c v) o rest
          conn w (λ b c v. serve_loop-Reached fuel b c v)
