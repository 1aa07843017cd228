-- ===== src/Server/Tcp/Loop/Failing.antt =====
-- The errors that end a TCP connection of src/server/tcp.rs, and what they leave of the broker.
use opencode_rustquitto.Base.{
  ℕ, zero, suc, ◌≡◌, ◌≢◌, refl, ◌∙◌, ap, subst, Bool, Option, none, some, [], ◌∷◌, length,
}
use opencode_rustquitto.Error.{Result, ok, err, BrokerError, io, stuck}
use opencode_rustquitto.Extern.Buffer.{BytesMut}
use opencode_rustquitto.Extern.Channel.{Mpsc}
use opencode_rustquitto.Extern.DashMap.{DashMap}
use opencode_rustquitto.Protocol.Types.{Packet}
use opencode_rustquitto.Protocol.Encode.{encode}
use opencode_rustquitto.Broker.Handlers.{Address}
use opencode_rustquitto.Server.Connection.{Connection, World, drop_rx, on_broker}
use opencode_rustquitto.Server.Connection.Closing.{
  SameBut, SameBut-refl, SameBut-trans, drop_rx-SameBut,
}
use opencode_rustquitto.Server.Extract.{extract_packet}
use opencode_rustquitto.Server.Tcp.{handle_packet}
use opencode_rustquitto.Server.Tcp.Handled.{handle_packet-err}
use opencode_rustquitto.Server.Tcp.Loop.{
  Event, received, read_failed, outgoing, Served, waiting, failed, Local, Status, returned,
  on_handled, on_extracted, serve_loop, on_served, on_encoded, on_received, on_channel, serve,
  connection_step,
}
use opencode_rustquitto.Server.Tcp.Loop.Ends.{connection_step-ne-stuck}

module _ (B : BytesMut) (M : Mpsc) (D : DashMap Address) (locked : Bool)
    (without_receiver : M.Sender) where
  open B use {Buffer, contents, put}

  -- The packets at the front of the buffer are handled until one is cut wrongly, or refused.
  pub data FailsIn (e : BrokerError) (v : World M D)
      : Buffer → Connection M → World M D → Type 0 where
    cut :
        {buf : Buffer} {conn : Connection M} {w : World M D} (rest : Buffer)
        → extract_packet B buf ≡ (some (err e), rest)
        → SameBut M D w v
        → FailsIn e v buf conn w
    refused :
        {buf : Buffer} {conn : Connection M} {w : World M D} (packet : Packet) (rest : Buffer)
        → extract_packet B buf ≡ (some (ok packet), rest)
        → (handle_packet M D locked without_receiver conn packet w).0 ≡ err e
        → SameBut M D w v
        → FailsIn e v buf conn w
    handled :
        {buf : Buffer} {conn conn₁ : Connection M} {w w₁ : World M D} (packet : Packet)
        (rest : Buffer) (keep_alive : ℕ)
        → extract_packet B buf ≡ (some (ok packet), rest)
        → handle_packet M D locked without_receiver conn packet w ≡ (ok (conn₁, keep_alive), w₁)
        → FailsIn e v rest conn₁ w₁
        → FailsIn e v buf conn w

  -- By the event of the step.
  abbrev pub FailsBy : Event → Local M Buffer → World M D → BrokerError → World M D → Type 0
  FailsBy (received bytes) l w e v = FailsIn e v (put l.buf bytes) l.conn w
  FailsBy (read_failed code) l w e v = (e ≡ io code) × SameBut M D w v
  FailsBy (outgoing failure) l w e v = SameBut M D w v

  on_handled-FailsIn :
      (rest : Connection M → World M D → Served M D Buffer) (buf left : Buffer)
      (conn : Connection M) (packet : Packet) (w : World M D) (e : BrokerError) (v : World M D)
      (r : Result (Connection M × ℕ) × World M D)
      → extract_packet B buf ≡ (some (ok packet), left)
      → handle_packet M D locked without_receiver conn packet w ≡ r
      → on_handled B M D locked without_receiver rest r ≡ failed e v
      → ((c : Connection M) (u : World M D) → rest c u ≡ failed e v → FailsIn e v left c u)
      → FailsIn e v buf conn w
  on_handled-FailsIn rest buf left conn packet w e v (err d, u) at h f ih =
      let same : d ≡ e = cc in
      let world : u ≡ v = cc in
      let error : (handle_packet M D locked without_receiver conn packet w).0 ≡ err e =
        ap (λ (r : Result (Connection M × ℕ) × World M D). r.0) h ∙ ap err same in
      refused packet left at error (
        subst (λ x. SameBut M D w x)
          (ap (λ (r : Result (Connection M × ℕ) × World M D). r.1) h ∙ world)
          (handle_packet-err M D locked without_receiver conn packet w e error))
  on_handled-FailsIn rest buf left conn packet w e v (ok (c, k), u) at h f ih =
      handled packet left k at h (ih c u f)

  on_extracted-FailsIn :
      (rest : Buffer → Connection M → World M D → Served M D Buffer) (buf : Buffer)
      (conn : Connection M) (w : World M D) (e : BrokerError) (v : World M D)
      (x : Option (Result Packet) × Buffer)
      → extract_packet B buf ≡ x
      → on_extracted B M D locked without_receiver rest x conn w ≡ failed e v
      → ((b : Buffer) (c : Connection M) (u : World M D)
          → rest b c u ≡ failed e v
          → FailsIn e v b c u)
      → FailsIn e v buf conn w
  on_extracted-FailsIn rest buf conn w e v (none, left) at f ih = absurd (cc)
  on_extracted-FailsIn rest buf conn w e v (some (err d), left) at f ih =
      let same : d ≡ e = cc in
      let world : drop_rx M D conn.out_rx w ≡ v = cc in
      cut left (at ∙ ap (λ x. (some (err x), left)) same)
        (subst (λ x. SameBut M D w x) world (drop_rx-SameBut M D conn.out_rx w))
  on_extracted-FailsIn rest buf conn w e v (some (ok packet), left) at f ih =
      on_handled-FailsIn (rest left) buf left conn packet w e v
        (handle_packet M D locked without_receiver conn packet w) at refl f (ih left)

  serve_loop-FailsIn :
      (fuel : ℕ) (buf : Buffer) (conn : Connection M) (w : World M D) (e : BrokerError)
      (v : World M D)
      → e ≢ stuck
      → serve_loop B M D locked without_receiver fuel buf conn w ≡ failed e v
      → FailsIn e v buf conn w
  unfolding serve_loop
  serve_loop-FailsIn zero buf conn w e v real f = absurd (real (cc))
  serve_loop-FailsIn (suc fuel) buf conn w e v real f =
      on_extracted-FailsIn (λ b c u. serve_loop B M D locked without_receiver fuel b c u) buf conn w
        e v (extract_packet B buf) refl f (λ b c u. serve_loop-FailsIn fuel b c u e v real)

  failed_served :
      (l : Local M Buffer) (s : Served M D Buffer) (e : BrokerError) (v : World M D)
      → on_served B M D locked without_receiver l s ≡ returned (err e) v
      → s ≡ failed e v
  failed_served l (waiting buf conn u) e v h = absurd (cc)
  failed_served l (failed d u) e v h = cc

  module _ (l : Local M Buffer) (w v : World M D) (e : BrokerError) where
    dropped :
        (u : World M D) (d : BrokerError)
        → SameBut M D w u
        → ◌≡◌ {A = Status M D Buffer}
            (returned (err d) (drop_rx M D l.conn.out_rx u))
            (returned (err e) v)
        → SameBut M D w v
    dropped u d same h =
        let world : drop_rx M D l.conn.out_rx u ≡ v = cc in
        subst (λ x. SameBut M D w x) world
          (SameBut-trans M D w u (drop_rx M D l.conn.out_rx u) same
            (drop_rx-SameBut M D l.conn.out_rx u))

    on_encoded-SameBut :
        (failure : Option ℕ) (r : Result Buffer) (u : World M D)
        → SameBut M D w u
        → on_encoded B M D locked without_receiver failure r l u ≡ returned (err e) v
        → SameBut M D w v
    on_encoded-SameBut failure (err d) u same h = dropped u d same h
    on_encoded-SameBut none (ok out) u same h = absurd (cc)
    on_encoded-SameBut (some c) (ok out) u same h = dropped u (io c) same h

    on_received-SameBut :
        (failure : Option ℕ) (r : Option Packet × M.Network)
        → on_received B M D locked without_receiver failure r l w ≡ returned (err e) v
        → SameBut M D w v
    on_received-SameBut failure (none, net) h = absurd (cc)
    on_received-SameBut failure (some p, net) h =
        on_encoded-SameBut failure (encode B p) (on_broker M D (λ b. record b { net = net }) w)
          (record { sessions = refl; subscriptions = refl; heap = refl; next_address = refl }) h

    on_channel-SameBut :
        (failure : Option ℕ) (rx : Option M.Receiver)
        → on_channel B M D locked without_receiver failure rx l w ≡ returned (err e) v
        → SameBut M D w v
    on_channel-SameBut failure none h = absurd (cc)
    on_channel-SameBut failure (some rx) h = on_received-SameBut failure (M.recv w.broker.net rx) h

  pub connection_step-FailsBy :
      (event : Event) (l : Local M Buffer) (w : World M D) (e : BrokerError) (v : World M D)
      → connection_step B M D locked without_receiver event l w ≡ returned (err e) v
      → FailsBy event l w e v
  unfolding connection_step serve
  connection_step-FailsBy (received []) l w e v h = absurd (cc)
  connection_step-FailsBy (received (x ∷ xs)) l w e v h =
      let buf = put l.buf (x ∷ xs) in
      serve_loop-FailsIn (suc (length (contents buf))) buf l.conn w e v
        (λ same.
          connection_step-ne-stuck B M D locked without_receiver (received (x ∷ xs)) l w v
            (h ∙ ap (λ d. returned (err d) v) same))
        (failed_served l (serve B M D locked without_receiver buf l.conn w) e v h)
  connection_step-FailsBy (read_failed code) l w e v h =
      let error : e ≡ io code = cc in (error, dropped l w v e w (io code) (SameBut-refl M D w) h)
  connection_step-FailsBy (outgoing failure) l w e v h =
      on_channel-SameBut l w v e failure l.conn.out_rx h
