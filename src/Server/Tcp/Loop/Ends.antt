-- ===== src/Server/Tcp/Loop/Ends.antt =====
-- How a TCP connection of src/server/tcp.rs ends: with a result of the Rust code, within the fuel of
-- its inner loop.
use opencode_rustquitto.Base.{
  ℕ, zero, suc, ◌+◌, ◌≤◌, ◌<◌, ◌≡◌, ◌≢◌, refl, ◌∙◌, sym, ap, Bool, Bool-cases, inl, inr, Option,
  none, some, [], ◌∷◌, ◌++◌, length, Bytes, arith,
}
use opencode_rustquitto.Error.{Result, ok, err, BrokerError, stuck, ◌>>=◌}
use opencode_rustquitto.Extern.Buffer.{BytesMut, list_buffer}
use opencode_rustquitto.Extern.Channel.{Mpsc}
use opencode_rustquitto.Extern.DashMap.{DashMap}
use opencode_rustquitto.Protocol.Qos.{Qos, at_most_once, at_least_once, exactly_once}
use opencode_rustquitto.Protocol.Types.{Packet, PacketId}
use opencode_rustquitto.Protocol.Encode
use opencode_rustquitto.Protocol.Encode.{encode}
use opencode_rustquitto.Broker.Handlers.{Address}
use opencode_rustquitto.Server.Connection.{Connection, World, on_broker}
use opencode_rustquitto.Server.Extract.{extract_packet}
use opencode_rustquitto.Server.Extract.Halting.{extract_packet-ne-stuck}
use opencode_rustquitto.Server.Extract.Growing.{extract_packet-append}
use opencode_rustquitto.Server.Tcp.{handle_packet}
use opencode_rustquitto.Server.Tcp.Answers.{from_server, handle_packet_refuses}
use opencode_rustquitto.Server.Tcp.Loop.{
  Event, received, read_failed, outgoing, Served, waiting, failed, Local, returned, on_handled,
  on_extracted, on_served, on_encoded, on_received, on_channel, connection_step,
}
use opencode_rustquitto.Server.Tcp.Loop.Fuel.{serve_bytes, serve_bytes-suc}
use opencode_rustquitto.Server.Tcp.Loop.Chunks.{status_view, local_view, step_received}

put_publish_id-ne-stuck :
    (B : BytesMut) (q : Qos) (id : Option PacketId) (b : B.Buffer)
    → Encode.put_publish_id B q id b ≢ err stuck
unfolding Encode.put_publish_id
put_publish_id-ne-stuck B at_most_once id b e = cc
put_publish_id-ne-stuck B at_least_once none b e = cc
put_publish_id-ne-stuck B at_least_once (some i) b e = cc
put_publish_id-ne-stuck B exactly_once none b e = cc
put_publish_id-ne-stuck B exactly_once (some i) b e = cc

ends_well :
    (B : BytesMut) (r : Result B.Buffer) (f : B.Buffer → B.Buffer)
    → r ≢ err stuck
    → (r >>= (λ b. ok (f b))) ≢ err stuck
ends_well B (ok b) f h e = cc
ends_well B (err x) f h e = h (cc)

encode-ne-stuck : (B : BytesMut) (p : Packet) → encode B p ≢ err stuck
unfolding encode Encode.publish
encode-ne-stuck B (Packet.publish p) e =
    ends_well B (Encode.put_publish_id B p.qos p.packet_id _) (λ b. B.put b p.payload)
      (put_publish_id-ne-stuck B p.qos p.packet_id _) e
encode-ne-stuck B (Packet.connack p) e = cc
encode-ne-stuck B _ e = cc

module _ (M : Mpsc) (D : DashMap Address) (locked : Bool) (without_receiver : M.Sender) where
  -- With more fuel than bytes, an error is one of the Rust code.
  handled_ends :
      (rest : Connection M → World M D → Served M D Bytes)
      (r : Result (Connection M × ℕ) × World M D) (e : BrokerError) (v : World M D)
      → ((c : Connection M) (u : World M D) → rest c u ≡ failed e v → e ≢ stuck)
      → r.0 ≢ err stuck
      → on_handled list_buffer M D locked without_receiver rest r ≡ failed e v
      → e ≢ stuck
  handled_ends rest (err x, w) e v later h t = λ s. h (cc)
  handled_ends rest (ok (conn, k), w) e v later h t = later conn w t

  handle_packet-ne-stuck :
      (conn : Connection M) (p : Packet) (w : World M D)
      → (handle_packet M D locked without_receiver conn p w).0 ≢ err stuck
  handle_packet-ne-stuck conn p w e =
      let (refused, answered) = handle_packet_refuses M D locked without_receiver conn p w in
      elim (Bool-cases (from_server p)) [
        | inl server ↦ let r = refused server in cc
        | inr client ↦ let (answer, r) = answered client in cc
      ]

  extracted_ends :
      (m : ℕ) (c rest : Bytes) (o : Option (Result Packet)) (conn : Connection M) (w v : World M D)
      (e : BrokerError)
      → extract_packet list_buffer c ≡ (o, rest)
      → (length rest + 2 ≤ length c
          → (k : Connection M) (u : World M D)
          → serve_bytes M D locked without_receiver m rest k u ≡ failed e v
          → e ≢ stuck)
      → on_extracted list_buffer M D locked without_receiver
          (λ b k u. serve_bytes M D locked without_receiver m b k u)
          (o, rest)
          conn
          w
        ≡ failed e v
      → e ≢ stuck
  extracted_ends m c rest none conn w v e x later h = absurd (cc)
  extracted_ends m c rest (some (err y)) conn w v e x later h =
      λ s. extract_packet-ne-stuck c rest y x (cc)
  extracted_ends m c rest (some (ok p)) conn w v e x later h =
      handled_ends (λ k u. serve_bytes M D locked without_receiver m rest k u)
        (handle_packet M D locked without_receiver conn p w) e v
        (later (extract_packet-append c [] rest p x).1) (handle_packet-ne-stuck conn p w) h

  serve_bytes_ends :
      (m : ℕ) (c : Bytes) (conn : Connection M) (w v : World M D) (e : BrokerError)
      → length c < m
      → serve_bytes M D locked without_receiver m c conn w ≡ failed e v
      → e ≢ stuck
  serve_bytes_ends zero c conn w v e a h = absurd (omega arith)
  serve_bytes_ends (suc m) c conn w v e a h =
      let (o, rest) = extract_packet list_buffer c in
      extracted_ends m c rest o conn w v e refl
        (λ two k u. serve_bytes_ends m rest k u v e (omega (arith, two, a)))
        (sym (serve_bytes-suc M D locked without_receiver m c rest o conn w refl) ∙ h)

module _ (B : BytesMut) (M : Mpsc) (D : DashMap Address) (locked : Bool)
    (without_receiver : M.Sender) where
  served_ends :
      (l : Local M Bytes) (s : Served M D Bytes) (v : World M D)
      → ((e : BrokerError) (u : World M D) → s ≡ failed e u → e ≢ stuck)
      → on_served list_buffer M D locked without_receiver l s ≢ returned (err stuck) v
  served_ends l (waiting buf conn w) v ends h = cc
  served_ends l (failed e w) v ends h = ends e w refl (cc)

  encoded_ends :
      (failure : Option ℕ) (r : Result B.Buffer) (l : Local M B.Buffer) (w v : World M D)
      → r ≢ err stuck
      → on_encoded B M D locked without_receiver failure r l w ≢ returned (err stuck) v
  encoded_ends failure (err e) l w v h t = h (cc)
  encoded_ends none (ok out) l w v h t = cc
  encoded_ends (some x) (ok out) l w v h t = cc

  sent_ends :
      (failure : Option ℕ) (r : Option Packet × M.Network) (l : Local M B.Buffer) (w v : World M D)
      → on_received B M D locked without_receiver failure r l w ≢ returned (err stuck) v
  sent_ends failure (none, net) l w v t = cc
  sent_ends failure (some p, net) l w v t =
      encoded_ends failure (encode B p) l (on_broker M D (λ b. record b { net = net }) w) v
        (encode-ne-stuck B p) t

  channel_ends :
      (failure : Option ℕ) (rx : Option M.Receiver) (l : Local M B.Buffer) (w v : World M D)
      → on_channel B M D locked without_receiver failure rx l w ≢ returned (err stuck) v
  channel_ends failure none l w v t = cc
  channel_ends failure (some rx) l w v t = sent_ends failure (M.recv w.broker.net rx) l w v t

  -- Whatever the event, the step of a connection ends with a result that the Rust code has: the fuel
  -- of the loop over the buffered packets, of the decoder and of the encoder is enough.
  pub connection_step-ne-stuck :
      (event : Event) (l : Local M B.Buffer) (w v : World M D)
      → connection_step B M D locked without_receiver event l w ≢ returned (err stuck) v
  unfolding connection_step
  connection_step-ne-stuck (received []) l w v h = cc
  connection_step-ne-stuck (received (x ∷ xs)) l w v h =
      let c = B.contents l.buf ++ (x ∷ xs) in
      served_ends (local_view B l)
        (serve_bytes M D locked without_receiver (suc (length c)) c l.conn w) v
        (λ e u g.
          serve_bytes_ends M D locked without_receiver (suc (length c)) c l.conn w u e (omega arith)
            g)
        (sym (step_received B M D locked without_receiver x xs (B.contents l.buf) l w refl)
          ∙ ap (λ s. status_view B s) h)
  connection_step-ne-stuck (read_failed e) l w v h = cc
  connection_step-ne-stuck (outgoing failure) l w v h = channel_ends failure l.conn.out_rx l w v h
