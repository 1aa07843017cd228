-- ===== src/Server/Tcp/Loop/Fuel.antt =====
-- The inner loop of `handle_connection` of src/server/tcp.rs: it ends within its fuel, whatever the fuel
-- is above the length of the buffer, and it depends on the bytes of the buffer alone.
use opencode_rustquitto.Base.{
  ℕ, zero, suc, ◌<◌, ◌≡◌, refl, ◌∙◌, sym, ap, Bool, Option, none, some, [], length, Bytes, arith,
}
use opencode_rustquitto.Error.{Result, ok, err}
use opencode_rustquitto.Extern.Buffer.{BytesMut, list_buffer}
use opencode_rustquitto.Extern.Channel.{Mpsc}
use opencode_rustquitto.Extern.DashMap.{DashMap}
use opencode_rustquitto.Protocol.Types.{Packet}
use opencode_rustquitto.Broker.Handlers.{Address}
use opencode_rustquitto.Server.Connection.{Connection, World}
use opencode_rustquitto.Server.Extract.{extract_packet}
use opencode_rustquitto.Server.Extract.Growing.{extract_packet-view, extract_packet-append}
use opencode_rustquitto.Server.Tcp.{handle_packet}
use opencode_rustquitto.Server.Tcp.Loop.{
  Served, waiting, failed, on_handled, on_extracted, serve_loop,
}

module _ (M : Mpsc) (D : DashMap Address) (locked : Bool) (without_receiver : M.Sender) where
  -- The result, with the bytes of the buffer in its place.
  abbrev pub view : (B : BytesMut) → Served M D B.Buffer → Served M D Bytes
  view B (waiting buf conn w) = waiting (B.contents buf) conn w
  view B (failed e w) = failed e w

  abbrev pub serve_bytes : ℕ → Bytes → Connection M → World M D → Served M D Bytes
  serve_bytes = serve_loop list_buffer M D locked without_receiver

  on_handled-view :
      (B : BytesMut) (rest : Connection M → World M D → Served M D B.Buffer)
      (rest' : Connection M → World M D → Served M D Bytes)
      → ((c : Connection M) (v : World M D) → view B (rest c v) ≡ rest' c v)
      → (r : Result (Connection M × ℕ) × World M D)
      → view B (on_handled B M D locked without_receiver rest r)
        ≡ on_handled list_buffer M D locked without_receiver rest' r
  on_handled-view B rest rest' same (err e, w) = refl
  on_handled-view B rest rest' same (ok (conn, k), w) = same conn w

  on_extracted-view :
      (B : BytesMut) (rest : B.Buffer → Connection M → World M D → Served M D B.Buffer)
      (rest' : Bytes → Connection M → World M D → Served M D Bytes)
      → ((b : B.Buffer) (c : Connection M) (v : World M D)
          → view B (rest b c v) ≡ rest' (B.contents b) c v)
      → (o : Option (Result Packet)) (b : B.Buffer) (conn : Connection M) (w : World M D)
      → view B (on_extracted B M D locked without_receiver rest (o, b) conn w)
        ≡ on_extracted list_buffer M D locked without_receiver rest' (o, B.contents b) conn w
  on_extracted-view B rest rest' same none b conn w = refl
  on_extracted-view B rest rest' same (some (err e)) b conn w = refl
  on_extracted-view B rest rest' same (some (ok p)) b conn w =
      on_handled-view B (rest b) (rest' (B.contents b)) (same b)
        (handle_packet M D locked without_receiver conn p w)

  pub serve_loop-view :
      (B : BytesMut) (fuel : ℕ) (b : B.Buffer) (conn : Connection M) (w : World M D)
      → view B (serve_loop B M D locked without_receiver fuel b conn w)
        ≡ serve_bytes fuel (B.contents b) conn w
  unfolding serve_loop
  serve_loop-view B zero b conn w = refl
  serve_loop-view B (suc fuel) b conn w =
      let (first, left) = extract_packet-view B b in
      let extracted : ((extract_packet B b).0, B.contents (extract_packet B b).1)
          ≡ extract_packet list_buffer (B.contents b) =
        (λ i. (first i, left i)) in
      on_extracted-view B (λ b c v. serve_loop B M D locked without_receiver fuel b c v)
        (λ b c v. serve_bytes fuel b c v) (λ b c v. serve_loop-view B fuel b c v)
        (extract_packet B b).0 (extract_packet B b).1 conn w
      ∙ ap
          (λ e.
            on_extracted list_buffer M D locked without_receiver (λ b c v. serve_bytes fuel b c v) e
              conn w)
          extracted

  -- A round of the loop, by what `extract_packet` gives.
  pub serve_bytes-suc :
      (fuel : ℕ) (c rest : Bytes) (o : Option (Result Packet)) (conn : Connection M) (w : World M D)
      → extract_packet list_buffer c ≡ (o, rest)
      → serve_bytes (suc fuel) c conn w
        ≡ on_extracted list_buffer M D locked without_receiver
            (λ b k v. serve_bytes fuel b k v)
            (o, rest)
            conn
            w
  unfolding serve_loop
  serve_bytes-suc fuel c rest o conn w h =
      ap
        (λ e.
          on_extracted list_buffer M D locked without_receiver (λ b k v. serve_bytes fuel b k v) e
            conn w)
        h

  on_handled-same :
      (f g : Connection M → World M D → Served M D Bytes)
      → ((c : Connection M) (v : World M D) → f c v ≡ g c v)
      → (r : Result (Connection M × ℕ) × World M D)
      → on_handled list_buffer M D locked without_receiver f r
        ≡ on_handled list_buffer M D locked without_receiver g r
  on_handled-same f g same (err e, w) = refl
  on_handled-same f g same (ok (conn, k), w) = same conn w

  same_round :
      (f g : Bytes → Connection M → World M D → Served M D Bytes) (c rest : Bytes)
      (o : Option (Result Packet)) (conn : Connection M) (w : World M D)
      → extract_packet list_buffer c ≡ (o, rest)
      → ((k : Connection M) (v : World M D) → length rest < length c → f rest k v ≡ g rest k v)
      → on_extracted list_buffer M D locked without_receiver f (o, rest) conn w
        ≡ on_extracted list_buffer M D locked without_receiver g (o, rest) conn w
  same_round f g c rest none conn w h same = refl
  same_round f g c rest (some (err e)) conn w h same = refl
  same_round f g c rest (some (ok p)) conn w h same =
      let two = (extract_packet-append c [] rest p h).1 in
      on_handled-same (f rest) (g rest) (λ k v. same k v (omega arith))
        (handle_packet M D locked without_receiver conn p w)

  pub serve_bytes_fuel :
      (m n : ℕ) (c : Bytes) (conn : Connection M) (w : World M D)
      → length c < m
      → length c < n
      → serve_bytes m c conn w ≡ serve_bytes n c conn w
  serve_bytes_fuel zero n c conn w h k = absurd (omega arith)
  serve_bytes_fuel (suc m) zero c conn w h k = absurd (omega arith)
  serve_bytes_fuel (suc m) (suc n) c conn w h k' =
      let (o, rest) = extract_packet list_buffer c in
      serve_bytes-suc m c rest o conn w refl
      ∙ same_round (λ b k v. serve_bytes m b k v) (λ b k v. serve_bytes n b k v) c rest o conn w
          refl
          (λ k v lt. serve_bytes_fuel m n rest k v (omega (arith, lt, h)) (omega (arith, lt, k')))
      ∙ sym (serve_bytes-suc n c rest o conn w refl)
