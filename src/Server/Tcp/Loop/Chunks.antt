-- ===== src/Server/Tcp/Loop/Chunks.antt =====
-- The packets that `handle_connection` of src/server/tcp.rs handles do not depend on the portions in
-- which their bytes arrive.
use opencode_rustquitto.Base.{
  ℕ, zero, suc, ◌<◌, ◌≡◌, refl, ◌∙◌, sym, ap, Bool, Option, none, some, ◌∷◌, ◌++◌, length,
  length-append, append_assoc, Bytes, arith,
}
use opencode_rustquitto.Error.{Result, ok, err}
use opencode_rustquitto.Extern.Buffer.{BytesMut, list_buffer}
use opencode_rustquitto.Extern.Channel.{Mpsc}
use opencode_rustquitto.Extern.DashMap.{DashMap}
use opencode_rustquitto.Protocol.Types.{Packet}
use opencode_rustquitto.Broker.Handlers.{Address}
use opencode_rustquitto.Server.Connection.{Connection, World}
use opencode_rustquitto.Server.Extract.{extract_packet}
use opencode_rustquitto.Server.Extract.Growing.{extract_packet-append, extract_packet-none}
use opencode_rustquitto.Server.Tcp.{handle_packet}
use opencode_rustquitto.Server.Tcp.Loop.{
  Served, waiting, failed, Local, Status, running, returned, received, on_handled, on_extracted,
  on_served, serve, connection_step,
}
use opencode_rustquitto.Server.Tcp.Loop.Fuel.{
  view, serve_bytes, serve_loop-view, serve_bytes-suc, serve_bytes_fuel,
}

module _ (M : Mpsc) (D : DashMap Address) (locked : Bool) (without_receiver : M.Sender) where
  abbrev serve_here : ℕ → Bytes → Connection M → World M D → Served M D Bytes
  serve_here = serve_bytes M D locked without_receiver

  -- The first portion is served with `m`, the second one with `n`, and both at once with `k`.
  Chunked : ℕ → Type 0
  Chunked m =
      (n k : ℕ) (c more left : Bytes) (conn conn' : Connection M) (w w' : World M D)
      → length c < m
      → length (left ++ more) < n
      → length (c ++ more) < k
      → serve_here m c conn w ≡ waiting left conn' w'
      → serve_here k (c ++ more) conn w ≡ serve_here n (left ++ more) conn' w'

  chunk_handled :
      (m n k : ℕ) (rest more left : Bytes) (conn' : Connection M) (w' : World M D)
      (r : Result (Connection M × ℕ) × World M D)
      → Chunked m
      → length rest < m
      → length (left ++ more) < n
      → length (rest ++ more) < k
      → on_handled list_buffer M D locked without_receiver (λ c v. serve_here m rest c v) r
        ≡ waiting left conn' w'
      → on_handled list_buffer M D locked without_receiver
          (λ c v. serve_here k (rest ++ more) c v)
          r
        ≡ serve_here n (left ++ more) conn' w'
  unfolding Chunked
  chunk_handled m n k rest more left conn' w' (err e, v) ih a b d h = absurd (cc)
  chunk_handled m n k rest more left conn' w' (ok (conn, t), v) ih a b d h =
      ih n k rest more left conn conn' v w' a b d h

  chunk_extracted :
      (m n k : ℕ) (c rest more left : Bytes) (o : Option (Result Packet))
      (conn conn' : Connection M) (w w' : World M D)
      → Chunked m
      → extract_packet list_buffer c ≡ (o, rest)
      → length c < suc m
      → length (left ++ more) < n
      → length (c ++ more) < suc k
      → on_extracted list_buffer M D locked without_receiver
          (λ b q v. serve_here m b q v)
          (o, rest)
          conn
          w
        ≡ waiting left conn' w'
      → serve_here (suc k) (c ++ more) conn w ≡ serve_here n (left ++ more) conn' w'
  chunk_extracted m n k c rest more left none conn conn' w w' ih e a b d h =
      let same_bytes : c ≡ left = sym (extract_packet-none c rest e) ∙ cc in
      let same_conn : conn ≡ conn' = cc in
      let same_world : w ≡ w' = cc in
      serve_bytes_fuel M D locked without_receiver (suc k) n (c ++ more) conn w d
        (rw (← same_bytes) at b)
      ∙ (λ i. serve_here n (same_bytes i ++ more) (same_conn i) (same_world i))
  chunk_extracted m n k c rest more left (some (err x)) conn conn' w w' ih e a b d h = absurd (cc)
  chunk_extracted m n k c rest more left (some (ok p)) conn conn' w w' ih e a b d h =
      let (longer, two) = extract_packet-append c more rest p e in
      serve_bytes-suc M D locked without_receiver k (c ++ more) (rest ++ more) (some (ok p)) conn w
        longer
      ∙ chunk_handled m n k rest more left conn' w'
          (handle_packet M D locked without_receiver conn p w) ih (omega arith) b
          (omega (arith, length-append c more, length-append rest more)) h

  chunked : (m : ℕ) → Chunked m
  unfolding Chunked
  chunked zero n k c more left conn conn' w w' a b d h = absurd (omega arith)
  chunked (suc m) n zero c more left conn conn' w w' a b d h = absurd (omega arith)
  chunked (suc m) n (suc k) c more left conn conn' w w' a b d h =
      let (o, rest) = extract_packet list_buffer c in
      chunk_extracted m n k c rest more left o conn conn' w w' (chunked m) refl a b d
        (sym (serve_bytes-suc M D locked without_receiver m c rest o conn w refl) ∙ h)

-- A state of the connection, with the bytes of the buffer in its place.
abbrev pub local_view : {M : Mpsc} (B : BytesMut) → Local M B.Buffer → Local M Bytes
local_view B l = record { buf = B.contents l.buf; conn = l.conn; written = l.written }

abbrev pub status_view :
    {M : Mpsc} {D : DashMap Address} (B : BytesMut) → Status M D B.Buffer → Status M D Bytes
status_view B (running l w) = running (local_view B l) w
status_view B (returned r w) = returned r w

module _ (B : BytesMut) (M : Mpsc) (D : DashMap Address) (locked : Bool)
    (without_receiver : M.Sender) where
  on_served-view :
      (l : Local M B.Buffer) (s : Served M D B.Buffer)
      → status_view B (on_served B M D locked without_receiver l s)
        ≡ on_served list_buffer M D locked without_receiver
            (local_view B l)
            (view M D locked without_receiver B s)
  on_served-view l (waiting buf conn w) = refl
  on_served-view l (failed e w) = refl

  serve-view :
      (buf : B.Buffer) (c : Bytes) (conn : Connection M) (w : World M D)
      → B.contents buf ≡ c
      → view M D locked without_receiver B (serve B M D locked without_receiver buf conn w)
        ≡ serve_bytes M D locked without_receiver (suc (length c)) c conn w
  unfolding serve
  serve-view buf c conn w e =
      serve_loop-view M D locked without_receiver B (suc (length (B.contents buf))) buf conn w
      ∙ ap (λ (b : Bytes). serve_bytes M D locked without_receiver (suc (length b)) b conn w) e

  pub step_received :
      (x : ℕ) (a c : Bytes) (l : Local M B.Buffer) (w : World M D)
      → B.contents l.buf ≡ c
      → status_view B (connection_step B M D locked without_receiver (received (x ∷ a)) l w)
        ≡ on_served list_buffer M D locked without_receiver (local_view B l) (
            serve_bytes M D locked without_receiver
              (suc (length (c ++ (x ∷ a))))
              (c ++ (x ∷ a))
              l.conn
              w)
  unfolding connection_step
  step_received x a c l w e =
      on_served-view l (serve B M D locked without_receiver (B.put l.buf (x ∷ a)) l.conn w)
      ∙ ap (λ s. on_served list_buffer M D locked without_receiver (local_view B l) s)
          (serve-view (B.put l.buf (x ∷ a)) (c ++ (x ∷ a)) l.conn w
            (B.contents-put l.buf (x ∷ a) ∙ ap (λ (b : Bytes). b ++ (x ∷ a)) e))

  -- What was served takes the place of all but the bytes written.
  on_served-written :
      (l l' : Local M Bytes) (s : Served M D Bytes)
      → l.written ≡ l'.written
      → on_served list_buffer M D locked without_receiver l s
        ≡ on_served list_buffer M D locked without_receiver l' s
  on_served-written l l' (waiting buf conn w) h = cc
  on_served-written l l' (failed e w) h = refl

  continued :
      (x y : ℕ) (a b : Bytes) (l : Local M Bytes) (l₁ : Local M B.Buffer) (w w₁ : World M D)
      (s : Served M D Bytes)
      → serve_bytes M D locked without_receiver
          (suc (length (l.buf ++ (x ∷ a))))
          (l.buf ++ (x ∷ a))
          l.conn
          w
        ≡ s
      → on_served list_buffer M D locked without_receiver l s ≡ running (local_view B l₁) w₁
      → on_served list_buffer M D locked without_receiver (local_view B l₁) (
          serve_bytes M D locked without_receiver
            (suc (length (B.contents l₁.buf ++ (y ∷ b))))
            (B.contents l₁.buf ++ (y ∷ b))
            l₁.conn
            w₁)
        ≡ on_served list_buffer M D locked without_receiver l (
            serve_bytes M D locked without_receiver
              (suc (length (l.buf ++ (x ∷ a ++ (y ∷ b)))))
              (l.buf ++ (x ∷ a ++ (y ∷ b)))
              l.conn
              w)
  unfolding Chunked
  continued x y a b l l₁ w w₁ (failed r v) e h = absurd (cc)
  continued x y a b l l₁ w w₁ (waiting left conn' w') e h =
      let more = y ∷ b in
      let c = l.buf ++ (x ∷ a) in
      let same_bytes : B.contents l₁.buf ≡ left = cc in
      let same_conn : l₁.conn ≡ conn' = cc in
      let same_world : w₁ ≡ w' = cc in
      let same_written : l₁.written ≡ l.written = cc in
      (λ i. on_served list_buffer M D locked without_receiver (local_view B l₁) (
        serve_bytes M D locked without_receiver (suc (length (same_bytes i ++ more)))
          (same_bytes i ++ more) (same_conn i) (same_world i)))
      ∙ on_served-written (local_view B l₁) l
          (serve_bytes M D locked without_receiver (suc (length (left ++ more))) (left ++ more)
            conn' w')
          same_written
      ∙ ap (λ t. on_served list_buffer M D locked without_receiver l t)
          (sym (
              chunked M D locked without_receiver (suc (length c)) (suc (length (left ++ more)))
                (suc (length (c ++ more))) c more left l.conn conn' w w' (omega arith) (omega arith)
                (omega arith) e)
            ∙ ap
                (λ (d : Bytes). serve_bytes M D locked without_receiver (suc (length d)) d l.conn w)
                (append_assoc l.buf (x ∷ a) more))

  -- Two portions of bytes, one after the other, do the same as both at once: if the connection goes
  -- on after the first one, the second one leaves it in the state, and with the broker and the
  -- result, that the joined portion gives, up to the buffer's representation.
  pub received_in_portions :
      (x y : ℕ) (a b : Bytes) (l l₁ : Local M B.Buffer) (w w₁ : World M D)
      → connection_step B M D locked without_receiver (received (x ∷ a)) l w ≡ running l₁ w₁
      → status_view B (connection_step B M D locked without_receiver (received (y ∷ b)) l₁ w₁)
        ≡ status_view B
            (connection_step B M D locked without_receiver (received (x ∷ a ++ (y ∷ b))) l w)
  received_in_portions x y a b l l₁ w w₁ h =
      step_received y b (B.contents l₁.buf) l₁ w₁ refl
      ∙ continued x y a b (local_view B l) l₁ w w₁ _ refl
          (sym (step_received x a (B.contents l.buf) l w refl) ∙ ap (λ s. status_view B s) h)
      ∙ sym (step_received x (a ++ (y ∷ b)) (B.contents l.buf) l w refl)
