-- ===== src/Extern/Channel.antt =====
-- The unbounded channels of the package `tokio` (`mpsc::unbounded_channel`): a sending half that can
-- be cloned, and one receiver. `Network` is the state of all channels.
use opencode_rustquitto.Base.{
  ℕ, ◌≡◌, ◌≢◌, refl, Bool, true, false, Option, none, some, ◌==◌, if◌then◌else◌, List, [], ◌∷◌,
  ◌++◌,
}
use opencode_rustquitto.Protocol.Types.{Packet}

pub record Mpsc : Type 1 where
  pub Sender : Type 0
  pub Network : Type 0
  -- `send`: the answer is whether it was `Ok`.
  pub send : Network → Sender → Packet → Network × Bool
  -- What was sent and not received yet, oldest first.
  pub queue : Network → Sender → List Packet
  -- The receiver has not been dropped.
  pub is_open : Network → Sender → Bool
  pub send_open :
      (n : Network) (s : Sender) (p : Packet)
      → is_open n s ≡ true
      → ((send n s p).1 ≡ true) × (queue (send n s p).0 s ≡ queue n s ++ (p ∷ []))
  pub send_closed :
      (n : Network) (s : Sender) (p : Packet) → is_open n s ≡ false → send n s p ≡ (n, false)
  -- The channel that a sending half belongs to; clones have the same one.
  pub channel : Sender → ℕ
  pub queue_clone : (n : Network) (s t : Sender) → channel s ≡ channel t → queue n s ≡ queue n t
  pub is_open_clone :
      (n : Network) (s t : Sender) → channel s ≡ channel t → is_open n s ≡ is_open n t
  -- A send opens and closes nothing, and leaves the other channels.
  pub is_open-send :
      (n : Network) (s t : Sender) (p : Packet) → is_open (send n s p).0 t ≡ is_open n t
  pub send_other :
      (n : Network) (s t : Sender) (p : Packet)
      → channel s ≢ channel t
      → queue (send n s p).0 t ≡ queue n t
  -- The receiving half, and the channel that it belongs to.
  pub Receiver : Type 0
  pub receiving : Receiver → ℕ
  pub unbounded_channel : Network → (Sender × Receiver) × Network
  -- `recv`, as far as it returns at once: nothing while the channel is empty.
  pub recv : Network → Receiver → Option Packet × Network
  -- The receiver goes out of scope.
  pub drop_receiver : Network → Receiver → Network
  pub channel-unbounded_channel :
      (n : Network) → channel (unbounded_channel n).0.0 ≡ receiving (unbounded_channel n).0.1
  pub is_open-unbounded_channel :
      (n : Network) → is_open (unbounded_channel n).1 (unbounded_channel n).0.0 ≡ true
  pub queue-unbounded_channel :
      (n : Network) → queue (unbounded_channel n).1 (unbounded_channel n).0.0 ≡ []
  pub recv_empty :
      (n : Network) (r : Receiver) (s : Sender)
      → receiving r ≡ channel s
      → queue n s ≡ []
      → recv n r ≡ (none, n)
  pub recv_first :
      (n : Network) (r : Receiver) (s : Sender) (p : Packet) (q : List Packet)
      → receiving r ≡ channel s
      → queue n s ≡ p ∷ q
      → ((recv n r).0 ≡ some p) × (queue (recv n r).1 s ≡ q)
  pub recv_other :
      (n : Network) (r : Receiver) (s : Sender)
      → receiving r ≢ channel s
      → queue (recv n r).1 s ≡ queue n s
  pub is_open-recv :
      (n : Network) (r : Receiver) (s : Sender) → is_open (recv n r).1 s ≡ is_open n s
  pub is_open-drop_receiver :
      (n : Network) (r : Receiver) (s : Sender)
      → is_open (drop_receiver n r) s ≡ (if receiving r == channel s then false else is_open n s)
  pub queue-drop_receiver :
      (n : Network) (r : Receiver) (s : Sender)
      → receiving r ≢ channel s
      → queue (drop_receiver n r) s ≡ queue n s

-- One channel, as an instance: its state is whether it is open, and its queue. A new channel takes
-- its place.
abbrev pub post : Bool × List Packet → Packet → (Bool × List Packet) × Bool
post (true, q) p = ((true, q ++ (p ∷ [])), true)
post (false, q) p = ((false, q), false)

abbrev pub fetch : Bool × List Packet → Option Packet × (Bool × List Packet)
fetch (o, []) = (none, (o, []))
fetch (o, p ∷ q) = (some p, (o, q))

pub post_open :
    (n : Bool × List Packet) (p : Packet)
    → n.0 ≡ true
    → ((post n p).1 ≡ true) × ((post n p).0.1 ≡ n.1 ++ (p ∷ []))
post_open (true, q) p h = (refl, refl)
post_open (false, q) p h = absurd (cc)

pub post_closed : (n : Bool × List Packet) (p : Packet) → n.0 ≡ false → post n p ≡ (n, false)
post_closed (true, q) p h = absurd (cc)
post_closed (false, q) p h = refl

pub post_keeps : (n : Bool × List Packet) (p : Packet) → (post n p).0.0 ≡ n.0
post_keeps (true, q) p = refl
post_keeps (false, q) p = refl

pub fetch_empty : (n : Bool × List Packet) → n.1 ≡ [] → fetch n ≡ (none, n)
fetch_empty (o, []) h = refl
fetch_empty (o, p ∷ q) h = absurd (cc)

pub fetch_first :
    (n : Bool × List Packet) (p : Packet) (q : List Packet)
    → n.1 ≡ p ∷ q
    → ((fetch n).0 ≡ some p) × ((fetch n).1.1 ≡ q)
fetch_first (o, []) p q h = absurd (cc)
fetch_first (o, a ∷ b) p q h = (cc, cc)

pub fetch_keeps : (n : Bool × List Packet) → (fetch n).1.0 ≡ n.0
fetch_keeps (o, []) = refl
fetch_keeps (o, p ∷ q) = refl

abbrev pub one_channel : Mpsc
one_channel = record {
  Sender = Unit {0};
  Network = Bool × List Packet;
  send = λ n s p. post n p;
  queue = λ n s. n.1;
  is_open = λ n s. n.0;
  send_open = λ n s p h. post_open n p h;
  send_closed = λ n s p h. post_closed n p h;
  channel = λ s. 0;
  queue_clone = λ n s t h. refl;
  is_open_clone = λ n s t h. refl;
  is_open-send = λ n s t p. post_keeps n p;
  send_other = λ n s t p h. absurd (h refl);
  Receiver = Unit {0};
  receiving = λ r. 0;
  unbounded_channel = λ n. ((tt, tt), (true, []));
  recv = λ n r. fetch n;
  drop_receiver = λ n r. (false, n.1);
  channel-unbounded_channel = λ n. refl;
  is_open-unbounded_channel = λ n. refl;
  queue-unbounded_channel = λ n. refl;
  recv_empty = λ n r s h e. fetch_empty n e;
  recv_first = λ n r s p q h e. fetch_first n p q e;
  recv_other = λ n r s h. absurd (h refl);
  is_open-recv = λ n r s. fetch_keeps n;
  is_open-drop_receiver = λ n r s. refl;
  queue-drop_receiver = λ n r s h. refl;
}
