-- ===== src/Extern/Channels.antt =====
-- The channels of `tokio` once more, as an instance with any number of channels: a sending half is the
-- number of its channel. `Network` is the number of the next channel and the state of each, whether it
-- is open, and its queue.
use opencode_rustquitto.Base.{
  ℕ, suc, ◌≡◌, ◌≢◌, refl, ◌∙◌, sym, ap, Bool, true, false, Bool-cases, inl, inr, Option, none, some,
  List, [], ◌∷◌, ◌++◌, ◌==◌, ==_refl, if◌then◌else◌, arith,
}
use opencode_rustquitto.Protocol.Types.{Packet}
use opencode_rustquitto.Extern.Channel.{Mpsc}

abbrev pub State : Type 0
State = Bool × List Packet

abbrev pub Numbered : Type 0
Numbered = ℕ × (ℕ → State)

-- The state of one channel is replaced.
abbrev pub set : ℕ → State → (ℕ → State) → ℕ → State
set c x f d = if c == d then x else f d

pub set_same : (c : ℕ) (x : State) (f : ℕ → State) → set c x f c ≡ x
set_same c x f = rw (==_refl c) refl

pub set_other : (c d : ℕ) (x : State) (f : ℕ → State) → c ≢ d → set c x f d ≡ f d
set_other c d x f apart = let other : (c == d) ≡ false = ground (arith, apart) in rw other refl

-- `send`, by the state of the channel.
abbrev pub deliver : State → Numbered → ℕ → Packet → Numbered × Bool
deliver (true, q) n s p = ((n.0, set s (true, q ++ (p ∷ [])) n.1), true)
deliver (false, q) n s p = (n, false)

-- `recv`, by the state of the channel.
abbrev pub take : State → Numbered → ℕ → Option Packet × Numbered
take (o, []) n r = (none, n)
take (o, p ∷ q) n r = (some p, (n.0, set r (o, q) n.1))

pub deliver_open :
    (x : State) (n : Numbered) (s : ℕ) (p : Packet)
    → x.0 ≡ true
    → ((deliver x n s p).1 ≡ true) × (((deliver x n s p).0.1 s).1 ≡ x.1 ++ (p ∷ []))
deliver_open (true, q) n s p h =
    (refl, ap (λ (x : State). x.1) (set_same s (true, q ++ (p ∷ [])) n.1))
deliver_open (false, q) n s p h = absurd (cc)

pub deliver_closed :
    (x : State) (n : Numbered) (s : ℕ) (p : Packet) → x.0 ≡ false → deliver x n s p ≡ (n, false)
deliver_closed (true, q) n s p h = absurd (cc)
deliver_closed (false, q) n s p h = refl

pub deliver_keeps :
    (x : State) (n : Numbered) (s t : ℕ) (p : Packet)
    → n.1 s ≡ x
    → ((deliver x n s p).0.1 t).0 ≡ (n.1 t).0
deliver_keeps (false, q) n s t p at = refl
deliver_keeps (true, q) n s t p at = elim (Bool-cases (s == t)) [
  | inl here ↦
      let same : s ≡ t = ground (arith, here) in
      rw here (ap (λ (x : State). x.0) (sym at) ∙ ap (λ c. (n.1 c).0) same)
  | inr there ↦ rw there refl
]

pub deliver_other :
    (x : State) (n : Numbered) (s t : ℕ) (p : Packet)
    → s ≢ t
    → ((deliver x n s p).0.1 t).1 ≡ (n.1 t).1
deliver_other (false, q) n s t p apart = refl
deliver_other (true, q) n s t p apart =
    ap (λ (x : State). x.1) (set_other s t (true, q ++ (p ∷ [])) n.1 apart)

pub take_empty : (x : State) (n : Numbered) (r : ℕ) → x.1 ≡ [] → take x n r ≡ (none, n)
take_empty (o, []) n r h = refl
take_empty (o, p ∷ q) n r h = absurd (cc)

pub take_first :
    (x : State) (n : Numbered) (r : ℕ) (p : Packet) (q : List Packet)
    → x.1 ≡ p ∷ q
    → ((take x n r).0 ≡ some p) × (((take x n r).1.1 r).1 ≡ q)
take_first (o, []) n r p q h = absurd (cc)
take_first (o, a ∷ b) n r p q h =
    (cc, (let last : b ≡ q = cc in ap (λ (x : State). x.1) (set_same r (o, b) n.1) ∙ last))

pub take_other : (x : State) (n : Numbered) (r s : ℕ) → r ≢ s → ((take x n r).1.1 s).1 ≡ (n.1 s).1
take_other (o, []) n r s apart = refl
take_other (o, p ∷ q) n r s apart = ap (λ (x : State). x.1) (set_other r s (o, q) n.1 apart)

pub take_keeps :
    (x : State) (n : Numbered) (r s : ℕ) → n.1 r ≡ x → ((take x n r).1.1 s).0 ≡ (n.1 s).0
take_keeps (o, []) n r s at = refl
take_keeps (o, p ∷ q) n r s at = elim (Bool-cases (r == s)) [
  | inl here ↦
      let same : r ≡ s = ground (arith, here) in
      rw here (ap (λ (x : State). x.0) (sym at) ∙ ap (λ c. (n.1 c).0) same)
  | inr there ↦ rw there refl
]

pub drop_opens :
    (n : Numbered) (r s : ℕ)
    → (set r (false, (n.1 r).1) n.1 s).0 ≡ (if r == s then false else (n.1 s).0)
drop_opens n r s = elim (Bool-cases (r == s)) [
  | inl here ↦ rw here refl
  | inr there ↦ rw there refl
]

abbrev pub channels : Mpsc
channels = record {
  Sender = ℕ;
  Network = Numbered;
  send = λ n s p. deliver (n.1 s) n s p;
  queue = λ n s. (n.1 s).1;
  is_open = λ n s. (n.1 s).0;
  send_open = λ n s p h. deliver_open (n.1 s) n s p h;
  send_closed = λ n s p h. deliver_closed (n.1 s) n s p h;
  channel = λ s. s;
  queue_clone = λ n s t h. ap (λ c. (n.1 c).1) h;
  is_open_clone = λ n s t h. ap (λ c. (n.1 c).0) h;
  is_open-send = λ n s t p. deliver_keeps (n.1 s) n s t p refl;
  send_other = λ n s t p h. deliver_other (n.1 s) n s t p h;
  Receiver = ℕ;
  receiving = λ r. r;
  unbounded_channel = λ n. ((n.0, n.0), (suc n.0, set n.0 (true, []) n.1));
  recv = λ n r. take (n.1 r) n r;
  drop_receiver = λ n r. (n.0, set r (false, (n.1 r).1) n.1);
  channel-unbounded_channel = λ n. refl;
  is_open-unbounded_channel = λ n. ap (λ (x : State). x.0) (set_same n.0 (true, []) n.1);
  queue-unbounded_channel = λ n. ap (λ (x : State). x.1) (set_same n.0 (true, []) n.1);
  recv_empty = λ n r s h e. take_empty (n.1 r) n r (ap (λ c. (n.1 c).1) h ∙ e);
  recv_first = λ n r s p q h e.
      let (first, rest) = take_first (n.1 r) n r p q (ap (λ c. (n.1 c).1) h ∙ e) in
      (first, ap (λ c. ((take (n.1 r) n r).1.1 c).1) (sym h) ∙ rest);
  recv_other = λ n r s h. take_other (n.1 r) n r s h;
  is_open-recv = λ n r s. take_keeps (n.1 r) n r s refl;
  is_open-drop_receiver = λ n r s. drop_opens n r s;
  queue-drop_receiver = λ n r s h. ap (λ (x : State). x.1) (set_other r s (false, (n.1 r).1) n.1 h);
}
