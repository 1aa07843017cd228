-- ===== src/Broker/Session.antt =====
-- src/broker/session.rs: the state of one connected client. A `HashMap` is an association list with
-- the source's `insert`, `get_mut` and `remove`; a counter of 16 bits wraps by `% 65536`. Each
-- method is one step that takes the network of channels and the session, and returns them; its atomic
-- actions are in Server/Atomic/Handlers.antt.
pub mod Ids
pub mod Pending
pub mod Invariant
pub mod Effect
pub mod Handshake
use opencode_rustquitto.Base.{
  ℕ, zero, suc, ◌+◌, ◌%◌, Bool, true, false, Option, none, some, List, [], ◌∷◌, ◌==◌, if◌then◌else◌,
}
use opencode_rustquitto.Extern.Channel.{Mpsc}
use opencode_rustquitto.Text.{Text}
use opencode_rustquitto.Protocol.Qos.{Qos, at_most_once, at_least_once, exactly_once}
use opencode_rustquitto.Protocol.Types.{Packet, PacketId, PublishPacket}

pub data Qos2State : Type 0 where
  waiting_pubrec waiting_pubcomp : Qos2State

pub record PendingQos1 : Type 0 where
  pub packet : PublishPacket

pub record PendingQos2 : Type 0 where
  pub packet : PublishPacket
  pub state : Qos2State

pub record Session (Sender : Type 0) : Type 0 where
  pub client_id : Text
  pub clean_session : Bool
  pub keep_alive : ℕ
  pub sender : Sender
  pub next_packet_id : ℕ
  pub pending_qos1 : List (PacketId × PendingQos1)
  pub pending_qos2 : List (PacketId × PendingQos2)
  pub pending_outgoing : List PublishPacket

-- The maps from packet identifiers.
module _ {ℓ} {V : Type ℓ} where
  pub lookup : PacketId → List (PacketId × V) → Option V
  lookup k [] = none
  lookup k ((j, v) ∷ m) = if j.raw == k.raw then some v else lookup k m

  pub insert : PacketId → V → List (PacketId × V) → List (PacketId × V)
  insert k v [] = (k, v) ∷ []
  insert k v ((j, w) ∷ m) = if j.raw == k.raw then (j, v) ∷ m else (j, w) ∷ insert k v m

  -- `if let Some(entry) = m.get_mut(&k)`, and `f` on the entry.
  pub update : (V → V) → PacketId → List (PacketId × V) → List (PacketId × V)
  update f k [] = []
  update f k ((j, w) ∷ m) = if j.raw == k.raw then (j, f w) ∷ m else (j, w) ∷ update f k m

  unfoldable pub remove : PacketId → List (PacketId × V) → List (PacketId × V)
  remove k [] = []
  remove k ((j, w) ∷ m) = let rest = remove k m in if j.raw == k.raw then rest else (j, w) ∷ rest

-- `entry.state = QoS2State::WaitingPubcomp`
abbrev pub await_pubcomp : PendingQos2 → PendingQos2
await_pubcomp entry = record entry { state = waiting_pubcomp }

module _ {S : Type 0} where
  -- `Session::new`, with the sending half of the new channel.
  unfoldable pub new : S → Text → Bool → ℕ → Session S
  new tx client_id clean_session keep_alive = record {
    client_id = client_id;
    clean_session = clean_session;
    keep_alive = keep_alive;
    sender = tx;
    next_packet_id = 1;
    pending_qos1 = [];
    pending_qos2 = [];
    pending_outgoing = [];
  }

  -- `fetch_add` returns the old counter and wraps.
  unfoldable pub new_packet_id : Session S → PacketId × Session S
  new_packet_id s =
      let id = s.next_packet_id in
      if id == 0
      then (record { raw = 1 }, record s { next_packet_id = 1 })
      else (record { raw = id }, record s { next_packet_id = (id + 1) % 65536 })

  -- `sender`: a clone of the sending half, or of one without receiver while another task holds the
  -- lock.
  unfoldable pub sender_of : Bool → S → Session S → S
  sender_of locked without_receiver s = if locked then without_receiver else s.sender

  unfoldable pub handle_puback : PacketId → Session S → Session S
  handle_puback packet_id s = record s { pending_qos1 = remove packet_id s.pending_qos1 }

  unfoldable pub handle_pubrec : PacketId → Session S → Session S
  handle_pubrec packet_id s = record s {
    pending_qos2 = update await_pubcomp packet_id s.pending_qos2;
  }

  pub handle_pubcomp : PacketId → Session S → Session S
  handle_pubcomp packet_id s = record s { pending_qos2 = remove packet_id s.pending_qos2 }

  -- The `match packet.qos` behind a successful send.
  unfoldable pub remember : Qos → PacketId → PublishPacket → Session S → Session S
  remember at_most_once packet_id packet s = s
  remember at_least_once packet_id packet s = record s {
    pending_qos1 = insert packet_id (record { packet = packet }) s.pending_qos1;
  }
  remember exactly_once packet_id packet s = record s {
    pending_qos2 =
        insert packet_id (record { packet = packet; state = waiting_pubrec }) s.pending_qos2;
  }

module _ (M : Mpsc) where
  open M use {Network, Sender, send}

  -- QoS 1 and 2: a new identifier, the send, and the entry among the pending ones if it succeeds.
  unfoldable pub enqueue_with_id :
      Network → Session Sender → PublishPacket → Network × Session Sender
  enqueue_with_id net s packet =
      let (packet_id, s₁) = new_packet_id s in
      let packet₁ : PublishPacket = record packet { packet_id = some packet_id } in
      let (net₁, sent) = send net s₁.sender (Packet.publish packet₁) in
      if sent then (net₁, remember packet.qos packet_id packet₁ s₁) else (net₁, s₁)

  unfoldable pub enqueue_by :
      Qos → Network → Session Sender → PublishPacket → Network × Session Sender
  enqueue_by at_most_once net s packet = ((send net s.sender (Packet.publish packet)).0, s)
  enqueue_by _ net s packet = enqueue_with_id net s packet

  unfoldable pub enqueue_publish :
      Network → Session Sender → PublishPacket → Network × Session Sender
  enqueue_publish net s packet = enqueue_by packet.qos net s packet
