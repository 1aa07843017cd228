-- ===== src/Server/Delivery.antt =====
-- The way of a message through the program: from the packet handler of src/server/tcp.rs over the tree
-- and the channels of src/broker to the socket of a subscriber.
mod Tests
use opencode_rustquitto.Base.{
  ℕ, zero, suc, ◌≡◌, refl, ◌∙◌, sym, ap, Bool, true, false, ◌&&◌, Option, none, some, List, [], ◌∷◌,
  ◌++◌, length, Bytes,
}
use opencode_rustquitto.Base.Count.{count}
use opencode_rustquitto.Error.{Result, ok, err}
use opencode_rustquitto.Extern.Buffer.{BytesMut}
use opencode_rustquitto.Extern.Channel.{Mpsc}
use opencode_rustquitto.Extern.DashMap.{DashMap}
use opencode_rustquitto.Text.Split.{split}
use opencode_rustquitto.Protocol.Qos.{at_most_once}
use opencode_rustquitto.Protocol.Types.{Packet, PublishPacket}
use opencode_rustquitto.Protocol.Encode.{encode}
use opencode_rustquitto.Protocol.Decode.{decode}
use opencode_rustquitto.Protocol.RoundTrip.Publish.{IsSendable, decode-encode-publish}
use opencode_rustquitto.Broker.Subscriptions.Entries.{entries}
use opencode_rustquitto.Broker.Subscriptions.WellFormed.{IsWellFormed}
use opencode_rustquitto.Broker.Subscriptions.Match.{matches_prefix}
use opencode_rustquitto.Broker.Handlers.{Address, Broker}
use opencode_rustquitto.Broker.Handlers.Publishing.{copies, of_channel, handle_publish_qos0}
use opencode_rustquitto.Server.Connection.{Connection, World, answer_publish}
use opencode_rustquitto.Server.Connection.Closing.{SameBut}
use opencode_rustquitto.Server.Tcp.{handle_packet}
use opencode_rustquitto.Server.Tcp.Loop.{Local, Status, running, connection_step}
use opencode_rustquitto.Server.Tcp.Loop.Drains.{turns, Encodes, turns-Encodes}

-- `n` times the same bytes.
abbrev pub repeat : ℕ → Bytes → List Bytes
repeat zero c = []
repeat (suc n) c = c ∷ repeat n c

length-copies : (n : ℕ) (p : Packet) → length (copies n p) ≡ n
unfolding copies
length-copies zero p = refl
length-copies (suc n) p = ap (λ k. suc k) (length-copies n p)

module _ (B : BytesMut) (M : Mpsc) (D : DashMap Address) (locked : Bool)
    (without_receiver : M.Sender) where
  open B use {Buffer, contents}

  copies-Encodes :
      (n : ℕ) (p : Packet) (out : Buffer)
      → encode B p ≡ ok out
      → Encodes B M D locked without_receiver (copies n p) (repeat n (contents out))
  unfolding copies
  copies-Encodes zero p out e = tt
  copies-Encodes (suc n) p out e = (out, e, refl, copies-Encodes n p out e)

  -- The times that a message is due on the channel of a sender.
  abbrev pub due : PublishPacket → M.Sender → Broker M D → ℕ
  due p s b =
      count (λ e. matches_prefix e.0 (split p.topic_name) && of_channel M D s e.1)
        (entries b.subscriptions.root)

  queue-handle_packet :
      (p : PublishPacket) (conn : Connection M) (w : World M D) (s : M.Sender)
      → p.qos ≡ at_most_once
      → M.is_open w.broker.net s ≡ true
      → IsWellFormed w.broker.subscriptions.root
      → M.queue (handle_packet M D locked without_receiver conn (Packet.publish p) w).1.broker.net s
        ≡ M.queue w.broker.net s ++ copies (due p s w.broker) (Packet.publish p)
  unfolding handle_packet answer_publish
  queue-handle_packet p conn w s q h tree =
      ap (λ k. M.queue (answer_publish M D locked without_receiver k conn.session p w.broker).net s)
        q
      ∙ handle_publish_qos0 M D p w.broker s q h tree

  -- A QoS 0 PUBLISH that any connection hands in, over a well-formed tree, reaches the socket of a TCP
  -- connection with an open and empty channel once for each stored subscription of that channel
  -- whose levels match a prefix of the levels of the topic: after as many turns of its channel,
  -- the connection has written as often the same bytes, which decode to the message with nothing left
  -- over, and the channel is empty again; for a message that can be sent, and a socket that takes
  -- every write.
  pub published_reaches_socket :
      (p : PublishPacket) (conn : Connection M) (w : World M D) (l : Local M Buffer)
      (rx : M.Receiver) (s : M.Sender)
      → IsSendable p
      → p.qos ≡ at_most_once
      → IsWellFormed w.broker.subscriptions.root
      → l.conn.out_rx ≡ some rx
      → M.receiving rx ≡ M.channel s
      → M.is_open w.broker.net s ≡ true
      → M.queue w.broker.net s ≡ []
      → let published = (handle_packet M D locked without_receiver conn (Packet.publish p) w).1 in
        let n = due p s w.broker in
        (bytes : Bytes) × (v : World M D) × (decode bytes ≡ ok (Packet.publish p, []))
        × (turns B M D locked without_receiver n l published
            ≡ running (record l { written = l.written ++ repeat n bytes }) v)
        × (M.queue v.broker.net s ≡ [])
  published_reaches_socket p conn w l rx s sendable q tree has own open_s empty =
      let n = due p s w.broker in
      let published = (handle_packet M D locked without_receiver conn (Packet.publish p) w).1 in
      let (out, encoded, decoded) = decode-encode-publish B p sendable in
      let queued =
        queue-handle_packet p conn w s q open_s tree
        ∙ ap (λ before. before ++ copies n (Packet.publish p)) empty in
      let (v, run, done, same) =
        turns-Encodes B M D locked without_receiver rx s (copies n (Packet.publish p))
          (repeat n (contents out)) l published has own queued
          (copies-Encodes n (Packet.publish p) out encoded) in
      (
        contents out,
        v,
        decoded,
        ap (λ k. turns B M D locked without_receiver k l published)
              (sym (length-copies n (Packet.publish p)))
            ∙ run,
        done,
      )
