-- ===== src/Broker/Session/Invariant.antt =====
-- What holds of a session of src/broker/session.rs between two calls of its methods.
use opencode_rustquitto.Base.{
  ℕ, ◌<◌, ◌≡◌, refl, sym, ◌∙◌, subst, Bool, Bool-cases, inl, inr, Option, none, some, List, ◌==◌,
  arith,
}
use mathlib.Core.Option
use opencode_rustquitto.Extern.Channel.{Mpsc}
use opencode_rustquitto.Text.{Text}
use opencode_rustquitto.Protocol.Qos.{Qos, at_most_once, at_least_once, exactly_once}
use opencode_rustquitto.Protocol.Types.{Packet, PacketId, PublishPacket}
use opencode_rustquitto.Broker.Session.{
  Session, PendingQos1, PendingQos2, lookup, insert, update, remove, await_pubcomp, new_packet_id,
  remember, enqueue_with_id, enqueue_by, enqueue_publish, handle_puback, handle_pubrec,
  handle_pubcomp,
}
use opencode_rustquitto.Broker.Session
use opencode_rustquitto.Broker.Session.Pending.{lookup-insert, lookup-remove, lookup-update}

-- Every entry of a map of messages in flight satisfies `P` with its key.
module _ {V : Type 0} (P : PacketId → V → Type 0) where
  abbrev pub Each : List (PacketId × V) → Type 0
  Each m = (k : PacketId) (v : V) → lookup k m ≡ some v → P k v

  Each-insert :
      (k : PacketId) (v : V) (m : List (PacketId × V)) → P k v → Each m → Each (insert k v m)
  Each-insert k v m p h j u e = elim (Bool-cases (k.raw == j.raw)) [
    | inl here ↦
        let same : k.raw ≡ j.raw = ground (arith, here) in
        let found : v ≡ u = let x = rw here at (sym (lookup-insert k j v m) ∙ e) in cc in
        subst (λ (t : PacketId × V). P t.0 t.1) (λ i. (record { raw = same i }, found i)) p
    | inr there ↦ h j u (rw there at (sym (lookup-insert k j v m) ∙ e))
  ]

  Each-remove : (k : PacketId) (m : List (PacketId × V)) → Each m → Each (remove k m)
  Each-remove k m h j u e = elim (Bool-cases (k.raw == j.raw)) [
    | inl here ↦ absurd (let x = rw here at (sym (lookup-remove k j m) ∙ e) in cc)
    | inr there ↦ h j u (rw there at (sym (lookup-remove k j m) ∙ e))
  ]

  Each-update :
      (f : V → V) (k : PacketId) (m : List (PacketId × V))
      → ((j : PacketId) (v : V) → P j v → P j (f v))
      → Each m
      → Each (update f k m)
  Each-update f k m step h j u e = elim (Bool-cases (k.raw == j.raw)) [
    | inl here ↦ mapped (lookup j m) refl (rw here at (sym (lookup-update f k j m) ∙ e))
    | inr there ↦ h j u (rw there at (sym (lookup-update f k j m) ∙ e))
  ]
    where
      mapped : (o : Option V) → lookup j m ≡ o → Option.map f o ≡ some u → P j u
      mapped none g x = absurd (cc)
      mapped (some v) g x = subst (λ t. P j t) (cc) (step j v (h j v g))

-- An entry holds the packet that was sent under its identifier, with the QoS of its map.
abbrev pub OfQos1 : PacketId → PendingQos1 → Type 0
OfQos1 k e = (e.packet.packet_id ≡ some k) × (e.packet.qos ≡ at_least_once)

abbrev pub OfQos2 : PacketId → PendingQos2 → Type 0
OfQos2 k e = (e.packet.packet_id ≡ some k) × (e.packet.qos ≡ exactly_once)

module _ {S : Type 0} where
  pub record IsSession (s : Session S) : Type 0 where
    -- The counter of identifiers is a 16-bit number.
    pub counted : s.next_packet_id < 65536
    pub qos1 : Each OfQos1 s.pending_qos1
    pub qos2 : Each OfQos2 s.pending_qos2

  -- A session under a change: the client stays, and the invariant holds on.
  pub record KeepsSession (s s' : Session S) : Type 0 where
    pub client_id : s'.client_id ≡ s.client_id
    pub kept : IsSession s → IsSession s'

  pub new-IsSession :
      (tx : S) (client_id : Text) (clean_session : Bool) (keep_alive : ℕ)
      → IsSession (Session.new tx client_id clean_session keep_alive)
  unfolding Session.new lookup
  new-IsSession tx client_id clean_session keep_alive = record {
    counted = omega arith;
    qos1 = λ k v e. absurd (cc);
    qos2 = λ k v e. absurd (cc);
  }

  new_packet_id-KeepsSession : (s : Session S) → KeepsSession s (new_packet_id s).1
  unfolding new_packet_id
  new_packet_id-KeepsSession s = elim (Bool-cases (s.next_packet_id == 0)) [
    | inl zero ↦ rw zero (record {
      client_id = refl;
      kept = λ h. record { counted = omega arith; qos1 = h.qos1; qos2 = h.qos2 };
    })
    | inr more ↦ rw more (record {
      client_id = refl;
      kept = λ h. record { counted = omega arith; qos1 = h.qos1; qos2 = h.qos2 };
    })
  ]

  pub remember-KeepsSession :
      (q : Qos) (id : PacketId) (p : PublishPacket) (s : Session S)
      → p.qos ≡ q
      → p.packet_id ≡ some id
      → KeepsSession s (remember q id p s)
  unfolding remember
  remember-KeepsSession at_most_once id p s e i = record { client_id = refl; kept = λ h. h }
  remember-KeepsSession at_least_once id p s e i = record {
    client_id = refl;
    kept = λ h. record {
      counted = h.counted;
      qos1 = Each-insert OfQos1 id (record { packet = p }) s.pending_qos1 (i, e) h.qos1;
      qos2 = h.qos2;
    };
  }
  remember-KeepsSession exactly_once id p s e i = record {
    client_id = refl;
    kept = λ h. record {
      counted = h.counted;
      qos1 = h.qos1;
      qos2 =
          Each-insert OfQos2 id (record { packet = p; state = Session.waiting_pubrec })
            s.pending_qos2 (i, e) h.qos2;
    };
  }

  KeepsSession-trans : (r s t : Session S) → KeepsSession r s → KeepsSession s t → KeepsSession r t
  KeepsSession-trans r s t f g = record {
    client_id = g.client_id ∙ f.client_id;
    kept = λ h. g.kept (f.kept h);
  }

  pub acknowledged :
      (id : PacketId) (s : Session S)
      → KeepsSession s (handle_puback id s)
        × KeepsSession s (handle_pubrec id s)
        × KeepsSession s (handle_pubcomp id s)
  unfolding handle_puback handle_pubrec handle_pubcomp
  acknowledged id s = (
    record {
      client_id = refl;
      kept = λ h. record {
        counted = h.counted;
        qos1 = Each-remove OfQos1 id s.pending_qos1 h.qos1;
        qos2 = h.qos2;
      };
    },
    record {
      client_id = refl;
      kept = λ h. record {
        counted = h.counted;
        qos1 = h.qos1;
        qos2 = Each-update OfQos2 await_pubcomp id s.pending_qos2 (λ j v p. p) h.qos2;
      };
    },
    record {
      client_id = refl;
      kept = λ h. record {
        counted = h.counted;
        qos1 = h.qos1;
        qos2 = Each-remove OfQos2 id s.pending_qos2 h.qos2;
      };
    },
  )

module _ (M : Mpsc) where
  enqueue_with_id-KeepsSession :
      (net : M.Network) (s : Session M.Sender) (p : PublishPacket)
      → KeepsSession s (enqueue_with_id M net s p).1
  unfolding enqueue_with_id
  enqueue_with_id-KeepsSession net s p =
      let (id, s₁) = new_packet_id s in
      let p₁ : PublishPacket = record p { packet_id = some id } in
      let fresh = new_packet_id-KeepsSession s in
      elim (Bool-cases (M.send net s₁.sender (Packet.publish p₁)).1) [
        | inl sent ↦ rw sent (
            KeepsSession-trans s s₁ (remember p.qos id p₁ s₁) fresh
              (remember-KeepsSession p.qos id p₁ s₁ refl refl))
        | inr lost ↦ rw lost fresh
      ]

  pub enqueue_publish-KeepsSession :
      (net : M.Network) (s : Session M.Sender) (p : PublishPacket)
      → KeepsSession s (enqueue_publish M net s p).1
  unfolding enqueue_publish
  enqueue_publish-KeepsSession net s p = by_qos p.qos
    where
      by_qos : (q : Qos) → KeepsSession s (enqueue_by M q net s p).1
      by_qos at_most_once = unfold enqueue_by in record { client_id = refl; kept = λ h. h }
      by_qos at_least_once = unfold enqueue_by in enqueue_with_id-KeepsSession net s p
      by_qos exactly_once = unfold enqueue_by in enqueue_with_id-KeepsSession net s p
