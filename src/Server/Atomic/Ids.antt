-- ===== src/Server/Atomic/Ids.antt =====
-- `new_packet_id` of src/broker/session.rs, called by several tasks for the same session.
mod Tests
use opencode_rustquitto.Base.{
  ℕ, zero, suc, ◌+◌, ◌%◌, ◌≤◌, ◌<◌, ◌≡◌, ◌≢◌, refl, sym, ap, subst, ◌∙◌, ◌⊎◌, inl, inr, Bool, true,
  false, Bool-cases, List, [], ◌∷◌, length, ◌==◌, if◌then◌else◌, arith,
}
use opencode_rustquitto.Extern.Channel.{Mpsc}
use opencode_rustquitto.Extern.DashMap.{DashMap}
use opencode_rustquitto.Protocol.Types.{PacketId}
use opencode_rustquitto.Broker.Session.{Session}
use opencode_rustquitto.Broker.Handlers.{Address}
use opencode_rustquitto.Broker.Handlers.Acknowledging.{store_same}
use opencode_rustquitto.Server.Connection.{World}
use opencode_rustquitto.Server.System.{place}
use opencode_rustquitto.Server.Atomic.{Program, done, act}
use opencode_rustquitto.Server.Atomic.Handlers.{Task, count_up, on_session, new_packet_id}
use opencode_rustquitto.Server.Atomic.Safe.{advance, interleave}

module _ (M : Mpsc) (D : DashMap Address) (r : Address) where
  -- The counter of the session.
  abbrev pub counter : World M D → ℕ
  counter w = (w.broker.heap r).next_packet_id

  -- A call has not begun, or has returned an identifier from `low` to below `high`.
  abbrev Called : ℕ → ℕ → Task M D PacketId → Type 0
  Called low high p =
      (p ≡ new_packet_id M D r)
      ⊎ ((id : PacketId) × (p ≡ done id) × (low ≤ id.raw) × (id.raw < high))

  abbrev Differ : (ℕ → Task M D PacketId) → Type 0
  Differ tasks =
      (i j : ℕ) (a b : PacketId) → i ≢ j → tasks i ≡ done a → tasks j ≡ done b → a.raw ≢ b.raw

  record HandsOut (low : ℕ) (tasks : ℕ → Task M D PacketId) (w : World M D) : Type 0 where
    above : low ≤ counter w
    calls : (i : ℕ) → Called low (counter w) (tasks i)
    differ : Differ tasks

  -- A call that begins away from the wrap returns the counter, which goes up by one.
  advance-new_packet_id :
      (w : World M D)
      → 1 ≤ counter w
      → suc (counter w) < 65536
      → (advance M D (new_packet_id M D r) w).0 ≡ done (record { raw = counter w })
        × counter (advance M D (new_packet_id M D r) w).1 ≡ suc (counter w)
  unfolding new_packet_id
  advance-new_packet_id w pos small =
      let more : (counter w == 0) ≡ false = ground (arith, pos) in
      (
        rw more refl,
        ap (λ (s : Session M.Sender). s.next_packet_id)
              (store_same M D r (count_up (w.broker.heap r)) w.broker.heap)
            ∙ omega (arith, small),
      )

  returned_below :
      (low high : ℕ) (p : Task M D PacketId) (b : PacketId)
      → Called low high p
      → p ≡ done b
      → b.raw < high
  unfolding new_packet_id
  returned_below low high p b (inl e) f = absurd (let x = sym e ∙ f in cc)
  returned_below low high p b (inr (id, e, le, lt)) f =
      let same : id.raw ≡ b.raw = let x = sym e ∙ f in cc in omega (arith, same, lt)

  HandsOut-place :
      (low i : ℕ) (p : Task M D PacketId) (tasks : ℕ → Task M D PacketId) (w v : World M D)
      → HandsOut low tasks w
      → counter w ≤ counter v
      → Called low (counter v) p
      → ((j : ℕ) (a b : PacketId) → i ≢ j → p ≡ done a → tasks j ≡ done b → a.raw ≢ b.raw)
      → HandsOut low (place i p tasks) v
  unfolding place
  HandsOut-place low i p tasks w v h le new other = record {
    above = omega (arith, h.above, le);
    calls = λ j. elim (Bool-cases (i == j)) [
      | inl here ↦ rw here new
      | inr there ↦ rw there (elim (h.calls j) [
        | inl e ↦ inl e
        | inr (id, e, low_le, lt) ↦ inr (id, e, low_le, omega (arith, lt, le))
      ])
    ];
    differ = λ j k a b ne at_j at_k. elim (Bool-cases (i == j)) [
      | inl here ↦ elim (Bool-cases (i == k)) [
        | inl both ↦ absurd (ne (ground (arith, here, both)))
        | inr apart ↦ other k a b (ground (arith, apart)) (rw here at at_j) (rw apart at at_k)
      ]
      | inr there ↦ elim (Bool-cases (i == k)) [
        | inl here ↦
            λ x. other j b a (ground (arith, there)) (rw here at at_k) (rw there at at_j) (sym x)
        | inr apart ↦ h.differ j k a b ne (rw there at at_j) (rw apart at at_k)
      ]
    ];
  }

  HandsOut-advance :
      (low i : ℕ) (tasks : ℕ → Task M D PacketId) (w : World M D)
      → 1 ≤ low
      → suc (counter w) < 65536
      → HandsOut low tasks w
      → let (p, v) = advance M D (tasks i) w in
        HandsOut low (place i p tasks) v × (counter v ≤ suc (counter w))
  HandsOut-advance low i tasks w pos small h = elim (h.calls i) [
    | inl e ↦
        let (returns, counts) = advance-new_packet_id w (omega (arith, pos, h.above)) small in
        let (p, v) = advance M D (new_packet_id M D r) w in
        rw e (
          HandsOut-place low i p tasks w v h (omega (arith, counts))
              (inr (record { raw = counter w }, returns, h.above, omega (arith, counts)))
              (λ j a b ne at_i at_j.
                let first : counter w ≡ a.raw = let x = sym returns ∙ at_i in cc in
                let lt = returned_below low (counter w) (tasks j) b (h.calls j) at_j in
                λ x. omega (arith, first, lt, x)),
          omega (arith, counts),
        )
    | inr (id, e, le, lt) ↦ rw e (
      HandsOut-place low i (done id) tasks w w h (omega arith) (inr (id, refl, le, lt))
          (λ j a b ne at_i at_j. h.differ i j a b ne (e ∙ at_i) at_j),
      omega arith,
    )
  ]

  HandsOut-interleave :
      (low : ℕ) (schedule : List ℕ) (tasks : ℕ → Task M D PacketId) (w : World M D)
      → 1 ≤ low
      → counter w + length schedule < 65536
      → HandsOut low tasks w
      → let (ended, v) = interleave M D schedule tasks w in HandsOut low ended v
  unfolding interleave
  HandsOut-interleave low [] tasks w pos small h = h
  HandsOut-interleave low (i ∷ schedule) tasks w pos small h =
      let (p, v) = advance M D (tasks i) w in
      let (next, le) = HandsOut-advance low i tasks w pos (omega (arith, small)) h in
      HandsOut-interleave low schedule (place i p tasks) v pos (omega (arith, small, le)) next

  -- Tasks ask the same session for packet identifiers, and their turns come in any order, as long as
  -- the counter starts at 1 or more and does not wrap within so many turns. Then two of them never
  -- get the same identifier, and each identifier is the first value of the counter or a later one.
  pub identifiers_differ :
      (schedule : List ℕ) (w : World M D)
      → 1 ≤ counter w
      → counter w + length schedule < 65536
      → let (tasks, v) = interleave M D schedule (λ i. new_packet_id M D r) w in
        ((i j : ℕ) (a b : PacketId) → i ≢ j → tasks i ≡ done a → tasks j ≡ done b → a.raw ≢ b.raw)
        × ((i : ℕ) (a : PacketId) → tasks i ≡ done a → (counter w ≤ a.raw) × (a.raw < counter v))
  unfolding new_packet_id
  identifiers_differ schedule w pos small =
      let h =
        HandsOut-interleave (counter w) schedule (λ i. new_packet_id M D r) w pos small
          (record {
            above = omega arith;
            calls = λ i. inl refl;
            differ = λ i j a b ne e f. absurd (cc);
          }) in
      (
        h.differ,
        λ i a e. elim (h.calls i) [
          | inl not_begun ↦ absurd (let x = sym not_begun ∙ e in cc)
          | inr (id, at_i, le, lt) ↦
              let same : id.raw ≡ a.raw = let x = sym at_i ∙ e in cc in
              (omega (arith, le, same), omega (arith, lt, same))
        ],
      )
