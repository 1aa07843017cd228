-- ===== src/Broker/Session/Ids.antt =====
-- `Session::new_packet_id` of src/broker/session.rs.
use opencode_rustquitto.Base.{ℕ, zero, suc, ◌+◌, ◌%◌, ◌≤◌, ◌<◌, ◌≡◌, refl, arith}
use opencode_rustquitto.Broker.Session.{Session, new_packet_id}

module _ {S : Type 0} where
  -- Every identifier is a number that MQTT allows, and the counter stays one of 16 bits.
  pub new_packet_id_range :
      (s : Session S)
      → s.next_packet_id < 65536
      → (1 ≤ (new_packet_id s).0.raw)
        × ((new_packet_id s).0.raw < 65536)
        × ((new_packet_id s).1.next_packet_id < 65536)
  unfolding new_packet_id
  new_packet_id_range s h = ground arith

  -- The session after `k` identifiers.
  pub after : ℕ → Session S → Session S
  after zero s = s
  after (suc k) s = (new_packet_id (after k s)).1

  counter-after :
      (k : ℕ) (s : Session S)
      → 1 ≤ s.next_packet_id
      → s.next_packet_id < 65536
      → s.next_packet_id + k ≤ 65536
      → (after k s).next_packet_id ≡ (s.next_packet_id + k) % 65536
  unfolding after new_packet_id
  counter-after zero s h b k = omega arith
  counter-after (suc k) s h b l = ground (arith, counter-after k s h)

  -- A session that starts at 1 hands out 1, 2, 3, ... up to 65535, each once.
  pub new_packet_id-after :
      (k : ℕ) (s : Session S)
      → s.next_packet_id ≡ 1
      → k < 65535
      → (new_packet_id (after k s)).0 ≡ record { raw = k + 1 }
  unfolding new_packet_id
  new_packet_id-after k s h l = ground (arith, counter-after k s)

  after-suc : (k : ℕ) (s : Session S) → after (suc k) s ≡ (new_packet_id (after k s)).1
  unfolding after
  after-suc k s = refl

  twice_at_zero :
      (s : Session S)
      → s.next_packet_id ≡ 0
      → ((new_packet_id s).0 ≡ record { raw = 1 })
        × ((new_packet_id (new_packet_id s).1).0 ≡ record { raw = 1 })
  unfolding new_packet_id
  twice_at_zero s h = ground arith

  -- Then the counter has wrapped, and the next two calls both return 1: the second one repeats an
  -- identifier that was handed out just before.
  pub new_packet_id_repeats :
      (s : Session S)
      → s.next_packet_id ≡ 1
      → ((new_packet_id (after 65535 s)).0 ≡ record { raw = 1 })
        × ((new_packet_id (after 65536 s)).0 ≡ record { raw = 1 })
  new_packet_id_repeats s h =
      let wrapped : (after 65535 s).next_packet_id ≡ 0 =
        omega (arith, counter-after 65535 s (omega arith) (omega arith) (omega arith)) in
      let twice = twice_at_zero (after 65535 s) wrapped in (twice.0, rw (after-suc 65535 s) twice.1)
