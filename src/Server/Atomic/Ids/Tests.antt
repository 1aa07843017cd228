-- ===== src/Server/Atomic/Ids/Tests.antt =====
-- Three tasks ask the session of one client for identifiers.
use opencode_rustquitto.Base.{ℕ, ◌≡◌, ◌≢◌, ◌≤◌, ◌<◌, refl, List, [], ◌∷◌, arith}
use opencode_rustquitto.Extern.Channel.{one_channel}
use opencode_rustquitto.Protocol.Types.{PacketId}
use opencode_rustquitto.Broker.Session
use opencode_rustquitto.Broker.Handlers.{register_session, reply, store}
use opencode_rustquitto.Server.Connection.{connect_session}
use opencode_rustquitto.Server.Atomic.{done}
use opencode_rustquitto.Server.Atomic.Handlers.{new_packet_id}
use opencode_rustquitto.Server.Atomic.Safe.{interleave}
use opencode_rustquitto.Server.Atomic.Ids.{counter, identifiers_differ}
use opencode_rustquitto.Server.Samples.{sessions, somebody}

abbrev schedule : List ℕ
schedule = 2 ∷ 0 ∷ 1 ∷ 0 ∷ []

counts_from_one : counter one_channel sessions 0 somebody ≡ 1
unfolding connect_session register_session reply Session.new store
counts_from_one = refl

identifiers_differ_example :
    let (tasks, v) =
      interleave one_channel sessions schedule
        (λ i. new_packet_id one_channel sessions 0)
        somebody in
    ((i j : ℕ) (a b : PacketId) → i ≢ j → tasks i ≡ done a → tasks j ≡ done b → a.raw ≢ b.raw)
    × ((i : ℕ) (a : PacketId)
        → tasks i ≡ done a
        → (counter one_channel sessions 0 somebody ≤ a.raw)
          × (a.raw < counter one_channel sessions 0 v))
identifiers_differ_example =
    identifiers_differ one_channel sessions 0 schedule somebody (omega (arith, counts_from_one))
      (omega (arith, counts_from_one))
