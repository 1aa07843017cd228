-- ===== src/Server/Atomic/Interleaved/Tests.antt =====
-- The theorems on connections by atomic actions, at one client and its connections.
use opencode_rustquitto.Base.{ℕ, ◌≡◌, true, false, List, [], ◌∷◌, Bytes}
use opencode_rustquitto.Extern.Buffer.{list_buffer}
use opencode_rustquitto.Extern.Channel.{one_channel}
use opencode_rustquitto.Protocol.PacketType
use opencode_rustquitto.Protocol.Wire.{frame, connect_body}
use opencode_rustquitto.Broker.Handlers.Invariant.Registered.{new-IsBroker}
use opencode_rustquitto.Server.Connection.Invariant.{IsWorld, IsConnection, Grows}
use opencode_rustquitto.Server.Tcp.Loop.{Local, received, connection_step}
use opencode_rustquitto.Server.System.{new_local}
use opencode_rustquitto.Server.Atomic.{run, done}
use opencode_rustquitto.Server.Atomic.Safe.{interleave}
use opencode_rustquitto.Server.Atomic.Loop.{running, connection_turn, connection}
use opencode_rustquitto.Server.Atomic.Loop.Agree.{apart, run-connection_turn}
use opencode_rustquitto.Server.Atomic.Interleaved.{interleaved_connections}
use opencode_rustquitto.Server.Samples.{login, sessions, unused, nobody, visits}

abbrev local : Local one_channel Bytes
local = new_local list_buffer one_channel sessions tt

abbrev login_bytes : Bytes
login_bytes = frame PacketType.connect 0 (connect_body login)

run-connection_turn_example :
    run
      (connection_turn list_buffer one_channel sessions tt false (received login_bytes) local)
      nobody
    ≡ apart list_buffer one_channel sessions tt false (
        connection_step list_buffer one_channel sessions false tt
          (received login_bytes)
          local
          nobody)
run-connection_turn_example =
    run-connection_turn list_buffer one_channel sessions tt false (received login_bytes) local
      nobody

-- The first two connections take turns.
abbrev schedule : List ℕ
schedule = 0 ∷ 1 ∷ 1 ∷ 0 ∷ 0 ∷ 1 ∷ 0 ∷ 1 ∷ []

interleaved_connections_example :
    let (tasks, v) =
      interleave one_channel sessions schedule
        (λ i. connection list_buffer one_channel sessions tt (visits i) local)
        nobody in
    IsWorld one_channel sessions v
    × Grows one_channel sessions nobody v
    × ((i : ℕ) (l : Local one_channel Bytes)
        → tasks i ≡ done (running l)
        → IsConnection one_channel sessions l.conn v)
unfolding IsConnection
interleaved_connections_example =
    interleaved_connections list_buffer one_channel sessions tt visits (λ i. local) schedule nobody
      (new-IsBroker one_channel sessions unused (true, [])) (λ i a e. absurd (cc))
