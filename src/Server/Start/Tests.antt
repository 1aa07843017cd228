-- ===== src/Server/Start/Tests.antt =====
-- Runs of the program of a few steps.
use opencode_rustquitto.Base.{refl, none, some, true, [], Bytes}
use opencode_rustquitto.Error.{ok}
use opencode_rustquitto.Extern.Buffer.{list_buffer}
use opencode_rustquitto.Extern.Channel.{one_channel}
use opencode_rustquitto.Server.System.{idle}
use opencode_rustquitto.Server.Start.{
  default_config, starting, listening, bind_tcp, bind_ws, main_result, Process, tcp_binds, ws_binds,
  returns, Runs, start, later,
}
use opencode_rustquitto.Server.Samples.{sessions, unused, nobody}

abbrev started : Process one_channel sessions Bytes
started = record {
  tcp = starting;
  ws = starting;
  system = record { world = nobody; tasks = λ i. idle };
  result = none;
}

abbrev up : Process one_channel sessions Bytes
up = record started { tcp = listening }

-- The port of the WebSocket server is in use.
abbrev down : Process one_channel sessions Bytes
down = record up { ws = bind_ws default_config (some 98); result = some (ok tt) }

up-Runs : Runs list_buffer one_channel sessions tt default_config up
unfolding bind_tcp
up-Runs =
    later
      (start (record {
        tcp = refl;
        ws = refl;
        system = record { heap = unused; net = (true, []); world = refl; tasks = λ i. refl };
        result = refl;
      }))
      (tcp_binds none refl refl)

down-Runs : Runs list_buffer one_channel sessions tt default_config down
unfolding main_result bind_ws
down-Runs = later (later up-Runs (ws_binds (some 98) refl refl)) (returns (ok tt) refl refl)
