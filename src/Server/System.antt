-- ===== src/Server/System.antt =====
-- The running program of src/server: the broker and its connections, whose events interleave. The
-- listeners of src/server/tcp.rs and src/server/ws.rs start a connection with nothing in its local
-- variables; each event of a connection is one step.
pub mod Invariant
mod Tests
use opencode_rustquitto.Base.{ℕ, ◌≡◌, Bool, Option, [], ◌==◌, if◌then◌else◌}
use opencode_rustquitto.Error.{Result}
use opencode_rustquitto.Extern.Buffer.{BytesMut}
use opencode_rustquitto.Extern.Channel.{Mpsc}
use opencode_rustquitto.Extern.DashMap.{DashMap}
use opencode_rustquitto.Broker.Session.{Session}
use opencode_rustquitto.Broker.Handlers
use opencode_rustquitto.Broker.Handlers.{Address}
use opencode_rustquitto.Server.Connection.{World, unconnected}
use opencode_rustquitto.Server.Tcp.Loop.{Event, Local, Status, connection_step}
use opencode_rustquitto.Server.Tcp.Loop
use opencode_rustquitto.Server.Ws.Loop.{WsEvent, WsLocal, WsStatus, ws_step}
use opencode_rustquitto.Server.Ws.Loop as Web

-- The task of a connection.
pub data Task (M : Mpsc) (Buffer : Type 0) : Type 0 where
  idle : Task M Buffer
  tcp : Local M Buffer → Task M Buffer
  web : WsLocal M → Task M Buffer

pub record System (M : Mpsc) (D : DashMap Address) (Buffer : Type 0) : Type 0 where
  pub world : World M D
  pub tasks : ℕ → Task M Buffer

-- The `i`-th task is replaced.
unfoldable pub place : {T : Type 0} → ℕ → T → (ℕ → T) → ℕ → T
place i task tasks j = if i == j then task else tasks j

module _ (B : BytesMut) (M : Mpsc) (D : DashMap Address) (without_receiver : M.Sender) where
  open B use {Buffer, with_capacity}

  -- The local variables with which `handle_connection` and `handle_ws` start.
  abbrev pub new_local : Local M Buffer
  new_local = record { buf = with_capacity 4096; conn = unconnected; written = [] }

  abbrev pub new_ws_local : WsLocal M
  new_ws_local = record { conn = unconnected; sent = [] }

  pub record IsInitial (s : System M D Buffer) : Type 0 where
    pub heap : Address → Session M.Sender
    pub net : M.Network
    pub world : s.world ≡ record { broker = Handlers.new D heap net; next_address = 0 }
    pub tasks : (i : ℕ) → s.tasks i ≡ idle

  -- `locked` is whether another task holds the lock of the session at that moment.
  pub data Step (s : System M D Buffer) : System M D Buffer → Type 0 where
    accept_tcp :
        (i : ℕ) → s.tasks i ≡ idle → Step s (record s { tasks = place i (tcp new_local) s.tasks })
    accept_ws :
        (i : ℕ)
        → s.tasks i ≡ idle
        → Step s (record s { tasks = place i (web new_ws_local) s.tasks })
    tcp_runs :
        (i : ℕ) (locked : Bool) (event : Event) (l l' : Local M Buffer) (w' : World M D)
        → s.tasks i ≡ tcp l
        → connection_step B M D locked without_receiver event l s.world ≡ Loop.running l' w'
        → Step s (record { world = w'; tasks = place i (tcp l') s.tasks })
    tcp_returns :
        (i : ℕ) (locked : Bool) (event : Event) (l : Local M Buffer) (w' : World M D)
        (r : Result (Unit {0}))
        → s.tasks i ≡ tcp l
        → connection_step B M D locked without_receiver event l s.world ≡ Loop.returned r w'
        → Step s (record { world = w'; tasks = place i idle s.tasks })
    ws_runs :
        (i : ℕ) (locked : Bool) (event : WsEvent) (l l' : WsLocal M) (w' : World M D)
        → s.tasks i ≡ web l
        → ws_step B M D locked without_receiver event l s.world ≡ Web.running l' w'
        → Step s (record { world = w'; tasks = place i (web l') s.tasks })
    ws_closes :
        (i : ℕ) (locked : Bool) (event : WsEvent) (l : WsLocal M) (w' : World M D)
        → s.tasks i ≡ web l
        → ws_step B M D locked without_receiver event l s.world ≡ Web.closed w'
        → Step s (record { world = w'; tasks = place i idle s.tasks })

  -- What the program can come to, from its start.
  pub data Reach : System M D Buffer → Type 0 where
    start : {s : System M D Buffer} → IsInitial s → Reach s
    later : {s t : System M D Buffer} → Reach s → Step s t → Reach t
