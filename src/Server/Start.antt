-- ===== src/Server/Start.antt =====
-- src/main.rs and src/config.rs, with `start` of src/server/tcp.rs and of src/server/ws.rs: the program
-- from its start, when the two servers bind their ports, to its end. The command line is read by the
-- package `clap`, so a configuration is given.
pub mod Listening
pub mod Ending
mod Tests
use opencode_rustquitto.Base.{ℕ, ◌≡◌, refl, ◌⊎◌, inl, inr, Bool, Option, none, some, List, [], ◌∷◌}
use opencode_rustquitto.Error.{
  Result, ok, err, BrokerError, io, config, failed_to_bind_tcp, failed_to_bind_ws,
  web_socket_server_error,
}
use opencode_rustquitto.Extern.Buffer.{BytesMut}
use opencode_rustquitto.Extern.Channel.{Mpsc}
use opencode_rustquitto.Extern.DashMap.{DashMap}
use opencode_rustquitto.Text.{Text}
use opencode_rustquitto.Broker.Handlers.{Address}
use opencode_rustquitto.Server.System.{
  System, Step, IsInitial, accept_tcp, accept_ws, tcp_runs, tcp_returns, ws_runs, ws_closes,
}

pub record Config : Type 0 where
  pub tcp_port : ℕ
  pub ws_port : ℕ
  pub bind_addr : Text

-- What the command line leaves out.
abbrev pub default_config : Config
default_config = record {
  tcp_port = 1883;
  ws_port = 9001;
  bind_addr = b'0' ∷ b'.' ∷ b'0' ∷ b'.' ∷ b'0' ∷ b'.' ∷ b'0' ∷ [];
}

-- The task of a server: before `bind`, in its loop, and behind its `start`.
pub data Server : Type 0 where
  starting listening : Server
  ended : Result (Unit {0}) → Server

-- `TcpListener::bind`, with its error by its code if it fails.
unfoldable pub bind_tcp : Config → Option ℕ → Server
bind_tcp c none = listening
bind_tcp c (some e) = ended (err (config (failed_to_bind_tcp c.bind_addr c.tcp_port e)))

unfoldable pub bind_ws : Config → Option ℕ → Server
bind_ws c none = listening
bind_ws c (some e) = ended (err (config (failed_to_bind_ws c.bind_addr c.ws_port e)))

-- `listener.accept().await?` with an error.
abbrev pub accept_failed : ℕ → Server
accept_failed e = ended (err (io e))

-- `axum::serve` returns.
unfoldable pub serve_returned : Option ℕ → Server
serve_returned none = ended (ok tt)
serve_returned (some e) = ended (err (config (web_socket_server_error e)))

-- The `select!` of `main` on the two tasks, both branches of which only log, and the `Ok(())` behind it.
unfoldable pub main_result : Server → Server → Option (Result (Unit {0}))
main_result (ended r) ws = some (ok tt)
main_result tcp (ended r) = some (ok tt)
main_result _ _ = none

pub record Process (M : Mpsc) (D : DashMap Address) (Buffer : Type 0) : Type 0 where
  pub tcp : Server
  pub ws : Server
  pub system : System M D Buffer
  -- What `main` has returned.
  pub result : Option (Result (Unit {0}))

module _ (B : BytesMut) (M : Mpsc) (D : DashMap Address) (without_receiver : M.Sender) where
  open B use {Buffer}

  -- A server accepts connections in its loop only.
  abbrev pub IsServed :
      (p : Process M D Buffer) (s : System M D Buffer)
      → Step B M D without_receiver p.system s
      → Type 0
  IsServed p s (accept_tcp i e) = p.tcp ≡ listening
  IsServed p s (accept_ws i e) = p.ws ≡ listening
  IsServed p s (tcp_runs _ _ _ _ _ _ _ _) = Unit {0}
  IsServed p s (tcp_returns _ _ _ _ _ _ _ _) = Unit {0}
  IsServed p s (ws_runs _ _ _ _ _ _ _ _) = Unit {0}
  IsServed p s (ws_closes _ _ _ _ _ _ _) = Unit {0}

  -- Nothing runs once `main` has returned.
  pub data Run (c : Config) (p : Process M D Buffer) : Process M D Buffer → Type 0 where
    tcp_binds :
        (failure : Option ℕ)
        → p.result ≡ none
        → p.tcp ≡ starting
        → Run c p (record p { tcp = bind_tcp c failure })
    ws_binds :
        (failure : Option ℕ)
        → p.result ≡ none
        → p.ws ≡ starting
        → Run c p (record p { ws = bind_ws c failure })
    tcp_fails :
        (e : ℕ) → p.result ≡ none → p.tcp ≡ listening → Run c p (record p { tcp = accept_failed e })
    ws_ends :
        (failure : Option ℕ)
        → p.result ≡ none
        → p.ws ≡ listening
        → Run c p (record p { ws = serve_returned failure })
    serves :
        (s : System M D Buffer) (step : Step B M D without_receiver p.system s)
        → p.result ≡ none
        → IsServed p s step
        → Run c p (record p { system = s })
    returns :
        (r : Result (Unit {0}))
        → p.result ≡ none
        → main_result p.tcp p.ws ≡ some r
        → Run c p (record p { result = some r })

  pub record IsStarted (p : Process M D Buffer) : Type 0 where
    pub tcp : p.tcp ≡ starting
    pub ws : p.ws ≡ starting
    pub system : IsInitial B M D without_receiver p.system
    pub result : p.result ≡ none

  -- What the program can come to.
  pub data Runs (c : Config) : Process M D Buffer → Type 0 where
    start : {p : Process M D Buffer} → IsStarted p → Runs c p
    later : {p q : Process M D Buffer} → Runs c p → Run c p q → Runs c q
