-- ===== src/Server/Start/Listening.antt =====
-- A server of src/main.rs that has not come to its loop has no connection.
use opencode_rustquitto.Base.{
  ℕ, ◌≡◌, refl, sym, ap, ◌∙◌, inl, inr, Bool, true, false, Bool-cases, ◌==◌,
}
use opencode_rustquitto.Error.{err, config, failed_to_bind_tcp, failed_to_bind_ws}
use opencode_rustquitto.Extern.Buffer.{BytesMut}
use opencode_rustquitto.Extern.Channel.{Mpsc}
use opencode_rustquitto.Extern.DashMap.{DashMap}
use opencode_rustquitto.Broker.Handlers.{Address}
use opencode_rustquitto.Server.System.{
  System, Task, idle, tcp, web, place, Step, accept_tcp, accept_ws, tcp_runs, tcp_returns, ws_runs,
  ws_closes,
}
use opencode_rustquitto.Server.Start.{Server, starting, ended, Process, IsServed}

-- The server has not come to its loop.
unfoldable pub never_listened : Server → Bool
never_listened starting = true
never_listened (ended (err (config (failed_to_bind_tcp a p e)))) = true
never_listened (ended (err (config (failed_to_bind_ws a p e)))) = true
never_listened _ = false

module _ {M : Mpsc} {Buffer : Type 0} where
  unfoldable pub is_tcp : Task M Buffer → Bool
  is_tcp (tcp l) = true
  is_tcp idle = false
  is_tcp (web l) = false

  unfoldable pub is_web : Task M Buffer → Bool
  is_web (web l) = true
  is_web idle = false
  is_web (tcp l) = false

  -- A task of another kind, or none, takes the place of a task.
  is-place :
      (f : Task M Buffer → Bool) (i : ℕ) (t : Task M Buffer) (tasks : ℕ → Task M Buffer)
      → f t ≡ false
      → ((j : ℕ) → f (tasks j) ≡ false)
      → (j : ℕ) → f (place i t tasks j) ≡ false
  unfolding place
  is-place f i t tasks new h j = elim (Bool-cases (i == j)) [
    | inl here ↦ rw here new
    | inr there ↦ rw there (h j)
  ]

module _ (B : BytesMut) (M : Mpsc) (D : DashMap Address) (without_receiver : M.Sender) where
  open B use {Buffer}

  -- Before a server has come to its loop, no step gives a task to a connection of its own.
  pub served_no_tcp :
      (p : Process M D Buffer) (s : System M D Buffer)
      (step : Step B M D without_receiver p.system s)
      → IsServed B M D without_receiver p s step
      → (never_listened p.tcp ≡ true → (i : ℕ) → is_tcp (p.system.tasks i) ≡ false)
      → never_listened p.tcp ≡ true
      → (i : ℕ) → is_tcp (s.tasks i) ≡ false
  unfolding is_tcp never_listened
  served_no_tcp p _ (accept_tcp i e) at h u j = absurd (let x = sym u ∙ ap never_listened at in cc)
  served_no_tcp p _ (accept_ws i e) at h u j = is-place is_tcp i _ p.system.tasks refl (h u) j
  served_no_tcp p _ (tcp_runs i _ _ l l' _ e _) at h u j =
      absurd (let x = sym (h u i) ∙ ap is_tcp e in cc)
  served_no_tcp p _ (tcp_returns i _ _ _ _ _ _ _) at h u j =
      is-place is_tcp i idle p.system.tasks refl (h u) j
  served_no_tcp p _ (ws_runs i _ _ _ l' _ _ _) at h u j =
      is-place is_tcp i (web l') p.system.tasks refl (h u) j
  served_no_tcp p _ (ws_closes i _ _ _ _ _ _) at h u j =
      is-place is_tcp i idle p.system.tasks refl (h u) j

  pub served_no_web :
      (p : Process M D Buffer) (s : System M D Buffer)
      (step : Step B M D without_receiver p.system s)
      → IsServed B M D without_receiver p s step
      → (never_listened p.ws ≡ true → (i : ℕ) → is_web (p.system.tasks i) ≡ false)
      → never_listened p.ws ≡ true
      → (i : ℕ) → is_web (s.tasks i) ≡ false
  unfolding is_web never_listened
  served_no_web p _ (accept_ws i e) at h u j = absurd (let x = sym u ∙ ap never_listened at in cc)
  served_no_web p _ (accept_tcp i e) at h u j = is-place is_web i _ p.system.tasks refl (h u) j
  served_no_web p _ (ws_runs i _ _ l l' _ e _) at h u j =
      absurd (let x = sym (h u i) ∙ ap is_web e in cc)
  served_no_web p _ (ws_closes i _ _ _ _ _ _) at h u j =
      is-place is_web i idle p.system.tasks refl (h u) j
  served_no_web p _ (tcp_runs i _ _ _ l' _ _ _) at h u j =
      is-place is_web i (tcp l') p.system.tasks refl (h u) j
  served_no_web p _ (tcp_returns i _ _ _ _ _ _ _) at h u j =
      is-place is_web i idle p.system.tasks refl (h u) j
