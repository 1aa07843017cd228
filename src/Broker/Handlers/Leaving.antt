-- ===== src/Broker/Handlers/Leaving.antt =====
-- `register_session` and `handle_disconnect` of src/broker/mod.rs.
use opencode_rustquitto.Base.{
  ◌≡◌, refl, ◌∙◌, Bool, true, false, ◌&&◌, none, some, if◌then◌else◌, ◌===◌, ===_iff, arith,
}
use opencode_rustquitto.Base.Count.{count}
use opencode_rustquitto.Extern.Channel.{Mpsc}
use opencode_rustquitto.Extern.DashMap.{DashMap}
use opencode_rustquitto.Text.{Text}
use opencode_rustquitto.Broker.Subscriptions.{of_other}
use opencode_rustquitto.Broker.Subscriptions.Entries.{Subscription, entries}
use opencode_rustquitto.Broker.Subscriptions.RemoveAll.{count-remove_all_for_client}
use opencode_rustquitto.Broker.Handlers.{
  Address, Broker, register_session, remove_session, get_session, handle_disconnect,
}

module _ (M : Mpsc) (D : DashMap Address) where
  open M use {Sender}

  -- A registered session is the one found under its client, and the others are found as before.
  get-register_session :
      (session : Address) (b : Broker M D) (k : Text)
      → get_session M D (register_session M D session b) k
        ≡ (if (b.heap session).client_id === k then some session else get_session M D b k)
  unfolding get_session register_session
  get-register_session session b k = D.get-insert b.sessions (b.heap session).client_id k session

  pub get-handle_disconnect :
      (session : Address) (b : Broker M D) (k : Text)
      → get_session M D (handle_disconnect M D session b) k
        ≡ (if (b.heap session).client_id === k then none else get_session M D b k)
  unfolding get_session handle_disconnect remove_session
  get-handle_disconnect session b k = D.get-remove b.sessions (b.heap session).client_id k

  -- A client that disconnects is forgotten: no session is found under its name, the sessions of
  -- other clients are found as before, and the tree stores the subscriptions of the others as often
  -- as before and no others. Stated for the number of subscriptions that pass any test `p`.
  pub handle_disconnect_lem :
      (p : Subscription Sender → Bool) (session : Address) (b : Broker M D)
      → let client_id = (b.heap session).client_id in
        let b₁ = handle_disconnect M D session b in
        (get_session M D b₁ client_id ≡ none)
        × ((k : Text) → (client_id === k) ≡ false → get_session M D b₁ k ≡ get_session M D b k)
        × (count p (entries b₁.subscriptions.root)
            ≡ count (λ e. of_other client_id e.1 && p e) (entries b.subscriptions.root))
  unfolding handle_disconnect remove_session
  handle_disconnect_lem p session b =
      let client_id = (b.heap session).client_id in
      (
        ground (arith, get-handle_disconnect session b client_id, ===_iff client_id client_id),
        λ k h. get-handle_disconnect session b k ∙ rw h,
        count-remove_all_for_client p b.subscriptions client_id,
      )

  -- When a client connects again under the same name, the end of its old connection takes the new
  -- session out of the map: the client is connected and no longer found.
  pub disconnect_after_takeover :
      (old current : Address) (b : Broker M D)
      → (b.heap old).client_id ≡ (b.heap current).client_id
      → (get_session M D (register_session M D current b) (b.heap current).client_id ≡ some current)
        × (get_session M D
              (handle_disconnect M D old (register_session M D current b))
              (b.heap current).client_id
            ≡ none)
  unfolding register_session
  disconnect_after_takeover old current b h =
      let c = (b.heap current).client_id in
      let same : (c === c) ≡ true = (===_iff c c).1 refl in
      (
        get-register_session current b c ∙ rw same,
        get-handle_disconnect old (register_session M D current b) c ∙ rw (h, same),
      )
