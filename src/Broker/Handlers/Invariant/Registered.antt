-- ===== src/Broker/Handlers/Invariant/Registered.antt =====
-- The broker of src/broker/mod.rs at its start, and with a new session: the invariant holds.
use opencode_rustquitto.Base.{
  suc, ◌<◌, ◌≡◌, refl, ◌∙◌, sym, ap, subst, false, Bool-cases, inl, inr, ◌==◌, ◌===◌, ===_iff,
  dec_lt, arith,
}
use opencode_rustquitto.Extern.Channel.{Mpsc}
use opencode_rustquitto.Extern.DashMap.{DashMap}
use opencode_rustquitto.Text.{Text}
use opencode_rustquitto.Broker.Session.{Session}
use opencode_rustquitto.Broker.Session.Invariant.{IsSession}
use opencode_rustquitto.Broker.Handlers.{Address, Broker, new, store, register_session, get_session}
use opencode_rustquitto.Broker.Handlers.Acknowledging.{store_same}
use opencode_rustquitto.Broker.Handlers.Invariant.{IsBroker, Keeps}

module _ (M : Mpsc) (D : DashMap Address) where
  pub stored_below :
      (n a : Address) (s : Session M.Sender) (heap : Address → Session M.Sender)
      → a < n
      → store n s heap a ≡ heap a
  unfolding store
  stored_below n a s heap lt = let other : (n == a) ≡ false = ground (arith, lt) in rw other refl

  pub new-IsBroker :
      (heap : Address → Session M.Sender) (net : M.Network) → IsBroker M D 0 (new D heap net)
  unfolding new get_session
  new-IsBroker heap net = record {
    named = λ k a g. absurd (let x = D.get-empty k in cc);
    sessions_hold = λ a lt. absurd (omega (arith, lt));
    tree = (tt, tt);
  }

  -- A new session at the next address.
  pub store-IsBroker :
      (n : Address) (s : Session M.Sender) (net : M.Network) (b : Broker M D)
      → IsSession s
      → IsBroker M D n b
      → IsBroker M D (suc n) (record b { heap = store n s b.heap; net = net })
  unfolding get_session
  store-IsBroker n s net b new h = record {
    named = λ k a g.
        let (below, same) = h.named k a g in
        (
          omega (arith, below),
          ap (λ (r : Session M.Sender). r.client_id) (stored_below n a s b.heap below) ∙ same,
        );
    sessions_hold = λ a lt. elim (dec_lt a n) [
      | yes below ↦
          subst (λ r. IsSession r) (sym (stored_below n a s b.heap below)) (h.sessions_hold a below)
      | no last ↦
          let here : n ≡ a = omega (arith, lt, last) in
          subst (λ r. IsSession (store n s b.heap r)) here
            (subst (λ r. IsSession r) (sym (store_same M D n s b.heap)) new)
    ];
    tree = h.tree;
  }

  pub register_session-Keeps :
      (n session : Address) (b : Broker M D)
      → session < n
      → Keeps M D n b (register_session M D session b)
  unfolding register_session get_session
  register_session-Keeps n session b below =
      let name = (b.heap session).client_id in
      let found = λ (k : Text). D.get-insert b.sessions name k session in
      record {
        kept = λ h. record {
          named = λ k a g. elim (Bool-cases (name === k)) [
            | inl here ↦
                let same : session ≡ a = let x = rw here at (sym (found k) ∙ g) in cc in
                (
                  omega (arith, below, same),
                  subst (λ r. (b.heap r).client_id ≡ k) same ((===_iff name k).0 here),
                )
            | inr there ↦ h.named k a (rw there at (sym (found k) ∙ g))
          ];
          sessions_hold = h.sessions_hold;
          tree = h.tree;
        };
        names = λ a. refl;
      }

  -- A new session is stored at the next address and registered.
  pub register_session-IsBroker :
      (n : Address) (s : Session M.Sender) (b : Broker M D)
      → IsSession s
      → IsBroker M D n b
      → IsBroker M D (suc n) (register_session M D n (record b { heap = store n s b.heap }))
  register_session-IsBroker n s b new h =
      let stored : Broker M D = record b { heap = store n s b.heap } in
      (register_session-Keeps (suc n) n stored (omega arith)).kept
        (store-IsBroker n s b.net b new h)
