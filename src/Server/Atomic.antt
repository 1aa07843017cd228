-- ===== src/Server/Atomic.antt =====
-- A handler as a sequence of atomic actions: between two of them, what a lock, an atomic counter or a
-- concurrent map guards may be changed by other tasks.
pub mod Handlers
pub mod Packets
pub mod Agree
pub mod Safe
pub mod Loop
pub mod Interleaved
pub mod Races
pub mod Ids
use opencode_rustquitto.Base.{◌≡◌, refl, ◌∙◌}

-- An action changes the state, and what follows depends on the state that it found.
pub data Program (S A : Type 0) : Type 0 where
  done : A → Program S A
  act : (S → S) → (S → Program S A) → Program S A

module _ {S : Type 0} where
  -- Without interruption.
  unfoldable pub run : {A : Type 0} → Program S A → S → A × S
  run (done a) s = (a, s)
  run (act f next) s = run (next s) (f s)

  -- What follows an `await`, or a statement.
  unfoldable pub bind : {A C : Type 0} → Program S A → (A → Program S C) → Program S C
  bind (done a) k = k a
  bind (act f next) k = act f (λ s. bind (next s) k)

  abbrev pub change : (S → S) → Program S (Unit {0})
  change f = act f (λ s. done tt)

  -- A look at the state.
  abbrev pub look : {A : Type 0} → (S → Program S A) → Program S A
  look next = act (λ s. s) next

  pub run-bind :
      {A C : Type 0} (p : Program S A) (k : A → Program S C) (s : S)
      → run (bind p k) s ≡ run (k (run p s).0) (run p s).1
  unfolding run bind
  run-bind (done a) k s = refl
  run-bind (act f next) k s = run-bind (next s) k (f s)
