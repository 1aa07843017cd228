-- ===== src/Server/Atomic/Safe.antt =====
-- What every atomic action keeps, whatever other tasks do between two of them.
pub mod Publishing
pub mod Handlers
pub mod Packets
use opencode_rustquitto.Base.{
  ℕ, zero, suc, ◌≤◌, ◌<◌, ◌≡◌, refl, ap, subst, Bool, true, false, Bool-cases, inl, inr, List, [],
  ◌∷◌, ◌==◌, if◌then◌else◌, arith,
}
use opencode_rustquitto.Extern.Channel.{Mpsc}
use opencode_rustquitto.Extern.DashMap.{DashMap}
use opencode_rustquitto.Broker.Handlers.{Address}
use opencode_rustquitto.Server.Connection.{World}
use opencode_rustquitto.Server.Connection.Invariant.{IsWorld, Grows, Grows-refl, Grows-trans}
use opencode_rustquitto.Server.System.{place}
use opencode_rustquitto.Server.Atomic.{Program, done, act, bind, change}
use opencode_rustquitto.Server.Atomic.Handlers.{Task}

-- A result of which nothing is asked.
abbrev pub Any : {A : Type 0} → ℕ → A → Type 0
Any n a = Unit {0}

module _ (M : Mpsc) (D : DashMap Address) where
  -- From any world that keeps the invariant and has handed out at least `n` addresses, each action
  -- keeps the invariant; at the end the result satisfies `Q`.
  abbrev pub Safe : {A : Type 0} → (ℕ → A → Type 0) → ℕ → Task M D A → Type 0
  Safe Q n (done a) = Q n a
  Safe Q n (act f next) =
      (w : World M D)
      → IsWorld M D w
      → n ≤ w.next_address
      → Grows M D w (f w) × Safe Q (f w).next_address (next w)

  -- What stays true when more addresses are handed out.
  abbrev pub Stays : {A : Type 0} → (ℕ → A → Type 0) → Type 0
  Stays {A} Q = (n m : ℕ) (a : A) → n ≤ m → Q n a → Q m a

  pub Safe-le :
      {A : Type 0} (Q : ℕ → A → Type 0) (n m : ℕ) (p : Task M D A)
      → Stays Q
      → n ≤ m
      → Safe Q n p
      → Safe Q m p
  Safe-le Q n m (done a) stays le s = stays n m a le s
  Safe-le Q n m (act f next) stays le s = λ w h lw. s w h (omega (arith, le, lw))

  pub Safe-bind :
      {A C : Type 0} (Q : ℕ → A → Type 0) (R : ℕ → C → Type 0) (n : ℕ) (p : Task M D A)
      (k : A → Task M D C)
      → Safe Q n p
      → ((m : ℕ) (a : A) → n ≤ m → Q m a → Safe R m (k a))
      → Safe R n (bind p k)
  unfolding bind
  Safe-bind Q R n (done a) k s rest = rest n a (omega arith) s
  Safe-bind Q R n (act f next) k s rest = λ w h le.
      let (g, after) = s w h le in
      (
        g,
        Safe-bind Q R (f w).next_address (next w) k after
            (λ m a lm q. rest m a (omega (arith, le, g.more, lm)) q),
      )

  pub Safe-change :
      (n : ℕ) (f : World M D → World M D)
      → ((w : World M D) → n ≤ w.next_address → Grows M D w (f w))
      → Safe Any n (change f)
  Safe-change n f g = λ w h le. (g w le, tt)

  -- One action of a task.
  abbrev pub advance : {A : Type 0} → Task M D A → World M D → Task M D A × World M D
  advance (done a) w = (done a, w)
  advance (act f next) w = (next w, f w)

  -- The tasks take their turns in the order of the list.
  unfoldable pub interleave :
      {A : Type 0} → List ℕ → (ℕ → Task M D A) → World M D → (ℕ → Task M D A) × World M D
  interleave [] tasks w = (tasks, w)
  interleave (i ∷ schedule) tasks w =
      let (p, v) = advance (tasks i) w in interleave schedule (place i p tasks) v

  advance-Safe :
      {A : Type 0} (Q : ℕ → A → Type 0) (p : Task M D A) (w : World M D)
      → IsWorld M D w
      → Safe Q w.next_address p
      → Grows M D w (advance p w).1 × Safe Q (advance p w).1.next_address (advance p w).0
  advance-Safe Q (done a) w h s = (Grows-refl M D w, s)
  advance-Safe Q (act f next) w h s = s w h (omega arith)

  pub interleave-Safe :
      {A : Type 0} (Q : ℕ → A → Type 0) (schedule : List ℕ) (tasks : ℕ → Task M D A) (w : World M D)
      → Stays Q
      → IsWorld M D w
      → ((i : ℕ) → Safe Q w.next_address (tasks i))
      → Grows M D w (interleave schedule tasks w).1
        × ((i : ℕ)
            → Safe Q
                (interleave schedule tasks w).1.next_address
                ((interleave schedule tasks w).0 i))
  unfolding interleave place
  interleave-Safe Q [] tasks w stays h s = (Grows-refl M D w, s)
  interleave-Safe Q (i ∷ schedule) tasks w stays h s =
      let (p, v) = advance (tasks i) w in
      let (g, after) = advance-Safe Q (tasks i) w h (s i) in
      let (g₂, last) = interleave-Safe Q schedule (place i p tasks) v stays (g.kept h) (λ j.
        elim (Bool-cases (i == j)) [
          | inl here ↦ rw here after
          | inr there ↦
              rw there (Safe-le Q w.next_address v.next_address (tasks j) stays g.more (s j))
        ]) in
      (Grows-trans M D w v (interleave schedule (place i p tasks) v).1 g g₂, last)
