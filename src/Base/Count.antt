-- ===== src/Base/Count.antt =====
-- Counting the elements of a list that pass a test: two lists with the same counts for every
-- test hold the same elements as often, whatever their order.
use Prim.Native.Nat.{ℕ, ◌+◌, ◌≤◌}
use mathlib.Core.Path.{◌≡◌, refl}
use mathlib.Core.Bool.{Bool, true, false, ◌&&◌}
use mathlib.Core.List.{List, [], ◌∷◌, ◌++◌, map}
use native.Mathlib.Omega.{arith}
use opencode_rustquitto.Base.Tests.{if◌then◌else◌}

module _ {ℓ} {A : Type ℓ} where
  unfoldable pub count : (A → Bool) → List A → ℕ
  count p [] = 0
  count p (x ∷ xs) = (if p x then 1 else 0) + count p xs

  -- `retain`: keep the elements that pass, in order.
  unfoldable pub retain : (A → Bool) → List A → List A
  retain p [] = []
  retain p (x ∷ xs) = let rest = retain p xs in if p x then x ∷ rest else rest

  pub count-append : (p : A → Bool) (xs ys : List A) → count p (xs ++ ys) ≡ count p xs + count p ys
  unfolding count
  count-append p [] ys = omega arith
  count-append p (x ∷ xs) ys = omega (arith, count-append p xs ys)

  pub count-retain :
      (p q : A → Bool) (xs : List A) → count p (retain q xs) ≡ count (λ x. q x && p x) xs
  unfolding count retain
  count-retain p q [] = refl
  count-retain p q (x ∷ xs) = ground (arith, count-retain p q xs)

  pub count-ext : (p q : A → Bool) → ((x : A) → p x ≡ q x) → (xs : List A) → count p xs ≡ count q xs
  unfolding count
  count-ext p q h [] = refl
  count-ext p q h (x ∷ xs) = ground (arith, h x, count-ext p q h xs)

  pub count-false : (xs : List A) → count (λ x. false) xs ≡ 0
  unfolding count
  count-false [] = refl
  count-false (x ∷ xs) = omega (arith, count-false xs)

module _ {ℓ κ} {A : Type ℓ} {B : Type κ} where
  pub count-map :
      (p : B → Bool) (f : A → B) (xs : List A) → count p (map f xs) ≡ count (λ x. p (f x)) xs
  unfolding count
  count-map p f [] = refl
  count-map p f (x ∷ xs) = omega (arith, count-map p f xs)

pub sum₄ :
    {a b c d e f g h : ℕ} → a ≡ e → b ≡ f → c ≡ g → d ≡ h → a + (b + (c + d)) ≡ e + (f + (g + h))
sum₄ p q r s = omega arith

module _ {ℓ} {A : Type ℓ} where
  pub count_mono :
      (p q : A → Bool)
      → ((x : A) → p x ≡ true → q x ≡ true)
      → (xs : List A) → count p xs ≤ count q xs
  unfolding count
  count_mono p q h [] = omega arith
  count_mono p q h (x ∷ xs) = ground (arith, h x, count_mono p q h xs)
