-- ===== src/Extern/DashMap.antt =====
-- `DashMap` of the package `dashmap` with strings as keys: the operations that the broker calls, each
-- one atomic, with their documented effect on what `get` finds.
use opencode_rustquitto.Base.{
  ℕ, ◌≡◌, refl, Bool, true, false, Option, none, some, List, ◌===◌, if◌then◌else◌,
}

abbrev is_some {ℓ} : {A : Type ℓ} → Option A → Bool
is_some none = false
is_some (some a) = true

pub record DashMap (V : Type 0) : Type 1 where
  pub Map : Type 0
  pub empty : Map
  pub get : Map → List ℕ → Option V
  pub insert : Map → List ℕ → V → Map
  pub remove : Map → List ℕ → Map
  pub contains_key : Map → List ℕ → Bool
  pub get-empty : (k : List ℕ) → get empty k ≡ none
  pub get-insert :
      (m : Map) (k j : List ℕ) (v : V)
      → get (insert m k v) j ≡ (if k === j then some v else get m j)
  pub get-remove :
      (m : Map) (k j : List ℕ) → get (remove m k) j ≡ (if k === j then none else get m j)
  pub contains_key-get : (m : Map) (k : List ℕ) → contains_key m k ≡ is_some (get m k)

-- A function from keys is such a map.
abbrev pub function_map : (V : Type 0) → DashMap V
function_map V = record {
  Map = List ℕ → Option V;
  empty = λ k. none;
  get = λ m k. m k;
  insert = λ m k v j. if k === j then some v else m j;
  remove = λ m k j. if k === j then none else m j;
  contains_key = λ m k. is_some (m k);
  get-empty = λ k. refl;
  get-insert = λ m k j v. refl;
  get-remove = λ m k j. refl;
  contains_key-get = λ m k. refl;
}
