-- ===== src/Text/Split.antt =====
-- `str::split('/')` as the program uses it: the levels of a topic.
use opencode_rustquitto.Base.{
  Bool, true, false, ◌≢◌, ◌≡◌, refl, arith, ◌++◌, ℕ, List, [], ◌∷◌, ◌==◌, if◌then◌else◌,
}

abbrev pub slash : ℕ
slash = b'/'

-- Puts a byte at the front of the first part.
abbrev push_front : ℕ → List (List ℕ) → List (List ℕ)
push_front b [] = (b ∷ []) ∷ []
push_front b (part ∷ parts) = (b ∷ part) ∷ parts

-- As many parts as there are slashes, and one more.
unfoldable pub split : List ℕ → List (List ℕ)
split [] = [] ∷ []
split (b ∷ bs) = let rest = split bs in if b == slash then [] ∷ rest else push_front b rest

push_front-append :
    (b : ℕ) (parts more : List (List ℕ))
    → parts ≢ []
    → push_front b (parts ++ more) ≡ push_front b parts ++ more
push_front-append b [] more h = absurd (h refl)
push_front-append b (part ∷ parts) more h = refl

pub split-ne-nil : (bs : List ℕ) → split bs ≢ []
unfolding split
split-ne-nil [] e = cc
split-ne-nil (b ∷ bs) e = push_front-ne-nil b (b == slash) (split bs) e
  where
    push_front-ne-nil :
        (b : ℕ) (test : Bool) (parts : List (List ℕ))
        → (if test then [] ∷ parts else push_front b parts) ≢ []
    push_front-ne-nil b true parts e = cc
    push_front-ne-nil b false [] e = cc
    push_front-ne-nil b false (part ∷ parts) e = cc

-- The levels of two topics joined by a slash.
pub split-append : (bs cs : List ℕ) → split (bs ++ (slash ∷ cs)) ≡ split bs ++ split cs
unfolding split
split-append [] cs = refl
split-append (b ∷ bs) cs =
    ground (arith, split-append bs cs, push_front-append b (split bs) (split cs), split-ne-nil bs)

pub split-slash : (b : ℕ) (bs : List ℕ) → (b == slash) ≡ true → split (b ∷ bs) ≡ [] ∷ split bs
unfolding split
split-slash b bs h = rw h

pub split-other :
    (b : ℕ) (bs part : List ℕ) (parts : List (List ℕ))
    → (b == slash) ≡ false
    → split bs ≡ part ∷ parts
    → split (b ∷ bs) ≡ (b ∷ part) ∷ parts
unfolding split
split-other b bs part parts h e = rw (h, e)

non_empty :
    (levels : List (List ℕ))
    → levels ≢ []
    → (part : List ℕ) × (parts : List (List ℕ)) × (levels ≡ part ∷ parts)
non_empty [] h = absurd (h refl)
non_empty (part ∷ parts) h = (part, parts, refl)

pub split-parts :
    (bs : List ℕ) → (part : List ℕ) × (parts : List (List ℕ)) × (split bs ≡ part ∷ parts)
split-parts bs = non_empty (split bs) (split-ne-nil bs)
