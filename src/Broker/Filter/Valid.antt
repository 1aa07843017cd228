-- ===== src/Broker/Filter/Valid.antt =====
-- `is_valid_topic_filter` of src/broker/mod.rs against the rule of MQTT 3.1.1, section 4.7, on the
-- levels of a filter.
use opencode_rustquitto.Base.{
  ℕ, suc, ◌+◌, ◌≤◌, ◌<◌, ◌≡◌, ◌≢◌, refl, ◌∙◌, ap, ◌↔◌, Bool, true, false, not, ◌&&◌, ◌||◌, Option,
  none, some, List, [], ◌∷◌, ◌==◌, ◌===◌, ltb, is_empty, length, take, if◌then◌else◌, arith,
  Bool-cases, Option-cases, zero, inl, inr,
}
use opencode_rustquitto.Text.{Text, find, contains, ends_with}
use opencode_rustquitto.Text.Split.{
  split, slash, split-slash, split-other, split-parts, split-ne-nil,
}
use opencode_rustquitto.Broker.Subscriptions.{hash, plus}
use opencode_rustquitto.Broker.Filter.{hash_misplaced, plus_misplaced, is_valid_topic_filter}

-- A wildcard stands alone in its level, and `#` only in the last one.
pub hash_levels : List Text → Bool
hash_levels [] = true
hash_levels (level ∷ levels) =
    if contains b'#' level then level === hash && is_empty levels else hash_levels levels

pub plus_levels : List Text → Bool
plus_levels [] = true
plus_levels (level ∷ levels) = (not (contains b'+' level) || level === plus) && plus_levels levels

plus_alone :
    (level : Text)
    → not (contains b'+' level && ltb 1 (length level))
      ≡ (not (contains b'+' level) || level === plus)
unfolding contains ◌===◌
plus_alone [] = refl
plus_alone (x ∷ []) = ground arith
plus_alone (x ∷ y ∷ level) = ground arith

plus_misplaced_lem : (levels : List Text) → not (plus_misplaced levels) ≡ plus_levels levels
unfolding plus_misplaced plus_levels
plus_misplaced_lem [] = refl
plus_misplaced_lem (level ∷ levels) = ground (arith, plus_alone level, plus_misplaced_lem levels)

-- The first `#` is where a level starts, `start` telling whether the text does, and ends the text.
unfoldable hash_ends : Bool → Text → Bool
hash_ends start [] = true
hash_ends start (b ∷ bs) =
    let later = hash_ends (b == slash) bs in if b == b'#' then start && is_empty bs else later

-- The same on the levels; if not at a `start`, the first one continues a level.
abbrev hash_continued : Bool → List Text → Bool
hash_continued start [] = true
hash_continued true (level ∷ levels) = hash_levels (level ∷ levels)
hash_continued false (level ∷ levels) = not (contains b'#' level) && hash_levels levels

after_slash :
    (start : Bool) (levels : List Text)
    → levels ≢ []
    → hash_continued true levels ≡ hash_continued start ([] ∷ levels)
unfolding hash_levels contains
after_slash true [] h = absurd (h refl)
after_slash false [] h = absurd (h refl)
after_slash true (level ∷ levels) h = refl
after_slash false (level ∷ levels) h = refl

after_other :
    (start : Bool) (b : ℕ) (level : Text) (levels : List Text)
    → (b == b'#') ≡ false
    → hash_continued false (level ∷ levels) ≡ hash_continued start ((b ∷ level) ∷ levels)
unfolding hash_levels contains ◌===◌
after_other true b level levels h = elim (Bool-cases (contains b'#' level)) [
  | inl c ↦ rw (h, c) refl
  | inr c ↦ rw (h, c) refl
]
after_other false b level levels h = rw h

only_empty : List Text → Bool
only_empty [] = false
only_empty (level ∷ levels) = level === [] && is_empty levels

some_level : (levels : List Text) → levels ≢ [] → false ≡ is_empty levels
some_level [] h = absurd (h refl)
some_level (level ∷ levels) h = refl

-- A text is empty when its only level is.
empty_level : (bs : Text) → is_empty bs ≡ only_empty (split bs)
unfolding only_empty ◌===◌
empty_level [] = unfold split in refl
empty_level (b ∷ bs) =
    let (part, parts, e) = split-parts bs in
    elim (Bool-cases (b == slash)) [
      | inl s ↦ rw (split-slash b bs s) (some_level (split bs) (split-ne-nil bs))
      | inr s ↦ rw (split-other b bs part parts s e) refl
    ]

is_empty-split :
    (bs part : Text) (parts : List Text)
    → split bs ≡ part ∷ parts
    → is_empty bs ≡ (part === [] && is_empty parts)
unfolding only_empty
is_empty-split bs part parts e = empty_level bs ∙ ap only_empty e

after_hash :
    (start : Bool) (b : ℕ) (level : Text) (levels : List Text)
    → (b == b'#') ≡ true
    → (start && (level === [] && is_empty levels)) ≡ hash_continued start ((b ∷ level) ∷ levels)
unfolding hash_levels contains ◌===◌
after_hash true b level levels h = rw h
after_hash false b level levels h = rw h

hash_ends_lem : (start : Bool) (f : Text) → hash_ends start f ≡ hash_continued start (split f)
unfolding hash_ends
hash_ends_lem true [] = unfold split hash_levels contains in refl
hash_ends_lem false [] = unfold split hash_levels contains in refl
hash_ends_lem start (b ∷ bs) =
    let (part, parts, e) = split-parts bs in
    elim (Bool-cases (b == slash)) [
      | inl s ↦
          let n : (b == b'#') ≡ false = ground (arith, s) in
          rw (split-slash b bs s, n, s, hash_ends_lem true bs)
            (after_slash start (split bs) (split-ne-nil bs))
      | inr s ↦ elim (Bool-cases (b == b'#')) [
        | inl h ↦
            rw (split-other b bs part parts s e, h, is_empty-split bs part parts e)
              (after_hash start b part parts h)
        | inr h ↦
            rw (split-other b bs part parts s e, h, s, hash_ends_lem false bs, e)
              (after_other start b part parts h)
      ]
    ]

-- What `find` and the two tests of the code say of a text that is at a `start` or not.
misplaced_from : Bool → Text → Option ℕ → Bool
misplaced_from start f none = false
misplaced_from start f (some i) =
    not (if i == 0 then start else ends_with slash (take i f)) || not (i + 1 == length f)

ends_with-take :
    (b i : ℕ) (bs : Text)
    → i < length bs
    → ends_with slash (b ∷ take i bs) ≡ (if i == 0 then b == slash else ends_with slash (take i bs))
unfolding ends_with
ends_with-take b zero bs h = refl
ends_with-take b (suc i) [] h = absurd (omega arith)
ends_with-take b (suc i) (x ∷ bs) h = ground arith

find-lt : (c : ℕ) (f : Text) (i : ℕ) → find c f ≡ some i → i < length f
unfolding find
find-lt c [] i h = absurd (cc)
find-lt c (x ∷ f) i h = elim (Bool-cases (x == c)) [
  | inl e ↦ ground (arith, e)
  | inr e ↦ elim (Option-cases (find c f)) [
    | inl o ↦ ground (arith, e, o)
    | inr (j, o) ↦ ground (arith, e, o, find-lt c f j o)
  ]
]

misplaced_from-suc :
    (start : Bool) (b i : ℕ) (bs : Text)
    → i < length bs
    → misplaced_from start (b ∷ bs) (some (suc i)) ≡ misplaced_from (b == slash) bs (some i)
unfolding misplaced_from
misplaced_from-suc start b i bs h = ground (arith, ends_with-take b i bs h)

misplaced_from-zero :
    (start : Bool) (b : ℕ) (bs : Text)
    → not (misplaced_from start (b ∷ bs) (some 0)) ≡ (start && is_empty bs)
unfolding misplaced_from
misplaced_from-zero true b [] = refl
misplaced_from-zero false b [] = refl
misplaced_from-zero true b (c ∷ bs) = ground arith
misplaced_from-zero false b (c ∷ bs) = refl

misplaced_from_lem :
    (start : Bool) (f : Text) → not (misplaced_from start f (find b'#' f)) ≡ hash_ends start f
unfolding hash_ends find misplaced_from
misplaced_from_lem start [] = unfold misplaced_from in refl
misplaced_from_lem start (b ∷ bs) = elim (Bool-cases (b == b'#')) [
  | inl h ↦ rw h (misplaced_from-zero start b bs)
  | inr h ↦ elim (Option-cases (find b'#' bs)) [
    | inl o ↦ rw (h, o) (rw o at (misplaced_from_lem (b == slash) bs))
    | inr (i, o) ↦
        rw (h, o)
          (ap (λ m. not m) (misplaced_from-suc start b i bs (find-lt b'#' bs i o))
            ∙ (rw o at (misplaced_from_lem (b == slash) bs)))
  ]
]

hash_misplaced_lem :
    (f : Text) (o : Option ℕ) → not (hash_misplaced f o) ≡ not (misplaced_from true f o)
unfolding hash_misplaced misplaced_from
hash_misplaced_lem f none = refl
hash_misplaced_lem f (some zero) = ground arith
hash_misplaced_lem f (some (suc i)) = ground arith

hash_continued-true : (levels : List Text) → hash_continued true levels ≡ hash_levels levels
unfolding hash_levels
hash_continued-true [] = refl
hash_continued-true (level ∷ levels) = refl

hash_test : (f : Text) → not (hash_misplaced f (find b'#' f)) ≡ hash_levels (split f)
hash_test f =
    hash_misplaced_lem f (find b'#' f)
    ∙ misplaced_from_lem true f
    ∙ hash_ends_lem true f
    ∙ hash_continued-true (split f)

-- A filter is accepted exactly when it is not empty, has at most 65535 bytes, and its wildcards stand
-- alone in their levels, `#` only in the last one.
pub is_valid_topic_filter_iff :
    (f : Text)
    → (is_valid_topic_filter f ≡ true) ↔ (
        (f ≢ [])
        × (length f ≤ 65535)
        × (hash_levels (split f) ≡ true)
        × (plus_levels (split f) ≡ true))
unfolding is_valid_topic_filter
is_valid_topic_filter_iff [] = (λ h. absurd (cc), λ h. absurd (h.0 refl))
is_valid_topic_filter_iff (b ∷ f) =
    ground (arith, hash_test (b ∷ f), plus_misplaced_lem (split (b ∷ f)))
