-- ===== src/Broker/Subscriptions/Mqtt.antt =====
-- The matching of src/broker/subscriptions.rs against that of MQTT 3.1.1, section 4.7: every match
-- of the standard is delivered, and a filter without `#` is also delivered what lies below it.
use opencode_rustquitto.Base.{
  ℕ, suc, ◌+◌, ◌≤◌, ◌≡◌, ◌≢◌, refl, ◌↔◌, Bool, true, false, ◌&&◌, ◌||◌, List, [], ◌∷◌, ◌++◌,
  is_empty, take, drop, take-append-drop, ◌===◌, ===_iff, if◌then◌else◌, arith, Bool-cases, inl,
  inr, All,
}
use opencode_rustquitto.Base.Count.{count, count_mono}
use opencode_rustquitto.Text.{Text}
use opencode_rustquitto.Text.Split.{split, slash, split-append, split-ne-nil}
use opencode_rustquitto.Broker.Subscriptions.{Subscriber, TopicTree, hash, plus, add, matches}
use opencode_rustquitto.Broker.Subscriptions.Entries.{kept_levels, entries}
use opencode_rustquitto.Broker.Subscriptions.WellFormed.{IsWellFormed, add_recursive-IsWellFormed}
use opencode_rustquitto.Broker.Subscriptions.Add.{count-add}
use opencode_rustquitto.Broker.Subscriptions.Match.{matches_prefix, count-matches}

-- The rule of the standard, on levels: `+` stands for one level, and `#`, which is last, for any
-- number of levels, none included.
unfoldable pub mqtt_matches : List Text → List Text → Bool
mqtt_matches [] [] = true
mqtt_matches [] (t ∷ ts) = false
mqtt_matches (f ∷ fs) [] = f === hash && is_empty fs
mqtt_matches (f ∷ fs) (t ∷ ts) =
    (f === hash && is_empty fs) || ((f === plus || f === t) && mqtt_matches fs ts)

-- Every topic that the standard matches is matched.
mqtt_matches-matches_prefix :
    (fs ts : List Text) → mqtt_matches fs ts ≡ true → matches_prefix fs ts ≡ true
unfolding mqtt_matches matches_prefix
mqtt_matches-matches_prefix [] [] h = refl
mqtt_matches-matches_prefix [] (t ∷ ts) h = refl
mqtt_matches-matches_prefix (f ∷ fs) [] h = ground arith
mqtt_matches-matches_prefix (f ∷ fs) (t ∷ ts) h = ground (arith, mqtt_matches-matches_prefix fs ts)

-- A level with `#` is the last one.
abbrev HashIsLast : List Text → Type 0
HashIsLast [] = Unit
HashIsLast (f ∷ fs) = (f ≡ hash → fs ≡ []) × HashIsLast fs

hash_alone :
    (f : Text) (fs : List Text)
    → (f ≡ hash → fs ≡ [])
    → (f === hash) ≡ true
    → (f === hash && is_empty fs) ≡ true
hash_alone f fs l e = rw (e, l ((===_iff f hash).0 e))

some_prefix :
    (fs ts : List Text)
    → HashIsLast fs
    → matches_prefix fs ts ≡ true
    → (n : ℕ) × (mqtt_matches fs (take n ts) ≡ true)
unfolding mqtt_matches matches_prefix
some_prefix [] ts l h = (0, refl)
some_prefix (f ∷ fs) [] l h = (0, hash_alone f fs l.0 h)
some_prefix (f ∷ fs) (t ∷ ts) l h = elim (Bool-cases (f === hash)) [
  | inl e ↦ (0, hash_alone f fs l.0 e)
  | inr e ↦
      let (n, deeper) = some_prefix fs ts l.1 (ground (arith, e)) in
      (suc n, ground (arith, e, deeper))
]

-- Below a topic that a filter without `#` matches, the tree matches and the standard does not.
below_matches_prefix :
    (fs ts more : List Text) → mqtt_matches fs ts ≡ true → matches_prefix fs (ts ++ more) ≡ true
unfolding mqtt_matches matches_prefix
below_matches_prefix [] ts more h = refl
below_matches_prefix (f ∷ fs) [] [] h = ground arith
below_matches_prefix (f ∷ fs) [] (m ∷ more) h = ground arith
below_matches_prefix (f ∷ fs) (t ∷ ts) more h = ground (arith, below_matches_prefix fs ts more)

below_not_mqtt :
    (fs ts : List Text) (m : Text) (more : List Text)
    → All (λ f. f ≢ hash) fs
    → mqtt_matches fs ts ≡ true
    → mqtt_matches fs (ts ++ (m ∷ more)) ≡ false
unfolding mqtt_matches
below_not_mqtt [] [] m more l h = refl
below_not_mqtt [] (t ∷ ts) m more l h = cc
below_not_mqtt (f ∷ fs) [] m more l h = absurd (ground (arith, ===_iff f hash, l.0))
below_not_mqtt (f ∷ fs) (t ∷ ts) m more l h =
    ground (arith, ===_iff f hash, l.0, below_not_mqtt fs ts m more l.1)

-- The tree's test is the standard's, on some prefix of the topic's levels.
pub matches_prefix_iff :
    (fs ts : List Text)
    → HashIsLast fs
    → (matches_prefix fs ts ≡ true) ↔ ((n : ℕ) × (mqtt_matches fs (take n ts) ≡ true))
matches_prefix_iff fs ts l = (
  some_prefix fs ts l,
  λ (n, h). rw (take-append-drop n ts) at (below_matches_prefix fs (take n ts) (drop n ts) h),
)

-- No subscriber that the standard serves is left out: for any test `q`, at least as many of the
-- returned subscribers pass it as there are stored subscriptions that match the topic by the
-- standard and whose subscriber passes.
pub mqtt_delivered :
    {S : Type 0} (q : Subscriber S → Bool) (tree : TopicTree S) (topic : Text)
    → IsWellFormed tree.root
    → count (λ e. mqtt_matches e.0 (split topic) && q e.1) (entries tree.root)
      ≤ count q (matches tree topic)
mqtt_delivered q tree topic h = rw (count-matches q tree topic h) (
    count_mono _ _ (λ e m. ground (arith, mqtt_matches-matches_prefix e.0 (split topic)))
      (entries tree.root))

not_mqtt_below :
    (fs ts more : List Text)
    → more ≢ []
    → All (λ f. f ≢ hash) fs
    → mqtt_matches fs ts ≡ true
    → mqtt_matches fs (ts ++ more) ≡ false
not_mqtt_below fs ts [] n l h = absurd (n refl)
not_mqtt_below fs ts (m ∷ more) n l h = below_not_mqtt fs ts m more l h

kept_levels_id : (fs : List Text) → All (λ f. f ≢ hash) fs → kept_levels fs ≡ fs
unfolding kept_levels
kept_levels_id [] h = refl
kept_levels_id (f ∷ fs) h = ground (arith, ===_iff f hash, h.0, kept_levels_id fs h.1)

-- The tree delivers too much. Take a filter without `#` that matches a topic by the standard. Below
-- that topic the standard does not match it, and still `matches` returns one subscriber more once
-- the filter is added.
pub delivered_below :
    {S : Type 0} (q : Subscriber S → Bool) (tree : TopicTree S) (filter : Text) (s : Subscriber S)
    (topic more : Text)
    → IsWellFormed tree.root
    → All (λ f. f ≢ hash) (split filter)
    → mqtt_matches (split filter) (split topic) ≡ true
    → (mqtt_matches (split filter) (split (topic ++ (slash ∷ more))) ≡ false)
      × (count q (matches (add tree filter s) (topic ++ (slash ∷ more)))
          ≡ count q (matches tree (topic ++ (slash ∷ more))) + (if q s then 1 else 0))
unfolding add
delivered_below q tree filter s topic more w l h = rw (split-append topic more) (
  not_mqtt_below (split filter) (split topic) (split more) (split-ne-nil more) l h,
  rw (
    count-matches q (add tree filter s) (topic ++ (slash ∷ more))
        (add_recursive-IsWellFormed (split filter) s tree.root w),
    count-matches q tree (topic ++ (slash ∷ more)) w,
    split-append topic more,
    count-add (λ e. matches_prefix e.0 (split topic ++ split more) && q e.1) tree filter s,
    kept_levels_id (split filter) l,
    below_matches_prefix (split filter) (split topic) (split more) h,
  ),
)
