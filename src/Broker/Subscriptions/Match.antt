-- ===== src/Broker/Subscriptions/Match.antt =====
-- What `TopicTree::matches` of src/broker/subscriptions.rs returns, in terms of the stored
-- subscriptions, and how that differs from the matching of MQTT 3.1.1.
use opencode_rustquitto.Base.{
  ℕ, ◌+◌, ◌≡◌, Bool, true, ◌&&◌, ◌||◌, Option, none, some, List, [], ◌∷◌, ◌===◌, ===_iff, arith,
  Bool-cases, Option-cases, inl, inr,
}
use mathlib.Core.Path.{subst}
use mathlib.Core.Option.{some-injective}
use opencode_rustquitto.Base.Count.{count, count-append, count-false}
use opencode_rustquitto.Text.{Text}
use opencode_rustquitto.Text.Split.{split}
use opencode_rustquitto.Broker.Subscriptions.{
  Subscriber, TopicNode, TopicTree, Children, Wildcard, node, empty, child, absent, present, hash,
  plus, get, visit_wildcard, visit_child, matches_recursive, matches,
}
use opencode_rustquitto.Broker.Subscriptions.Entries.{
  Subscription, entries, entries_of_wildcard, entries_of_children, count-entries, count-wildcard,
  count-child, count-empty, count-absent,
}
use opencode_rustquitto.Broker.Subscriptions.WellFormed.{
  IsWellFormed, WildcardIsWellFormed, ChildrenAreWellFormed,
}

-- The matching that the tree computes: a filter matches a topic when its levels match a prefix of
-- the topic's levels.
unfoldable pub matches_prefix : List Text → List Text → Bool
matches_prefix [] topic = true
matches_prefix (f ∷ fs) [] = f === hash
matches_prefix (f ∷ fs) (t ∷ ts) = f === hash || ((f === plus || f === t) && matches_prefix fs ts)

module _ {S : Type 0} where
  -- The entries whose filter matches the levels and whose subscriber passes `q`.
  abbrev matching : List Text → (Subscriber S → Bool) → Subscription S → Bool
  matching levels q e = matches_prefix e.0 levels && q e.1

  -- No filter with a level left matches at the end of the topic, but `#`.
  wildcard_at_end :
      (q : Subscriber S → Bool) (w : Wildcard S) → count (matching [] q) (entries_of_wildcard w) ≡ 0
  unfolding matches_prefix ◌===◌
  wildcard_at_end q absent = count-absent (matching [] q)
  wildcard_at_end q (present c) = rw count-wildcard (count-false (entries c))

  children_at_end :
      (q : Subscriber S → Bool) (ch : Children S)
      → ChildrenAreWellFormed ch
      → count (matching [] q) (entries_of_children ch) ≡ 0
  unfolding matches_prefix
  children_at_end q empty h = count-empty (matching [] q)
  children_at_end q (child key c rest) h =
      rw (count-child, h.0, count-false (entries c)) (omega (arith, children_at_end q rest h.4))

  count_in_wildcard :
      (t : Text) (ts : List Text) (q : Subscriber S → Bool) (c : TopicNode S)
      → count (matching (t ∷ ts) q) (entries_of_wildcard (present c))
        ≡ count (matching ts q) (entries c)
  unfolding matches_prefix ◌===◌
  count_in_wildcard t ts q c = rw count-wildcard

  -- What the child of a level contributes.
  abbrev in_child : List Text → (Subscriber S → Bool) → Option (TopicNode S) → ℕ
  in_child ts q none = 0
  in_child ts q (some c) = count (matching ts q) (entries c)

  count_in_children :
      (t : Text) (ts : List Text) (q : Subscriber S → Bool) (ch : Children S)
      → ChildrenAreWellFormed ch
      → count (matching (t ∷ ts) q) (entries_of_children ch) ≡ in_child ts q (get t ch)
  unfolding get matches_prefix
  count_in_children t ts q empty h = count-empty (matching (t ∷ ts) q)
  count_in_children t ts q (child key c rest) h =
      let deeper = count_in_children t ts q rest h.4 in
      elim (Bool-cases (key === t)) [
        | inl e ↦
            let missing : get t rest ≡ none = rw ((===_iff key t).0 e) at h.2 in
            rw (count-child, h.0, h.1, e, deeper, missing) (omega arith)
        | inr e ↦ rw (count-child, h.0, h.1, e, deeper, count-false (entries c)) (omega arith)
      ]

  get-IsWellFormed :
      (t : Text) (ch : Children S) (c : TopicNode S)
      → ChildrenAreWellFormed ch
      → get t ch ≡ some c
      → IsWellFormed c
  unfolding get
  get-IsWellFormed t empty c h e = absurd (cc)
  get-IsWellFormed t (child key d rest) c h e = elim (Bool-cases (key === t)) [
    | inl k ↦ let same : d ≡ c = some-injective d c (rw k at e) in subst IsWellFormed same h.3
    | inr k ↦ get-IsWellFormed t rest c h.4 (rw k at e)
  ]

  module _ (t : Text) (ts : List Text) (q : Subscriber S → Bool)
      (down : TopicNode S → List (Subscriber S) → List (Subscriber S))
      (visits : (c : TopicNode S) (r : List (Subscriber S))
        → IsWellFormed c
        → count q (down c r) ≡ count q r + count (matching ts q) (entries c)) where
    count-visit_wildcard :
        (w : Wildcard S) (r : List (Subscriber S))
        → WildcardIsWellFormed w
        → count q (visit_wildcard down w r)
          ≡ count q r + count (matching (t ∷ ts) q) (entries_of_wildcard w)
    count-visit_wildcard absent r h = rw count-absent (omega arith)
    count-visit_wildcard (present c) r h = rw count_in_wildcard (visits c r h)

    count-visit_child :
        (ch : Children S) (r : List (Subscriber S))
        → ChildrenAreWellFormed ch
        → count q (visit_child down (get t ch) r)
          ≡ count q r + count (matching (t ∷ ts) q) (entries_of_children ch)
    count-visit_child ch r h = rw (count_in_children t ts q ch h) (elim (Option-cases (get t ch)) [
      | inl e ↦ rw e (omega arith)
      | inr (c, e) ↦ rw e (visits c r (get-IsWellFormed t ch c h e))
    ])

  count-matches_recursive :
      (levels : List Text) (n : TopicNode S) (q : Subscriber S → Bool)
      (result : List (Subscriber S))
      → IsWellFormed n
      → count q (matches_recursive n levels result)
        ≡ count q result + count (matching levels q) (entries n)
  unfolding matches_recursive matches_prefix ◌===◌
  count-matches_recursive [] (node children wild multi subs) q result h =
      rw
        (
          count-append,
          count-append,
          count-entries,
          wildcard_at_end q wild,
          children_at_end q children h.1,
        )
        (omega arith)
  count-matches_recursive (t ∷ ts) (node children wild multi subs) q result h =
      let down = λ (c : TopicNode S) (r : List (Subscriber S)). matches_recursive c ts r in
      let visits = λ (c : TopicNode S) (r : List (Subscriber S)) (k : IsWellFormed c).
        count-matches_recursive ts c q r k in
      rw
        (
          count-visit_child t ts q down visits children _ h.1,
          count-visit_wildcard t ts q down visits wild _ h.0,
          count-append,
          count-append,
          count-entries,
        )
        (omega arith)

-- `matches` returns exactly the subscribers of the stored subscriptions whose filter matches a prefix
-- of the topic's levels, one copy for each subscription. Stated for the number of subscribers that
-- pass any test `q`.
pub count-matches :
    {S : Type 0} (q : Subscriber S → Bool) (tree : TopicTree S) (topic : Text)
    → IsWellFormed tree.root
    → count q (matches tree topic)
      ≡ count (λ e. matches_prefix e.0 (split topic) && q e.1) (entries tree.root)
unfolding matches
count-matches q tree topic h =
    rw (count-matches_recursive (split topic) tree.root q [] h) (unfold count in omega arith)
