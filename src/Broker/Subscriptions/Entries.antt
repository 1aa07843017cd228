-- ===== src/Broker/Subscriptions/Entries.antt =====
-- The abstract view of a tree of src/broker/subscriptions.rs: the subscriptions that it stores, each
-- a topic filter, as its levels, with a subscriber.
use opencode_rustquitto.Base.{◌+◌, ◌≡◌, refl, Bool, List, [], ◌∷◌, ◌++◌, map, ◌===◌, if◌then◌else◌}
use opencode_rustquitto.Base.Count.{count, count-append, count-map}
use opencode_rustquitto.Text.{Text}
use opencode_rustquitto.Broker.Subscriptions.{
  Subscriber, TopicNode, Children, Wildcard, node, empty, child, absent, present, hash, plus,
}

abbrev pub Subscription : Type 0 → Type 0
Subscription S = List Text × Subscriber S

abbrev pub at : {S : Type 0} → List Text → Subscriber S → Subscription S
at filter s = (filter, s)

abbrev pub under : {S : Type 0} → Text → Subscription S → Subscription S
under part (filter, s) = (part ∷ filter, s)

-- The levels that the tree keeps of a filter: nothing behind a `#`.
unfoldable pub kept_levels : List Text → List Text
kept_levels [] = []
kept_levels (part ∷ parts) =
    let rest = kept_levels parts in if part === hash then part ∷ [] else part ∷ rest

module _ {S : Type 0} where
  unfoldable mutual
    pub entries : TopicNode S → List (Subscription S)
    entries (node children wild multi subs) =
        map (at []) subs
        ++ (map (at (hash ∷ [])) multi
            ++ (entries_of_wildcard wild ++ entries_of_children children))

    pub entries_of_wildcard : Wildcard S → List (Subscription S)
    entries_of_wildcard absent = []
    entries_of_wildcard (present c) = map (under plus) (entries c)

    pub entries_of_children : Children S → List (Subscription S)
    entries_of_children empty = []
    entries_of_children (child key c rest) = map (under key) (entries c) ++ entries_of_children rest

  -- Counts of the entries, part by part.
  pub count-entries :
      (p : Subscription S → Bool) (children : Children S) (wild : Wildcard S)
      (multi subs : List (Subscriber S))
      → count p (entries (node children wild multi subs))
        ≡ count (λ s. p ([], s)) subs
          + (count (λ s. p (hash ∷ [], s)) multi
              + (count p (entries_of_wildcard wild) + count p (entries_of_children children)))
  unfolding entries
  count-entries p children wild multi subs = simp (count-append, count-map)

  pub count-wildcard :
      (p : Subscription S → Bool) (c : TopicNode S)
      → count p (entries_of_wildcard (present c)) ≡ count (λ e. p (under plus e)) (entries c)
  unfolding entries
  count-wildcard p c = count-map p (under plus) (entries c)

  pub count-child :
      (p : Subscription S → Bool) (key : Text) (c : TopicNode S) (rest : Children S)
      → count p (entries_of_children (child key c rest))
        ≡ count (λ e. p (under key e)) (entries c) + count p (entries_of_children rest)
  unfolding entries
  count-child p key c rest = simp (count-append, count-map)

  pub count-empty : (p : Subscription S → Bool) → count p (entries_of_children empty) ≡ 0
  unfolding entries count
  count-empty p = refl

  pub count-absent : (p : Subscription S → Bool) → count p (entries_of_wildcard absent) ≡ 0
  unfolding entries count
  count-absent p = refl
