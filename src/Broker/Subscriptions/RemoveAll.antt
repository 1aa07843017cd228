-- ===== src/Broker/Subscriptions/RemoveAll.antt =====
-- `TopicTree::remove_all_for_client` of src/broker/subscriptions.rs takes out exactly the client's
-- subscriptions.
use opencode_rustquitto.Base.{◌+◌, ◌≡◌, Bool, ◌&&◌, [], ◌∷◌}
use mathlib.Core.Path.{ap₂}
use opencode_rustquitto.Base.Count.{sum₄, count, count-retain}
use opencode_rustquitto.Text.{Text}
use opencode_rustquitto.Broker.Subscriptions.{
  TopicNode, TopicTree, Children, Wildcard, node, empty, child, absent, present, hash, plus,
  of_other, remove_all_recursive, remove_all_children, remove_all_wildcard, remove_all_for_client,
}
use opencode_rustquitto.Broker.Subscriptions.Entries.{
  Subscription, under, entries, entries_of_wildcard, entries_of_children, count-entries,
  count-wildcard, count-child, count-empty, count-absent,
}

module _ {S : Type 0} where
  -- The entries of other clients that pass `p`.
  abbrev others : Text → (Subscription S → Bool) → Subscription S → Bool
  others client_id p e = of_other client_id e.1 && p e

  mutual
    unfolding remove_all_recursive

    count_node :
        (client_id : Text) (n : TopicNode S) (p : Subscription S → Bool)
        → count p (entries (remove_all_recursive client_id n))
          ≡ count (others client_id p) (entries n)
    count_node client_id (node children wild multi subs) p =
        rw (count-entries, count-entries)
          (sum₄ (count-retain (λ s. p ([], s)) (of_other client_id) subs)
            (count-retain (λ s. p (hash ∷ [], s)) (of_other client_id) multi)
            (count_wildcard client_id wild p) (count_children client_id children p))

    count_wildcard :
        (client_id : Text) (w : Wildcard S) (p : Subscription S → Bool)
        → count p (entries_of_wildcard (remove_all_wildcard client_id w))
          ≡ count (others client_id p) (entries_of_wildcard w)
    count_wildcard client_id absent p = rw (count-absent, count-absent)
    count_wildcard client_id (present c) p =
        rw (count-wildcard, count-wildcard) (count_node client_id c (λ e. p (under plus e)))

    count_children :
        (client_id : Text) (ch : Children S) (p : Subscription S → Bool)
        → count p (entries_of_children (remove_all_children client_id ch))
          ≡ count (others client_id p) (entries_of_children ch)
    count_children client_id empty p = rw (count-empty, count-empty)
    count_children client_id (child key c rest) p =
        rw (count-child, count-child)
          (ap₂ ◌+◌ (count_node client_id c (λ e. p (under key e)))
            (count_children client_id rest p))

-- After `remove_all_for_client`, the tree stores exactly the subscriptions of the other clients, as
-- often as before. Stated for the number of subscriptions that pass any test `p`.
pub count-remove_all_for_client :
    {S : Type 0} (p : Subscription S → Bool) (tree : TopicTree S) (client_id : Text)
    → count p (entries (remove_all_for_client tree client_id).root)
      ≡ count (λ e. of_other client_id e.1 && p e) (entries tree.root)
unfolding remove_all_for_client
count-remove_all_for_client p tree client_id = count_node client_id tree.root p
