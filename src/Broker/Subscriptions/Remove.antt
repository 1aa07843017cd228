-- ===== src/Broker/Subscriptions/Remove.antt =====
-- `TopicTree::remove` and `remove_all_for_client` of src/broker/subscriptions.rs take out exactly the
-- subscriptions that they are asked for.
use opencode_rustquitto.Base.{
  ◌+◌, ◌≡◌, refl, ◌∙◌, sym, Bool, true, false, not, ◌&&◌, none, List, [], ◌∷◌, ◌===◌, ===_iff,
  ===_comm, arith, Bool-cases, inl, inr,
}
use mathlib.Core.Path.{ap₂}
use opencode_rustquitto.Base.Count.{sum₄, count, count-retain}
use opencode_rustquitto.Text.{Text}
use opencode_rustquitto.Text.Split.{split}
use opencode_rustquitto.Broker.Subscriptions.{
  TopicNode, TopicTree, Children, Wildcard, node, empty, child, absent, present, hash, plus, get,
  of_other, modify, modify_wildcard, remove_recursive, remove,
}
use opencode_rustquitto.Broker.Subscriptions.Entries.{
  Subscription, under, kept_levels, entries, entries_of_wildcard, entries_of_children,
  count-entries, count-wildcard, count-child,
}
use opencode_rustquitto.Broker.Subscriptions.WellFormed.{
  IsWellFormed, WildcardIsWellFormed, ChildrenAreWellFormed,
}

pub same_levels : List Text → List Text → Bool
same_levels [] [] = true
same_levels [] (y ∷ ys) = false
same_levels (x ∷ xs) [] = false
same_levels (x ∷ xs) (y ∷ ys) = (x === y) && same_levels xs ys

module _ {S : Type 0} where
  -- The entries that are not the client's subscription to the levels, and pass `p`.
  abbrev pub left_by : List Text → Text → (Subscription S → Bool) → Subscription S → Bool
  left_by levels client_id p e =
      not (same_levels e.0 levels && (e.1.client_id === client_id)) && p e

  abbrev Removes : (TopicNode S → TopicNode S) → List Text → Text → Type 0
  Removes f levels client_id =
      (p : Subscription S → Bool) (c : TopicNode S)
      → IsWellFormed c
      → count p (entries (f c)) ≡ count (left_by levels client_id p) (entries c)

  no_wildcard_keys :
      (ch : Children S) → ChildrenAreWellFormed ch → (get hash ch ≡ none) × (get plus ch ≡ none)
  unfolding get
  no_wildcard_keys empty h = (refl, refl)
  no_wildcard_keys (child key c rest) h = rw (h.0, h.1) (no_wildcard_keys rest h.4)

  count-other_key :
      (p : Subscription S → Bool) (part : Text) (levels : List Text) (client_id : Text)
      (ch : Children S)
      → get part ch ≡ none
      → count (left_by (part ∷ levels) client_id p) (entries_of_children ch)
        ≡ count p (entries_of_children ch)
  unfolding get same_levels
  count-other_key p part levels client_id empty h = unfold entries count in refl
  count-other_key p part levels client_id (child key c rest) h =
      let rest_same = count-other_key p part levels client_id rest in
      elim (Bool-cases (key === part)) [
        | inl e ↦ absurd (ground (arith, e))
        | inr e ↦ rw (count-child, count-child, e) (ap₂ ◌+◌ refl (rest_same (rw e at h)))
      ]

  module _ (f : TopicNode S → TopicNode S) (levels : List Text) (client_id : Text)
      (removes : Removes f levels client_id) where
    count-modify :
        (p : Subscription S → Bool) (part : Text) (ch : Children S)
        → ChildrenAreWellFormed ch
        → count p (entries_of_children (modify f part ch))
          ≡ count (left_by (part ∷ levels) client_id p) (entries_of_children ch)
    unfolding modify same_levels
    count-modify p part empty h = unfold entries count in refl
    count-modify p part (child key c rest) h = elim (Bool-cases (key === part)) [
      | inl e ↦
          let k : key ≡ part = (===_iff key part).0 e in
          rw (e, count-child, count-child, e)
            (ap₂ ◌+◌ (removes (λ x. p (under key x)) c h.3)
              (sym (count-other_key p part levels client_id rest (rw k at h.2))))
      | inr e ↦ rw (e, count-child, count-child, e) (ap₂ ◌+◌ refl (count-modify p part rest h.4))
    ]

    count-modify_wildcard :
        (p : Subscription S → Bool) (w : Wildcard S)
        → WildcardIsWellFormed w
        → count p (entries_of_wildcard (modify_wildcard f w))
          ≡ count (left_by (plus ∷ levels) client_id p) (entries_of_wildcard w)
    unfolding same_levels ◌===◌
    count-modify_wildcard p absent h = unfold entries count in refl
    count-modify_wildcard p (present c) h =
        rw (count-wildcard, count-wildcard) (removes (λ e. p (under plus e)) c h)

  count-deeper_children :
      (p : Subscription S → Bool) (client_id : Text) (ch : Children S)
      → count (left_by [] client_id p) (entries_of_children ch) ≡ count p (entries_of_children ch)
  unfolding same_levels
  count-deeper_children p client_id empty = unfold entries count in refl
  count-deeper_children p client_id (child key c rest) =
      rw (count-child, count-child) (ap₂ ◌+◌ refl (count-deeper_children p client_id rest))

  count-deeper_wildcard :
      (p : Subscription S → Bool) (client_id : Text) (w : Wildcard S)
      → count (left_by [] client_id p) (entries_of_wildcard w) ≡ count p (entries_of_wildcard w)
  unfolding same_levels
  count-deeper_wildcard p client_id absent = unfold entries count in refl
  count-deeper_wildcard p client_id (present c) = rw (count-wildcard, count-wildcard)

  count-other_wildcard :
      (p : Subscription S → Bool) (part : Text) (levels : List Text) (client_id : Text)
      (w : Wildcard S)
      → (plus === part) ≡ false
      → count (left_by (part ∷ levels) client_id p) (entries_of_wildcard w)
        ≡ count p (entries_of_wildcard w)
  unfolding same_levels
  count-other_wildcard p part levels client_id absent h = unfold entries count in refl
  count-other_wildcard p part levels client_id (present c) h =
      rw (count-wildcard, count-wildcard, h)

  remove_recursive-Removes :
      (parts : List Text) (client_id : Text)
      → Removes (λ n. (remove_recursive n parts client_id).0) (kept_levels parts) client_id
  unfolding remove_recursive kept_levels same_levels ◌===◌
  remove_recursive-Removes [] client_id p (node children wild multi subs) h =
      rw (count-entries, count-entries)
        (sum₄ (count-retain (λ s. p ([], s)) (of_other client_id) subs) refl
          (sym (count-deeper_wildcard p client_id wild))
          (sym (count-deeper_children p client_id children)))
  remove_recursive-Removes (part ∷ parts) client_id p (node children wild multi subs) h =
      let f = λ (c : TopicNode S). (remove_recursive c parts client_id).0 in
      let levels = kept_levels parts in
      let removes : Removes f levels client_id =
        λ q c k. remove_recursive-Removes parts client_id q c k in
      let keys = no_wildcard_keys children h.1 in
      elim (Bool-cases (part === hash)) [
        | inl e ↦
            rw (e, (===_iff part hash).0 e, count-entries, count-entries)
              (sum₄ refl (count-retain (λ s. p (hash ∷ [], s)) (of_other client_id) multi)
                (sym (count-other_wildcard p hash [] client_id wild refl))
                (sym (count-other_key p hash [] client_id children keys.0)))
        | inr e ↦ elim (Bool-cases (part === plus)) [
          | inl k ↦
              rw (e, k, (===_iff part plus).0 k, count-entries, count-entries)
                (sum₄ refl refl (count-modify_wildcard f levels client_id removes p wild h.0)
                  (sym (count-other_key p plus levels client_id children keys.1)))
          | inr k ↦
              rw (e, k, count-entries, count-entries, ===_comm hash part, e)
                (sum₄ refl refl
                  (sym (count-other_wildcard p part levels client_id wild (===_comm plus part ∙ k)))
                  (count-modify f levels client_id removes p part children h.1))
        ]
      ]

-- After `remove`, the tree stores what it stored before, but for the client's own subscriptions to
-- the levels of the filter: no other client's, and none of the same client to another filter.
-- Stated for the number of subscriptions that pass any test `p`.
pub count-remove :
    {S : Type 0} (p : Subscription S → Bool) (tree : TopicTree S) (filter client_id : Text)
    → IsWellFormed tree.root
    → count p (entries (remove tree filter client_id).root)
      ≡ count (left_by (kept_levels (split filter)) client_id p) (entries tree.root)
unfolding remove
count-remove p tree filter client_id h =
    remove_recursive-Removes (split filter) client_id p tree.root h
