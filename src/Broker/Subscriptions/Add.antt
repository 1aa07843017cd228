-- ===== src/Broker/Subscriptions/Add.antt =====
-- `TopicTree::add` of src/broker/subscriptions.rs stores exactly one more subscription.
use opencode_rustquitto.Base.{
  ◌+◌, ◌≡◌, refl, Bool, List, [], ◌∷◌, ◌++◌, ◌===◌, ===_iff, if◌then◌else◌, arith, Bool-cases, inl,
  inr,
}
use opencode_rustquitto.Base.Count.{count, count-append}
use opencode_rustquitto.Text.{Text}
use opencode_rustquitto.Text.Split.{split}
use opencode_rustquitto.Broker.Subscriptions.{
  Subscriber, TopicNode, TopicTree, Children, Wildcard, node, empty, child, absent, present, hash,
  plus, default, get_or_default, entry_or_default, add_recursive, add,
}
use opencode_rustquitto.Broker.Subscriptions.Entries.{
  Subscription, under, kept_levels, entries, entries_of_wildcard, entries_of_children,
  count-entries, count-wildcard, count-child,
}

module _ {S : Type 0} where
  -- `f` adds an entry `x` to a node.
  abbrev Adds : (TopicNode S → TopicNode S) → Subscription S → Type 0
  Adds f x =
      (p : Subscription S → Bool) (c : TopicNode S)
      → count p (entries (f c)) ≡ count p (entries c) + (if p x then 1 else 0)

  count-default : (p : Subscription S → Bool) → count p (entries default) ≡ 0
  unfolding entries count
  count-default p = refl

  count-entry_or_default :
      (f : TopicNode S → TopicNode S) (x : Subscription S)
      → Adds f x
      → (p : Subscription S → Bool) (part : Text) (ch : Children S)
      → count p (entries_of_children (entry_or_default f part ch))
        ≡ count p (entries_of_children ch) + (if p (under part x) then 1 else 0)
  unfolding entry_or_default
  count-entry_or_default f x adds p part empty =
      rw (count-child p part (f default) empty, adds (λ e. p (under part e)) default, count-default)
        (omega arith)
  count-entry_or_default f x adds p part (child key c rest) = elim (Bool-cases (key === part)) [
    | inl e ↦
        rw (e, ← (===_iff key part).0 e)
          (omega (
            arith,
            count-child p key (f c) rest,
            count-child p key c rest,
            adds (λ e. p (under key e)) c,
          ))
    | inr e ↦ rw e (
        omega (
          arith,
          count-child p key c (entry_or_default f part rest),
          count-child p key c rest,
          count-entry_or_default f x adds p part rest,
        ))
  ]

  count-get_or_default :
      (f : TopicNode S → TopicNode S) (x : Subscription S)
      → Adds f x
      → (p : Subscription S → Bool) (w : Wildcard S)
      → count p (entries_of_wildcard (present (f (get_or_default w))))
        ≡ count p (entries_of_wildcard w) + (if p (under plus x) then 1 else 0)
  count-get_or_default f x adds p absent =
      rw (count-wildcard p (f default), adds (λ e. p (under plus e)) default, count-default)
        (unfold entries count in refl)
  count-get_or_default f x adds p (present c) =
      rw (count-wildcard p (f c), count-wildcard p c) (adds (λ e. p (under plus e)) c)

  count-snoc :
      (q : Subscriber S → Bool) (xs : List (Subscriber S)) (s : Subscriber S)
      → count q (xs ++ (s ∷ [])) ≡ count q xs + (if q s then 1 else 0)
  count-snoc q xs s = rw count-append (unfold count in omega arith)

  add_recursive-Adds :
      (parts : List Text) (s : Subscriber S)
      → Adds (λ n. add_recursive n parts s) (kept_levels parts, s)
  unfolding add_recursive kept_levels
  add_recursive-Adds [] s p (node children wild multi subs) = omega (
    arith,
    count-entries p children wild multi subs,
    count-entries p children wild multi (subs ++ (s ∷ [])),
    count-snoc (λ r. p ([], r)) subs s,
  )
  add_recursive-Adds (part ∷ parts) s p (node children wild multi subs) =
      let f = λ (c : TopicNode S). add_recursive c parts s in
      let x : Subscription S = (kept_levels parts, s) in
      let adds : Adds f x = λ q c. add_recursive-Adds parts s q c in
      let before = count-entries p children wild multi subs in
      elim (Bool-cases (part === hash)) [
        | inl e ↦
            rw (e, (===_iff part hash).0 e)
              (omega (
                arith,
                before,
                count-entries p children wild (multi ++ (s ∷ [])) subs,
                count-snoc (λ r. p (hash ∷ [], r)) multi s,
              ))
        | inr e ↦ elim (Bool-cases (part === plus)) [
          | inl k ↦
              rw (e, k, (===_iff part plus).0 k)
                (omega (
                  arith,
                  before,
                  count-entries p children (present (f (get_or_default wild))) multi subs,
                  count-get_or_default f x adds p wild,
                ))
          | inr k ↦
              rw (e, k)
                (omega (
                  arith,
                  before,
                  count-entries p (entry_or_default f part children) wild multi subs,
                  count-entry_or_default f x adds p part children,
                ))
        ]
      ]

-- After `add`, the tree stores what it stored before and one subscription more: the subscriber
-- under the levels of the filter, cut off behind a `#`. Stated for the number of subscriptions
-- that pass any test `p`.
pub count-add :
    {S : Type 0} (p : Subscription S → Bool) (tree : TopicTree S) (filter : Text) (s : Subscriber S)
    → count p (entries (add tree filter s).root)
      ≡ count p (entries tree.root) + (if p (kept_levels (split filter), s) then 1 else 0)
unfolding add
count-add p tree filter s = add_recursive-Adds (split filter) s p tree.root
