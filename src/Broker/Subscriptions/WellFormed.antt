-- ===== src/Broker/Subscriptions/WellFormed.antt =====
-- The invariant of the tree of src/broker/subscriptions.rs: the keys of each map `children` are
-- distinct, and no key is a wildcard.
use opencode_rustquitto.Base.{
  ◌≡◌, refl, false, none, List, [], ◌∷◌, ◌===◌, ===_iff, arith, Bool-cases, inl, inr,
}
use opencode_rustquitto.Text.{Text}
use opencode_rustquitto.Broker.Subscriptions.{
  Subscriber, TopicNode, Children, Wildcard, node, empty, child, absent, present, hash, plus,
  default, get, entry_or_default, modify, add_recursive, remove_recursive, remove_all_recursive,
  remove_all_children, remove_all_wildcard, get_or_default, modify_wildcard, TopicTree, add, remove,
  remove_all_for_client,
}
use opencode_rustquitto.Text.Split.{split}

module _ {S : Type 0} where
  abbrev mutual
    pub IsWellFormed : TopicNode S → Type 0
    IsWellFormed (node children wild multi subs) =
        WildcardIsWellFormed wild × ChildrenAreWellFormed children

    pub WildcardIsWellFormed : Wildcard S → Type 0
    WildcardIsWellFormed absent = Unit
    WildcardIsWellFormed (present c) = IsWellFormed c

    pub ChildrenAreWellFormed : Children S → Type 0
    ChildrenAreWellFormed empty = Unit
    ChildrenAreWellFormed (child key c rest) =
        ((key === hash) ≡ false)
        × ((key === plus) ≡ false)
        × (get key rest ≡ none)
        × IsWellFormed c
        × ChildrenAreWellFormed rest

  get_or_default-IsWellFormed :
      (w : Wildcard S) → WildcardIsWellFormed w → IsWellFormed (get_or_default w)
  get_or_default-IsWellFormed absent h = (tt, tt)
  get_or_default-IsWellFormed (present c) h = h

  -- The map operations keep the other keys.
  get-entry_or_default_ne :
      (f : TopicNode S → TopicNode S) (part j : Text) (ch : Children S)
      → (j === part) ≡ false
      → get j ch ≡ none
      → get j (entry_or_default f part ch) ≡ none
  unfolding get entry_or_default
  get-entry_or_default_ne f part j empty h g = ground (arith, ===_iff j part, ===_iff part j)
  get-entry_or_default_ne f part j (child key c rest) h g =
      ground (arith, get-entry_or_default_ne f part j rest)

  get-modify-none :
      (f : TopicNode S → TopicNode S) (part j : Text) (ch : Children S)
      → get j ch ≡ none
      → get j (modify f part ch) ≡ none
  unfolding get modify
  get-modify-none f part j empty g = refl
  get-modify-none f part j (child key c rest) g = ground (arith, get-modify-none f part j rest)

  module _ (f : TopicNode S → TopicNode S)
      (keep : (c : TopicNode S) → IsWellFormed c → IsWellFormed (f c)) where
    entry_or_default-AreWellFormed :
        (part : Text) (ch : Children S)
        → (part === hash) ≡ false
        → (part === plus) ≡ false
        → ChildrenAreWellFormed ch
        → ChildrenAreWellFormed (entry_or_default f part ch)
    unfolding entry_or_default get
    entry_or_default-AreWellFormed part empty nh np h = (nh, np, refl, keep default (tt, tt), tt)
    entry_or_default-AreWellFormed part (child key c rest) nh np h =
        elim (Bool-cases (key === part)) [
          | inl e ↦ rw e (h.0, h.1, h.2, keep c h.3, h.4)
          | inr e ↦ rw e (
            h.0,
            h.1,
            get-entry_or_default_ne f part key rest e h.2,
            h.3,
            entry_or_default-AreWellFormed part rest nh np h.4,
          )
        ]

    modify-AreWellFormed :
        (part : Text) (ch : Children S)
        → ChildrenAreWellFormed ch
        → ChildrenAreWellFormed (modify f part ch)
    unfolding modify
    modify-AreWellFormed part empty h = tt
    modify-AreWellFormed part (child key c rest) h = elim (Bool-cases (key === part)) [
      | inl e ↦ rw e (h.0, h.1, h.2, keep c h.3, h.4)
      | inr e ↦
          rw e
            (h.0, h.1, get-modify-none f part key rest h.2, h.3, modify-AreWellFormed part rest h.4)
    ]

  modify_wildcard-IsWellFormed :
      (f : TopicNode S → TopicNode S)
      → ((c : TopicNode S) → IsWellFormed c → IsWellFormed (f c))
      → (w : Wildcard S) → WildcardIsWellFormed w
      → WildcardIsWellFormed (modify_wildcard f w)
  modify_wildcard-IsWellFormed f keep absent h = tt
  modify_wildcard-IsWellFormed f keep (present c) h = keep c h

  pub add_recursive-IsWellFormed :
      (parts : List Text) (s : Subscriber S) (n : TopicNode S)
      → IsWellFormed n
      → IsWellFormed (add_recursive n parts s)
  unfolding add_recursive
  add_recursive-IsWellFormed [] s (node children wild multi subs) h = h
  add_recursive-IsWellFormed (part ∷ parts) s (node children wild multi subs) h =
      let down = λ (c : TopicNode S) (k : IsWellFormed c). add_recursive-IsWellFormed parts s c k in
      elim (Bool-cases (part === hash)) [
        | inl e ↦ rw e h
        | inr e ↦ elim (Bool-cases (part === plus)) [
          | inl p ↦
              rw (e, p) (down (get_or_default wild) (get_or_default-IsWellFormed wild h.0), h.1)
          | inr p ↦
              rw (e, p)
                (
                  h.0,
                  entry_or_default-AreWellFormed (λ c. add_recursive c parts s) down part children e
                      p h.1,
                )
        ]
      ]

  remove_recursive-IsWellFormed :
      (parts : List Text) (client_id : Text) (n : TopicNode S)
      → IsWellFormed n
      → IsWellFormed (remove_recursive n parts client_id).0
  unfolding remove_recursive
  remove_recursive-IsWellFormed [] client_id (node children wild multi subs) h = h
  remove_recursive-IsWellFormed (part ∷ parts) client_id (node children wild multi subs) h =
      let f = λ (c : TopicNode S). (remove_recursive c parts client_id).0 in
      let down = λ (c : TopicNode S) (k : IsWellFormed c).
        remove_recursive-IsWellFormed parts client_id c k in
      elim (Bool-cases (part === hash)) [
        | inl e ↦ rw e h
        | inr e ↦ elim (Bool-cases (part === plus)) [
          | inl p ↦ rw (e, p) (modify_wildcard-IsWellFormed f down wild h.0, h.1)
          | inr p ↦ rw (e, p) (h.0, modify-AreWellFormed f down part children h.1)
        ]
      ]

  get-remove_all_none :
      (client_id key : Text) (ch : Children S)
      → get key ch ≡ none
      → get key (remove_all_children client_id ch) ≡ none
  unfolding get remove_all_recursive
  get-remove_all_none client_id key empty h = refl
  get-remove_all_none client_id key (child j c rest) h =
      ground (arith, get-remove_all_none client_id key rest)

  mutual
    unfolding remove_all_recursive

    keep_node :
        (client_id : Text) (n : TopicNode S)
        → IsWellFormed n
        → IsWellFormed (remove_all_recursive client_id n)
    keep_node client_id (node children wild multi subs) h =
        (keep_wildcard client_id wild h.0, keep_children client_id children h.1)

    keep_wildcard :
        (client_id : Text) (w : Wildcard S)
        → WildcardIsWellFormed w
        → WildcardIsWellFormed (remove_all_wildcard client_id w)
    keep_wildcard client_id absent h = tt
    keep_wildcard client_id (present c) h = keep_node client_id c h

    keep_children :
        (client_id : Text) (ch : Children S)
        → ChildrenAreWellFormed ch
        → ChildrenAreWellFormed (remove_all_children client_id ch)
    keep_children client_id empty h = tt
    keep_children client_id (child key c rest) h = (
      h.0,
      h.1,
      get-remove_all_none client_id key rest h.2,
      keep_node client_id c h.3,
      keep_children client_id rest h.4,
    )

  remove_all_recursive-IsWellFormed :
      (client_id : Text) (n : TopicNode S)
      → IsWellFormed n
      → IsWellFormed (remove_all_recursive client_id n)
  remove_all_recursive-IsWellFormed = keep_node

pub remove-IsWellFormed :
    {S : Type 0} (tree : TopicTree S) (filter client_id : Text)
    → IsWellFormed tree.root
    → IsWellFormed (remove tree filter client_id).root
unfolding remove
remove-IsWellFormed tree filter client_id h =
    remove_recursive-IsWellFormed (split filter) client_id tree.root h

-- Adding a subscription, removing one and removing a client's keep a tree well-formed, for any
-- filter, client and subscriber.
pub operations-AreWellFormed :
    {S : Type 0} (tree : TopicTree S) (filter client_id : Text) (s : Subscriber S)
    → IsWellFormed tree.root
    → IsWellFormed (add tree filter s).root
      × IsWellFormed (remove tree filter client_id).root
      × IsWellFormed (remove_all_for_client tree client_id).root
unfolding add remove_all_for_client
operations-AreWellFormed tree filter client_id s h = (
  add_recursive-IsWellFormed (split filter) s tree.root h,
  remove-IsWellFormed tree filter client_id h,
  remove_all_recursive-IsWellFormed client_id tree.root h,
)
