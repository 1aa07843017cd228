-- ===== src/Broker/Subscriptions.antt =====
-- src/broker/subscriptions.rs: the tree of subscriptions. A `HashMap` from levels to nodes is a
-- chain of entries with distinct keys (`IsWellFormed`); an `Option<Box<TopicNode>>` is a type of its
-- own. A slice `parts[depth..]` is the list of the parts that are left.
pub mod Entries
pub mod WellFormed
pub mod Add
pub mod Remove
pub mod RemoveAll
pub mod Match
pub mod Mqtt
use opencode_rustquitto.Base.{
  Option, none, some, ℕ, Bool, true, false, not, List, [], ◌∷◌, ◌++◌, ◌===◌, if◌then◌else◌,
}
use opencode_rustquitto.Base.Count.{retain}
use opencode_rustquitto.Text.{Text}
use opencode_rustquitto.Text.Split.{split}
use opencode_rustquitto.Protocol.Qos.{Qos}

-- `sender` is the sending half of the subscriber's channel, of a type that the tree never looks at.
pub record Subscriber (Sender : Type 0) : Type 0 where
  pub client_id : Text
  pub sender : Sender
  pub qos : Qos

mutual
  pub data TopicNode (Sender : Type 0) : Type 0 where
    node :
        Children Sender
        → Wildcard Sender
        → List (Subscriber Sender)
        → List (Subscriber Sender)
        → TopicNode Sender

  -- The map `children`.
  pub data Children (Sender : Type 0) : Type 0 where
    empty : Children Sender
    child : Text → TopicNode Sender → Children Sender → Children Sender

  -- The field `single_wildcard`.
  pub data Wildcard (Sender : Type 0) : Type 0 where
    absent : Wildcard Sender
    present : TopicNode Sender → Wildcard Sender

pub record TopicTree (Sender : Type 0) : Type 0 where
  pub root : TopicNode Sender

abbrev pub hash : Text
hash = b'#' ∷ []

abbrev pub plus : Text
plus = b'+' ∷ []

module _ {S : Type 0} where
  abbrev pub default : TopicNode S
  default = node empty absent [] []

  -- `children.get(part)`
  unfoldable pub get : Text → Children S → Option (TopicNode S)
  get part empty = none
  get part (child key c rest) = if key === part then some c else get part rest

  -- `children.entry(part).or_default()`, and `f` at the entry.
  unfoldable pub entry_or_default : (TopicNode S → TopicNode S) → Text → Children S → Children S
  entry_or_default f part empty = child part (f default) empty
  entry_or_default f part (child key c rest) =
      if key === part then child key (f c) rest else child key c (entry_or_default f part rest)

  -- `if let Some(child) = children.get_mut(part)`, and `f` at the entry.
  unfoldable pub modify : (TopicNode S → TopicNode S) → Text → Children S → Children S
  modify f part empty = empty
  modify f part (child key c rest) =
      if key === part then child key (f c) rest else child key c (modify f part rest)

  -- `single_wildcard.get_or_insert_with(…)`
  abbrev pub get_or_default : Wildcard S → TopicNode S
  get_or_default absent = default
  get_or_default (present c) = c

  -- `if let Some(ref mut child) = single_wildcard`, and `f` at the child.
  abbrev pub modify_wildcard : (TopicNode S → TopicNode S) → Wildcard S → Wildcard S
  modify_wildcard f absent = absent
  modify_wildcard f (present c) = present (f c)

  unfoldable pub add_recursive : TopicNode S → List Text → Subscriber S → TopicNode S
  add_recursive (node children wild multi subs) [] subscriber =
      node children wild multi (subs ++ (subscriber ∷ []))
  add_recursive (node children wild multi subs) (part ∷ remaining) subscriber =
      let down = λ (c : TopicNode S). add_recursive c remaining subscriber in
      if part === hash
      then node children wild (multi ++ (subscriber ∷ [])) subs
      else if part === plus
      then node children (present (down (get_or_default wild))) multi subs
      else node (entry_or_default down part children) wild multi subs

  unfoldable pub add : TopicTree S → Text → Subscriber S → TopicTree S
  add tree filter subscriber = record { root = add_recursive tree.root (split filter) subscriber }

  -- `|s| s.client_id != client_id`
  abbrev pub of_other : Text → Subscriber S → Bool
  of_other client_id s = not (s.client_id === client_id)

  -- The node and the returned flag, which no caller looks at.
  unfoldable pub remove_recursive : TopicNode S → List Text → Text → TopicNode S × Bool
  remove_recursive (node children wild multi subs) [] client_id =
      (node children wild multi (retain (of_other client_id) subs), true)
  remove_recursive (node children wild multi subs) (part ∷ remaining) client_id =
      let down = λ (c : TopicNode S). (remove_recursive c remaining client_id).0 in
      if part === hash
      then (node children wild (retain (of_other client_id) multi) subs, false)
      else if part === plus
      then (node children (modify_wildcard down wild) multi subs, false)
      else (node (modify down part children) wild multi subs, false)

  unfoldable pub remove : TopicTree S → Text → Text → TopicTree S
  remove tree filter client_id = record {
    root = (remove_recursive tree.root (split filter) client_id).0;
  }

  unfoldable mutual
    pub remove_all_recursive : Text → TopicNode S → TopicNode S
    remove_all_recursive client_id (node children wild multi subs) =
        node (remove_all_children client_id children) (remove_all_wildcard client_id wild)
          (retain (of_other client_id) multi) (retain (of_other client_id) subs)

    -- `for child in node.children.values_mut()`
    pub remove_all_children : Text → Children S → Children S
    remove_all_children client_id empty = empty
    remove_all_children client_id (child key c rest) =
        child key (remove_all_recursive client_id c) (remove_all_children client_id rest)

    pub remove_all_wildcard : Text → Wildcard S → Wildcard S
    remove_all_wildcard client_id absent = absent
    remove_all_wildcard client_id (present c) = present (remove_all_recursive client_id c)

  pub remove_all_for_client : TopicTree S → Text → TopicTree S
  remove_all_for_client tree client_id = record { root = remove_all_recursive client_id tree.root }

  -- `if let Some(ref child) = single_wildcard` and `if let Some(child) = children.get(current)`, with
  -- the recursive call `down` on the child.
  abbrev pub visit_wildcard :
      (TopicNode S → List (Subscriber S) → List (Subscriber S))
      → Wildcard S
      → List (Subscriber S)
      → List (Subscriber S)
  visit_wildcard down absent result = result
  visit_wildcard down (present c) result = down c result

  abbrev pub visit_child :
      (TopicNode S → List (Subscriber S) → List (Subscriber S))
      → Option (TopicNode S)
      → List (Subscriber S)
      → List (Subscriber S)
  visit_child down none result = result
  visit_child down (some c) result = down c result

  -- `parts` are the levels from `depth` on; the caller's `result` is extended.
  unfoldable pub matches_recursive :
      TopicNode S → List Text → List (Subscriber S) → List (Subscriber S)
  matches_recursive (node children wild multi subs) [] result = result ++ subs ++ multi
  matches_recursive (node children wild multi subs) (current ∷ deeper) result =
      let down = λ (c : TopicNode S) (r : List (Subscriber S)). matches_recursive c deeper r in
      visit_child down (get current children) (visit_wildcard down wild (result ++ subs ++ multi))

  unfoldable pub matches : TopicTree S → Text → List (Subscriber S)
  matches tree topic = matches_recursive tree.root (split topic) []
