-- ===== src/Broker/Filter.antt =====
-- `is_valid_topic_filter` of src/broker/mod.rs.
pub mod Valid
use opencode_rustquitto.Base.{
  ℕ, ◌+◌, Bool, false, not, ◌&&◌, ◌||◌, Option, none, some, List, [], ◌∷◌, ◌==◌, ltb, if◌then◌else◌,
  length, is_empty, take,
}
use opencode_rustquitto.Text.{Text, find, contains, ends_with}
use opencode_rustquitto.Text.Split.{split, slash}

-- `if let Some(hash_pos) = filter.find('#') { … }`: whether it returns false.
unfoldable pub hash_misplaced : Text → Option ℕ → Bool
hash_misplaced filter none = false
hash_misplaced filter (some hash_pos) =
    (ltb 0 hash_pos && not (ends_with slash (take hash_pos filter)))
    || not (hash_pos + 1 == length filter)

-- `for part in filter.split('/')`: whether it returns false.
unfoldable pub plus_misplaced : List Text → Bool
plus_misplaced [] = false
plus_misplaced (part ∷ parts) = (contains b'+' part && ltb 1 (length part)) || plus_misplaced parts

unfoldable pub is_valid_topic_filter : Text → Bool
is_valid_topic_filter filter =
    if is_empty filter || ltb 65535 (length filter)
    then false
    else if hash_misplaced filter (find b'#' filter)
    then false
    else not (plus_misplaced (split filter))
