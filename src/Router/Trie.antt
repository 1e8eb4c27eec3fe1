-- ===== src/Router/Trie.antt =====
-- `RouterTrieNode`, `insertTrie` and `matchTrie` of packages/router/src/index.ts.
pub mod Laws
pub mod Insert
pub mod Found
pub mod Stored
use Prim.Native.String.{◌++◌}
use noware.Prelude.{
  String, Bool, true, false, not, Option, none, some, List, [], ◌∷◌, if◌then◌else◌, ◌==◌, Map, set,
  get_or,
}
use noware.Router.Paths.{Segment, literal, param, wildcard}

mutual
  pub data Node (E : Type 0) : Type 0 where
    node :
        (children : Children E)
        → (param_name wildcard_name : Option String) → (entry : Option E) → Node E

  pub data Children (E : Type 0) : Type 0 where
    no_children : Children E
    child : String → Node E → Children E → Children E

-- The key of the child that a segment leads to.
unfoldable pub key_of : Segment → String
key_of (literal s) = s
key_of (param _) = ":"
key_of (wildcard _) = "*"

abbrev pub join : List String → String
join [] = ""
join (s ∷ []) = s
join (s ∷ t ∷ rest) = s ++ "/" ++ join (t ∷ rest)

abbrev pub Match : Type 0 → Type 0
Match E = Option (E × Map String)

module _ {E : Type 0} where
  unfoldable pub find : String → Children E → Option (Node E)
  find k no_children = none
  find k (child j n rest) = if j == k then some n else find k rest

  unfoldable pub put : String → Node E → Children E → Children E
  put k n no_children = child k n no_children
  put k n (child j m rest) = if j == k then child j n rest else child j m (put k n rest)

  abbrev pub new_node : Node E
  new_node = node no_children none none none

  -- The child that a segment leads to when there was none.
  unfoldable pub new_child : Segment → Node E
  new_child (literal _) = new_node
  new_child (param name) = node no_children (some name) none none
  new_child (wildcard name) = node no_children none (some (if name == "" then "*" else name)) none

  unfoldable pub insert_trie : List Segment → E → Node E → Node E
  unfolding find put key_of new_child
  insert_trie [] e (node children p w _) = node children p w (some e)
  insert_trie (s ∷ rest) e (node children p w x) =
      let next = get_or (find (key_of s) children) (new_child s) in
      node (put (key_of s) (insert_trie rest e next) children) p w x

  -- `wildcardChild && wildcardChild.entry`
  abbrev pub wildcard_entry : Option (Node E) → Option (E × String)
  wildcard_entry (some (node _ _ w (some e))) = some (e, get_or w "undefined")
  wildcard_entry _ = none

  -- `paramChild && paramChild.paramName`
  abbrev pub param_child : Option (Node E) → Option (Node E × String)
  param_child (some (node children (some p) w e)) =
      if p == "" then none else some (node children (some p) w e, p)
  param_child _ = none

  abbrev pub or_match : Match E → Match E → Match E
  or_match none m = m
  or_match (some r) m = some r

  abbrev pub with_param : String → String → Match E → Match E
  with_param name segment none = none
  with_param name segment (some (e, params)) = some (e, set name segment params)

  -- From a depth on, the segments that are left.
  unfoldable pub match_trie : List String → Node E → Match E
  unfolding find
  match_trie [] (node _ _ _ none) = none
  match_trie [] (node _ _ _ (some e)) = some (e, [])
  match_trie (s ∷ rest) (node children _ _ _) = elim (wildcard_entry (find "*" children)) [
    | some (e, name) ↦ some (e, (name, join (s ∷ rest)) ∷ [])
    | none ↦
        or_match (elim (find s children) [ none ↦ none | some n ↦ match_trie rest n ])
          (elim (param_child (find ":" children)) [
            | none ↦ none
            | some (n, name) ↦ with_param name s (match_trie rest n)
          ])
  ]
