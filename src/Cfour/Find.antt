-- ===== src/Cfour/Find.antt =====
-- `findNodes`, `findRelationships` and `getSelection` of `BaseCfour`; `lower` is `toLowerCase`.
use noware.Prelude.{
  String, Bool, true, false, ◌&&◌, ◌||◌, Option, none, some, List, [], ◌∷◌, map, ◌==◌, filter, all,
  mem,
}
use noware.Prelude.Strings.{includes}
use noware.Exec.{◌>>=◌, pure}
use noware.Model.{
  ElementKind, InteractionStyle, Node, Relationship, id_of, element_of, kind_of, technology_of,
}
use noware.Model.Collab.{Selection}
use noware.Model.Compare.{kind_eq, style_eq}
use noware.Model.Tree.{flatten_workspace}
use noware.Cfour.{M}
use noware.Cfour.Queries.{selection_of}
use noware.Cfour.Workspaces.{get_workspace}

pub record NodeFilter : Type 0 where
  pub kind : Option ElementKind
  pub technology : Option String
  pub owner : Option String
  pub tags : Option (List String)
  pub search : Option String

pub record RelationshipFilter : Type 0 where
  pub source_id : Option String
  pub destination_id : Option String
  pub technology : Option String
  pub tags : Option (List String)
  pub interaction_style : Option InteractionStyle
  pub search : Option String

-- A filter that is not set, or the empty text, lets everything pass.
abbrev if_set : Option String → (String → Bool) → Bool
if_set none test = true
if_set (some s) test = s == "" || test s

abbrev is_text : Option String → String → Bool
is_text none s = false
is_text (some t) s = t == s

-- Every tag that is asked for is there.
abbrev has_tags : Option (List String) → Option (List String) → Bool
has_tags none tags = true
has_tags (some []) tags = true
has_tags (some (t ∷ ts)) none = false
has_tags (some (t ∷ ts)) (some tags) = all (λ s. mem s tags) (t ∷ ts)

module _ (lower : String → String) where
  abbrev contains : Option String → String → Bool
  contains none s = false
  contains (some t) s = includes (lower t) (lower s)

  unfoldable pub node_matches : NodeFilter → Node → Bool
  unfolding element_of kind_of technology_of kind_eq
  node_matches f n =
      let e = element_of n in
      elim f.kind [ none ↦ true | some k ↦ kind_eq (kind_of n) k ]
      && if_set f.owner (is_text e.owner)
      && if_set f.technology (contains (technology_of n))
      && has_tags f.tags e.tags
      && if_set f.search (λ s. contains (some e.name) s || contains e.description s)

  unfoldable pub relationship_matches : RelationshipFilter → Relationship → Bool
  unfolding style_eq
  relationship_matches f r =
      if_set f.source_id (is_text (some r.source_id))
      && if_set f.destination_id (is_text (some r.destination_id))
      && if_set f.technology (contains r.technology)
      && elim f.interaction_style [
        | none ↦ true
        | some s ↦ elim r.interaction_style [ none ↦ false | some t ↦ style_eq t s ]
      ]
      && has_tags f.tags r.tags
      && if_set f.search (λ s. contains r.description s || contains r.technology s)

  unfoldable pub find_nodes : NodeFilter → String → M (List Node)
  unfolding node_matches
  find_nodes f name = do
    ws ← get_workspace name
    pure (filter (node_matches f) (flatten_workspace ws).nodes)

  unfoldable pub find_relationships : RelationshipFilter → String → M (List Relationship)
  unfolding relationship_matches
  find_relationships f name = do
    ws ← get_workspace name
    pure (filter (relationship_matches f) ws.relationships)

  unfoldable pub get_selection : NodeFilter → String → M Selection
  unfolding find_nodes
  get_selection query name = do
    ws ← get_workspace name
    found ← find_nodes query name
    pure (selection_of ws (map id_of found))
