-- ===== src/Model/Views.antt =====
-- The views that are built of a workspace: `buildComponentView`, `buildCodeView`, `buildTeamView` and
-- `buildFlowView` of packages/cfour/src/index.ts; `lower` is `toLowerCase`.
use Prim.Native.String.{◌++◌}
use noware.Prelude.{
  String, Bool, false, ◌&&◌, ◌||◌, Option, none, some, List, [], ◌∷◌, map, if◌then◌else◌, ◌==◌,
  filter, mem, include, from_list,
}
use noware.Prelude.Strings.{dashed}
use noware.Model.{
  Node, a_component, a_code, Relationship, ViewKind, components, codes, dynamic, ViewElement, View,
  Workspace, id_of, element_of,
}
use noware.Model.Tree.{flatten_workspace}

abbrev shown : String → ViewElement
shown id = record { element_id = id; x = none; y = none }

abbrev view : String → ViewKind → String → String → List String → List String → View
view id kind title scope elements relationships = record {
  id = id;
  kind = kind;
  title = some title;
  description = none;
  elements = map shown elements;
  relationships = relationships;
  scope_id = some scope;
}

-- The name of the first node with the id, or the id.
abbrev name_or_id : List Node → String → String
name_or_id [] id = id
name_or_id (n ∷ ns) id = if id_of n == id then (element_of n).name else name_or_id ns id

abbrev is_component_of : String → Node → Bool
is_component_of id (a_component c) = c.container_id == id
is_component_of id _ = false

abbrev is_code_of : String → Node → Bool
is_code_of id (a_code c) = c.component_id == id
is_code_of id _ = false

unfoldable pub build_component_view : Workspace → String → View
unfolding flatten_workspace
build_component_view ws id =
    let flat = flatten_workspace ws in
    let ids = map id_of (filter (is_component_of id) flat.nodes) in
    view ("component-" ++ id) components ("Components — " ++ name_or_id flat.nodes id) id ids (
      map (λ r. r.id)
        (filter (λ r. mem r.source_id ids || mem r.destination_id ids) flat.relationships))

unfoldable pub build_code_view : Workspace → String → View
unfolding flatten_workspace
build_code_view ws id =
    let flat = flatten_workspace ws in
    let ids = map id_of (filter (is_code_of id) flat.nodes) in
    view ("code-" ++ id) codes ("Code — " ++ name_or_id flat.nodes id) id ids (
      map (λ r. r.id)
        (filter (λ r. mem r.source_id ids && mem r.destination_id ids) flat.relationships))

-- The ids of the ends, in the order of a `Set`.
unfoldable pub with_ends : List Relationship → List String → List String
with_ends [] ids = ids
with_ends (r ∷ rs) ids = with_ends rs (include r.destination_id (include r.source_id ids))

abbrev owned_by : String → Node → Bool
owned_by team n = elim (element_of n).owner [ none ↦ false | some o ↦ o == team ]

unfoldable pub build_team_view : (String → String) → Workspace → String → View
unfolding flatten_workspace with_ends dashed
build_team_view lower ws team =
    let flat = flatten_workspace ws in
    let owned = from_list [] (map id_of (filter (owned_by team) flat.nodes)) in
    let touching =
      filter (λ r. mem r.source_id owned || mem r.destination_id owned) flat.relationships in
    view ("team-" ++ dashed (lower team)) dynamic ("Team View — " ++ team) team
      (with_ends touching owned) (from_list [] (map (λ r. r.id) touching))

abbrev has_tag : String → Relationship → Bool
has_tag tag r = elim r.tags [ none ↦ false | some tags ↦ mem tag tags ]

abbrev title_or : Option String → String → String
title_or none d = d
title_or (some t) d = if t == "" then d else t

unfoldable pub build_flow_view : (String → String) → Workspace → String → Option String → View
unfolding with_ends dashed
build_flow_view lower ws tag title =
    let rels = filter (has_tag tag) ws.relationships in
    view ("flow-" ++ dashed (lower tag)) dynamic (title_or title ("Flow Perspective — " ++ tag)) tag
      (with_ends rels []) (from_list [] (map (λ r. r.id) rels))
