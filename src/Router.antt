-- ===== src/Router.antt =====
-- `HttpRouter` of packages/router/src/index.ts: the routes of each method in a trie, and the list of
-- what was registered. A controller is its class; `name_of` is its name.
pub mod Paths
pub mod Trie
pub mod Verbs
pub mod Proper
pub mod Table
pub mod Sound
mod Tests
use noware.Prelude.{
  String, Bool, true, false, not, ◌&&◌, Option, none, some, List, [], ◌∷◌, ◌++◌, filter, mem, map,
  if◌then◌else◌, ◌==◌, Map, get, set, has, get_or,
}
use Prim.Native.String.{◌++◌ as ◌<>◌}
use noware.Router.Paths.{normalize_path, path_segments, pattern_of, extract_param_names}
use noware.Router.Trie.{Node, new_node, insert_trie, match_trie}

pub record RouteEntry (C : Type 0) : Type 0 where
  pub pattern : String
  pub param_names : List String
  pub controller : C
  pub action : String

pub record RouteResult (C : Type 0) : Type 0 where
  pub controller : C
  pub action : String
  pub params : Map String

pub record DrawerEntry : Type 0 where
  pub method : String
  pub path : String
  pub controller : String
  pub action : String

pub record HttpRouter (C : Type 0) : Type 0 where
  pub roots : Map (Node (RouteEntry C))
  pub drawer : List DrawerEntry

pub record Route (C : Type 0) : Type 0 where
  pub method : String
  pub path : String
  pub controller : C
  pub action : String

pub record Resources : Type 0 where
  pub only : Option (List String)
  pub except : Option (List String)

abbrev listed : Option (List String) → String → Bool → Bool
listed none action default = default
listed (some actions) action default = mem action actions

module _ {C : Type 0} where
  abbrev pub new_router : HttpRouter C
  new_router = record { roots = []; drawer = [] }

  -- `getRoot`
  unfoldable pub get_root : String → HttpRouter C → Node (RouteEntry C)
  get_root method router = get_or (get method router.roots) new_node

  unfoldable pub entry_of : Route C → RouteEntry C
  entry_of r = record {
    pattern = normalize_path r.path;
    param_names = extract_param_names (normalize_path r.path);
    controller = r.controller;
    action = r.action;
  }

  unfoldable pub route : (C → String) → Route C → HttpRouter C → HttpRouter C
  unfolding entry_of get_root
  route name_of r router =
      let entry = entry_of r in
      let root = insert_trie (pattern_of entry.pattern) entry (get_root r.method router) in
      let name = name_of r.controller in
      let drawn : DrawerEntry = record {
        method = r.method;
        path = entry.pattern;
        controller = if name == "" then "AnonymousController" else name;
        action = r.action;
      } in
      record { roots = set r.method root router.roots; drawer = router.drawer ++ drawn ∷ [] }

  unfoldable pub route_all : (C → String) → List (Route C) → HttpRouter C → HttpRouter C
  unfolding route
  route_all name_of [] router = router
  route_all name_of (r ∷ rs) router = route_all name_of rs (route name_of r router)

  -- The routes of a resource that its options leave.
  unfoldable pub resource_routes : String → C → Resources → List (Route C)
  resource_routes path controller options =
      let entry : String → String → String → Route C = λ method p action. record {
        method = method;
        path = p;
        controller = controller;
        action = action;
      } in
      filter (λ r. listed options.only r.action true && not (listed options.except r.action false))
        (entry "GET" path "index"
          ∷ entry "POST" path "create"
          ∷ entry "GET" (path <> "/new") "new"
          ∷ entry "GET" (path <> "/:id") "show"
          ∷ entry "GET" (path <> "/:id/edit") "edit"
          ∷ entry "PUT" (path <> "/:id") "update"
          ∷ entry "PATCH" (path <> "/:id") "update"
          ∷ entry "DELETE" (path <> "/:id") "destroy"
          ∷ [])

  unfoldable pub resources : (C → String) → String → C → Resources → HttpRouter C → HttpRouter C
  unfolding route_all resource_routes
  resources name_of path controller options =
      route_all name_of (resource_routes path controller options)

  -- `resourceActions`; `upper` is `toUpperCase`.
  unfoldable pub resource_actions :
      (C → String) → (String → String) → String → C → Map String → HttpRouter C → HttpRouter C
  unfolding route
  resource_actions name_of upper path controller [] router = router
  resource_actions name_of upper path controller ((action, method) ∷ rest) router =
      let path_of = if action == "index" then path else path <> "/" <> action in
      let added =
        route name_of
          (record {
            method = upper method;
            path = path_of;
            controller = controller;
            action = action;
          })
          router in
      resource_actions name_of upper path controller rest added

  -- `resolveRoute` of a request of a method to a path.
  unfoldable pub resolve_route : String → String → HttpRouter C → Option (RouteResult C)
  resolve_route method pathname router = elim (get method router.roots) [
    | none ↦ none
    | some root ↦ elim (match_trie (path_segments (normalize_path pathname)) root) [
      | none ↦ none
      | some (e, params) ↦
          some (record { controller = e.controller; action = e.action; params = params })
    ]
  ]
