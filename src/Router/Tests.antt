-- ===== src/Router/Tests.antt =====
-- A router of three routes.
use noware.Prelude.{
  String, ◌≡◌, refl, Option, none, some, List, [], ◌∷◌, any, is_some, get, set, Map, map,
}
use noware.Router.Paths.{
  normalize_path, path_segments, segment_of, split, pattern_of, extract_param_names,
}
use noware.Router.Trie.{find, put, key_of, new_child, insert_trie, match_trie}
use noware.Router.Trie.Laws.{fits}
use noware.Router.{
  RouteResult, HttpRouter, Route, new_router, get_root, entry_of, route, route_all, resolve_route,
}
use noware.Router.Table.{takes, NamedRoutes, resolve_route-route_all}
use noware.Router.Sound.{Answers, resolve_route-Answers}

routing : Unit {0}
unfolding normalize_path path_segments segment_of split pattern_of extract_param_names find put
    key_of new_child insert_trie match_trie fits get_root entry_of route route_all resolve_route get
    set
routing = tt

abbrev at : String → String → String → Route String
at path controller action = record {
  method = "GET";
  path = path;
  controller = controller;
  action = action;
}

abbrev routes : List (Route String)
routes =
    at "/users/:id/" "Users" "show"
    ∷ at "users/:user_id/posts" "Posts" "index"
    ∷ at "/files/*rest" "Files" "read"
    ∷ at "/files/list" "Files" "list"
    ∷ []

abbrev router : HttpRouter String
router = route_all (λ c. c) routes new_router

abbrev params_of : Option (RouteResult String) → Map String
params_of none = []
params_of (some r) = r.params

abbrev action_of : Option (RouteResult String) → String
action_of none = ""
action_of (some r) = r.action

-- The second route's parameter comes under the first one's name.
first_name : params_of (resolve_route "GET" "/users/7/posts" router) ≡ ("id", "7") ∷ []
unfolding routing
first_name = refl

-- The wildcard comes before the path that is spelled out.
wildcard_first : action_of (resolve_route "GET" "/files/list" router) ≡ "read"
unfolding routing
wildcard_first = refl

not_found : resolve_route "GET" "/files/" router ≡ none
unfolding routing
not_found = refl

paths :
    map normalize_path ("users/" ∷ "/" ∷ "" ∷ "//" ∷ "/a//b/" ∷ [])
    ≡ "/users" ∷ "/" ∷ "/" ∷ "/" ∷ "/a//b" ∷ []
unfolding routing
paths = refl

segments : path_segments "/a//b/:id" ≡ "a" ∷ "b" ∷ ":id" ∷ []
unfolding routing
segments = refl

names : extract_param_names "/users/:id/files/*rest" ≡ "id" ∷ "rest" ∷ []
unfolding routing
names = refl

routes_named : NamedRoutes routes
unfolding routing
routes_named = ((tt, (refl, tt)), ((tt, (refl, (tt, tt))), ((tt, (tt, tt)), ((tt, (tt, tt)), tt))))

resolve_route-route_all_example :
    is_some (resolve_route "GET" "/users/7/posts" router)
    ≡ any (takes "GET" "/users/7/posts") routes
unfolding routing
resolve_route-route_all_example =
    resolve_route-route_all (λ c. c) routes "GET" "/users/7/posts" routes_named

resolve_route-Answers_example :
    Answers "GET" "/files/list" routes (resolve_route "GET" "/files/list" router)
unfolding routing
resolve_route-Answers_example =
    resolve_route-Answers (λ c. c) routes "GET" "/files/list" routes_named
