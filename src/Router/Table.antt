-- ===== src/Router/Table.antt =====
-- The router as the table of its routes.
use noware.Prelude.{
  String, Bool, true, false, ◌&&◌, ◌||◌, ◌≡◌, refl, sym, ◌∙◌, Option, none, some, List, [], ◌∷◌,
  if◌then◌else◌, ◌==◌, get, get-set, get_or, arith, eq_refl, is_some, Option-cases, String-cases,
  Bool-cases, any, inl, inr, All,
}
use noware.Router.Paths.{Segment, normalize_path, path_segments, pattern_of}
use noware.Router.Trie.{new_node, insert_trie, Match}
use noware.Router.Trie.Laws.{fits, AllProper, reaches, IsNamed, insert_trie-IsNamed}
use noware.Router.Trie.Insert.{insert_trie-reaches}
use noware.Router.Proper.{HasName, pattern-AllProper}
use noware.Router.Trie.Found.{any_entry, match_trie-reaches}
use noware.Router.{
  RouteEntry, RouteResult, HttpRouter, Route, new_router, get_root, entry_of, route, route_all,
  resolve_route,
}

empty_lem : (E : Type 0) (path : List String) → reaches (any_entry {E = E}) path new_node ≡ false
unfolding reaches
empty_lem E [] = refl
empty_lem E (s ∷ r) = refl

get_or_if :
    {A : Type 0} (b : Bool) (x d : A) (o : Option A)
    → get_or (if b then some x else o) d ≡ (if b then x else get_or o d)
get_or_if true x d o = refl
get_or_if false x d o = refl

module _ {C : Type 0} where
  abbrev pub pattern : Route C → List Segment
  pattern r = pattern_of (normalize_path r.path)

  -- A route of the method whose pattern the path fits.
  abbrev pub takes : String → String → Route C → Bool
  takes method pathname r =
      r.method == method && fits (pattern r) (path_segments (normalize_path pathname))

  -- Every parameter in the routes has a name.
  abbrev pub NamedRoutes : List (Route C) → Type 0
  NamedRoutes = All (λ r. All HasName (pattern r))

  abbrev ProperRoutes : List (Route C) → Type 0
  ProperRoutes = All (λ r. AllProper (pattern r))

  all-ProperRoutes : (rs : List (Route C)) → NamedRoutes rs → ProperRoutes rs
  all-ProperRoutes [] h = tt
  all-ProperRoutes (r ∷ rs) h = (pattern-AllProper r.path h.0, all-ProperRoutes rs h.1)

  finds : String → List String → HttpRouter C → Bool
  finds method path router = reaches any_entry path (get_root method router)

  NamedRoots : HttpRouter C → Type 0
  NamedRoots router = (method : String) → IsNamed (get_root method router)

  result_lem :
      (m : Match (RouteEntry C))
      → is_some (elim m as (λ _. Option (RouteResult C)) [
        | none ↦ none
        | some (e, params) ↦
            some (record { controller = e.controller; action = e.action; params = params })
      ])
        ≡ is_some m
  result_lem none = refl
  result_lem (some m) = refl

  resolves :
      (method pathname : String) (router : HttpRouter C)
      → is_some (resolve_route method pathname router)
        ≡ finds method (path_segments (normalize_path pathname)) router
  unfolding resolve_route finds get_root
  resolves method pathname router =
      let path = path_segments (normalize_path pathname) in
      elim (Option-cases (get method router.roots)) [
        | inl missing ↦ rw (resolve_route, missing) (sym (empty_lem _ path))
        | inr (root, there) ↦
            rw (resolve_route, there) (result_lem _ ∙ match_trie-reaches path root)
      ]

  pub get_root-route :
      (name_of : C → String) (r : Route C) (router : HttpRouter C) (method : String)
      → get_root method (route name_of r router) ≡ (
          if r.method == method
          then insert_trie (pattern r) (entry_of r) (get_root r.method router)
          else get_root method router)
  unfolding get_root route entry_of
  get_root-route name_of r router method =
      rw (get-set r.method method _ router.roots) (get_or_if (r.method == method) _ _ _)

  route-NamedRoots :
      (name_of : C → String) (r : Route C) (router : HttpRouter C)
      → AllProper (pattern r)
      → NamedRoots router
      → NamedRoots (route name_of r router)
  unfolding NamedRoots
  route-NamedRoots name_of r router proper named method =
      rw (get_root-route name_of r router method) (elim (Bool-cases (r.method == method)) [
        | inl own ↦ rw own (insert_trie-IsNamed (pattern r) (entry_of r) _ proper (named r.method))
        | inr other ↦ rw other (named method)
      ])

  finds-route :
      (name_of : C → String) (r : Route C) (router : HttpRouter C) (method pathname : String)
      → AllProper (pattern r)
      → NamedRoots router
      → finds method (path_segments (normalize_path pathname)) (route name_of r router)
        ≡ (takes method pathname r || finds method (path_segments (normalize_path pathname)) router)
  unfolding finds NamedRoots entry_of
  finds-route name_of r router method pathname proper named =
      let path = path_segments (normalize_path pathname) in
      rw (get_root-route name_of r router method) (elim (String-cases r.method method) [
        | inl own ↦
            rw (own, eq_refl method)
              (insert_trie-reaches any_entry (entry_of r) refl (pattern r) proper
                (get_root method router) (named method) path)
        | inr other ↦ rw other refl
      ])

  all_found :
      (name_of : C → String) (rs : List (Route C)) (router : HttpRouter C)
      (method pathname : String)
      → ProperRoutes rs
      → NamedRoots router
      → finds method (path_segments (normalize_path pathname)) (route_all name_of rs router) ≡ (
          any (takes method pathname) rs
          || finds method (path_segments (normalize_path pathname)) router)
  unfolding route_all
  all_found name_of [] router method pathname proper named = refl
  all_found name_of (r ∷ rs) router method pathname proper named =
      rw
        (
          all_found name_of rs (route name_of r router) method pathname proper.1
              (route-NamedRoots name_of r router proper.0 named),
          finds-route name_of r router method pathname proper.0 named,
        )
        (ground arith)

new-NamedRoots : (C : Type 0) → NamedRoots (new_router {C = C})
unfolding NamedRoots get_root get
new-NamedRoots C method = tt

none_found :
    (C : Type 0) (method : String) (path : List String)
    → finds method path (new_router {C = C}) ≡ false
unfolding finds get_root get
none_found C method path = empty_lem _ path

-- A router finds a route for a request exactly when one of the routes that were registered has the
-- request's method and a pattern that the path fits, where every parameter of the routes has
-- a name.
pub resolve_route-route_all :
    {C : Type 0} (name_of : C → String) (rs : List (Route C)) (method pathname : String)
    → NamedRoutes rs
    → is_some (resolve_route method pathname (route_all name_of rs new_router))
      ≡ any (takes method pathname) rs
resolve_route-route_all name_of rs method pathname named =
    resolves method pathname (route_all name_of rs new_router)
    ∙ all_found name_of rs new_router method pathname (all-ProperRoutes rs named) (new-NamedRoots _)
    ∙ rw (none_found _ method (path_segments (normalize_path pathname))) (ground arith)
