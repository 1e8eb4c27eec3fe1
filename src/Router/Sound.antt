-- ===== src/Router/Sound.antt =====
-- What the router finds is a route that was registered.
use noware.Prelude.{
  String, Bool, true, false, ◌≡◌, refl, sym, ap, ◌⊎◌, inl, inr, Option, none, some, List, [], ◌∷◌,
  if◌then◌else◌, ◌==◌, get, get_or, arith, eq_iff, eq_refl, map, Option-cases, String-cases, All,
}
use mathlib.Core.Path.{subst}
use noware.Router.Paths.{Segment, literal, param, wildcard, normalize_path, path_segments}
use noware.Router.Trie.{new_node, key_of, insert_trie, Match}
use noware.Router.Trie.Laws.{fits, AllProper}
use noware.Router.Trie.Stored.{Walks, Stored, insert_trie-Stored, FoundAt, match_trie-FoundAt}
use noware.Router.Proper.{HasName, pattern-AllProper}
use noware.Router.Table.{pattern, takes, NamedRoutes, get_root-route}
use noware.Router.{
  RouteEntry, RouteResult, HttpRouter, Route, new_router, get_root, entry_of, route, route_all,
  resolve_route,
}

is_nil : List String → Bool
is_nil [] = true
is_nil (k ∷ ks) = false

-- The keys of a proper pattern lead along the paths that fit it.
Walks-fits :
    (ps : List Segment) (path : List String)
    → AllProper ps
    → Walks (map key_of ps) path
    → fits ps path ≡ true
unfolding key_of fits is_nil
Walks-fits [] [] h w = refl
Walks-fits [] (s ∷ r) h w = elim w [ ]
Walks-fits (literal t ∷ ps) [] h w = elim w [ ]
Walks-fits (param n ∷ ps) [] h w = elim w [ ]
Walks-fits (wildcard n ∷ []) [] h w = elim w [ ]
Walks-fits (wildcard n ∷ q ∷ qs) [] h w = elim w [ ]
Walks-fits (literal t ∷ ps) (s ∷ r) h (inl (star, nil)) = ground (arith, h.0.1, star, eq_iff t "*")
Walks-fits (literal t ∷ ps) (s ∷ r) h (inr (inl own, w)) =
    ground (arith, own, eq_iff t s, Walks-fits ps r h.1 w)
Walks-fits (literal t ∷ ps) (s ∷ r) h (inr (inr colon, w)) =
    ground (arith, h.0.0, colon, eq_iff t ":")
Walks-fits (param n ∷ ps) (s ∷ r) h (inl (star, nil)) = ground (arith, star, eq_iff ":" "*")
Walks-fits (param n ∷ ps) (s ∷ r) h (inr (key, w)) = Walks-fits ps r h.1 w
Walks-fits (wildcard n ∷ []) (s ∷ r) h w = refl
Walks-fits (wildcard n ∷ q ∷ qs) (s ∷ r) h (inl (star, nil)) = ground (arith, ap is_nil nil)
Walks-fits (wildcard n ∷ q ∷ qs) (s ∷ r) h (inr (inl own, w)) =
    ground (arith, own, eq_iff "*" s, Walks-fits (q ∷ qs) r h.1 w)
Walks-fits (wildcard n ∷ q ∷ qs) (s ∷ r) h (inr (inr colon, w)) =
    ground (arith, colon, eq_iff "*" ":")

module _ {C : Type 0} where
  abbrev pub Member : Route C → List (Route C) → Type 0
  Member r [] = ⊥
  Member r (x ∷ xs) = (r ≡ x) ⊎ Member r xs

  -- A route of the list that an entry was made from stands at the keys.
  abbrev From : (Route C → Type 0) → String → List String → RouteEntry C → Type 0
  From In method ks e =
      (r : Route C) × In r × (r.method ≡ method) × (entry_of r ≡ e) × (map key_of (pattern r) ≡ ks)

  StoredRoots : (Route C → Type 0) → HttpRouter C → Type 0
  StoredRoots In router = (method : String) → Stored (From In method) (get_root method router)

  route-StoredRoots :
      (name_of : C → String) (In : Route C → Type 0) (r : Route C) (router : HttpRouter C)
      → In r
      → StoredRoots In router
      → StoredRoots In (route name_of r router)
  unfolding StoredRoots
  route-StoredRoots name_of In r router known h method =
      rw (get_root-route name_of r router method) (elim (String-cases r.method method) [
        | inl own ↦
            subst
              (λ m. Stored (From In m) (
                if r.method == m
                then insert_trie (pattern r) (entry_of r) (get_root r.method router)
                else get_root m router))
              own
              (rw (eq_refl r.method) (
                insert_trie-Stored (From In r.method) (pattern r) (entry_of r) _
                  (r, known, refl, refl, refl) (h r.method)))
        | inr other ↦ rw other (h method)
      ])

  route_all-StoredRoots :
      (name_of : C → String) (In : Route C → Type 0) (rs : List (Route C)) (router : HttpRouter C)
      → All In rs
      → StoredRoots In router
      → StoredRoots In (route_all name_of rs router)
  unfolding route_all
  route_all-StoredRoots name_of In [] router known h = h
  route_all-StoredRoots name_of In (r ∷ rs) router known h =
      route_all-StoredRoots name_of In rs (route name_of r router) known.1
        (route-StoredRoots name_of In r router known.0 h)

  all_Member :
      (rs all : List (Route C))
      → ((r : Route C) → Member r rs → Member r all)
      → All (λ r. Member r all) rs
  all_Member [] all h = tt
  all_Member (r ∷ rs) all h = (h r (inl refl), all_Member rs all (λ x m. h x (inr m)))

  Member-name :
      (rs : List (Route C)) (r : Route C) → NamedRoutes rs → Member r rs → All HasName (pattern r)
  Member-name [] r h m = elim m [ ]
  Member-name (x ∷ rs) r h (inl same) = subst (λ y. All HasName (pattern y)) (sym same) h.0
  Member-name (x ∷ rs) r h (inr later) = Member-name rs r h.1 later

  -- The answer of a registered route that takes the request.
  abbrev pub Answers : String → String → List (Route C) → Option (RouteResult C) → Type 0
  Answers method pathname rs none = Unit
  Answers method pathname rs (some result) =
      (r : Route C) × Member r rs
      × (takes method pathname r ≡ true)
      × (r.controller ≡ result.controller)
      × (r.action ≡ result.action)

  taken :
      (method pathname : String) (r : Route C)
      → r.method ≡ method
      → fits (pattern r) (path_segments (normalize_path pathname)) ≡ true
      → takes method pathname r ≡ true
  taken method pathname r own h = rw (own, eq_refl method, h) refl

  answered :
      (method pathname : String) (rs : List (Route C)) (m : Match (RouteEntry C))
      → NamedRoutes rs
      → FoundAt (From (λ r. Member r rs) method) (path_segments (normalize_path pathname)) m
      → Answers method pathname rs (elim m as (λ _. Option (RouteResult C)) [
        | none ↦ none
        | some (e, params) ↦
            some (record { controller = e.controller; action = e.action; params = params })
      ])
  unfolding entry_of
  answered method pathname rs none named h = tt
  answered method pathname rs (some (e, params)) named (ks, walks, (r, known, own, same, keys)) =
      let path = path_segments (normalize_path pathname) in
      (
        r,
        known,
        taken method pathname r own (
            Walks-fits (pattern r) path (pattern-AllProper r.path (Member-name rs r named known))
              (subst (λ k. Walks k path) (sym keys) walks)),
        ap (λ x. x.controller) same,
        ap (λ x. x.action) same,
      )

new-StoredRoots : (C : Type 0) (In : Route C → Type 0) → StoredRoots In (new_router {C = C})
unfolding StoredRoots get_root get
new-StoredRoots C In method = tt

-- What a router answers is the controller and the action of a route that was registered with the
-- request's method and a pattern that the path fits, where every parameter of the routes has a name.
pub resolve_route-Answers :
    {C : Type 0} (name_of : C → String) (rs : List (Route C)) (method pathname : String)
    → NamedRoutes rs
    → Answers method pathname rs (resolve_route method pathname (route_all name_of rs new_router))
unfolding StoredRoots resolve_route get_root
resolve_route-Answers name_of rs method pathname named =
    let router = route_all name_of rs new_router in
    let stored =
      route_all-StoredRoots name_of (λ r. Member r rs) rs new_router (all_Member rs rs (λ r m. m))
        (new-StoredRoots _ _) method in
    elim (Option-cases (get method router.roots)) [
      | inl missing ↦ rw (resolve_route, missing) tt
      | inr (root, there) ↦
          rw (resolve_route, there)
            (answered method pathname rs _ named (
              match_trie-FoundAt (path_segments (normalize_path pathname))
                (From (λ r. Member r rs) method) root
                (subst (Stored (From (λ r. Member r rs) method)) (ap (λ o. get_or o new_node) there)
                  stored)))
    ]
