-- ===== src/Cfour/Merge/Order.antt =====
-- The order in which `applyMerge` adds elements.
use noware.Prelude.{
  Bool, String, ◌∙◌, ap, ℕ, true, false, ◌≡◌, refl, List, [], ◌∷◌, ◌++◌, arith, leb, ltb, nat_eq,
  All, All-append, filter,
}
use noware.Model.{Node, a_person, a_system, a_container, a_component, a_code, kind_of}
use noware.Cfour.Merge.Apply.{
  kind_depth, insert_by_depth, sort_by_depth, apply_node_addition, apply_changes,
}
use noware.Cfour.{State, Error, M}
use noware.Exec.{Result, ok, throws, continue, for_each, ◌>>=◌}
use noware.Model.Collab.{WorkspaceDiff, MergePlan}

abbrev pub depth : Node → ℕ
depth n = kind_depth (kind_of n)

-- The elements at a depth of the tree, in their order.
abbrev pub at_depth : ℕ → List Node → List Node
at_depth d = filter (λ n. nat_eq (depth n) d)

module _ (n : Node) where
  skip :
      (a b : List Node)
      → All (λ m. leb (depth n) (depth m) ≡ false) a
      → insert_by_depth n (a ++ b) ≡ a ++ insert_by_depth n b
  unfolding insert_by_depth
  skip [] b h = refl
  skip (m ∷ a) b (p, h) = rw (p, skip a b h)

  front :
      (b : List Node) → All (λ m. leb (depth n) (depth m) ≡ true) b → insert_by_depth n b ≡ n ∷ b
  unfolding insert_by_depth
  front [] h = refl
  front (m ∷ b) (p, h) = rw p

module _ (n : Node) (d : ℕ) where
  shallower :
      (l : List Node)
      → ltb d (depth n) ≡ true
      → All (λ m. leb (depth n) (depth m) ≡ false) (at_depth d l)
  shallower [] h = tt
  shallower (m ∷ l) h = ground (arith, shallower l h)

  not_shallower :
      (l : List Node)
      → leb (depth n) d ≡ true
      → All (λ m. leb (depth n) (depth m) ≡ true) (at_depth d l)
  not_shallower [] h = tt
  not_shallower (m ∷ l) h = ground (arith, not_shallower l h)

-- People and systems, then containers, components and code elements.
abbrev pub by_level : List Node → List Node
by_level l = at_depth 0 l ++ (at_depth 1 l ++ (at_depth 2 l ++ at_depth 3 l))

module _ (n : Node) (l : List Node) where
  abbrev Front : List Node → Type 0
  Front = All (λ m. leb (depth n) (depth m) ≡ true)

  from_code : leb (depth n) 3 ≡ true → Front (at_depth 3 l)
  from_code h = not_shallower n 3 l h

  from_components : leb (depth n) 2 ≡ true → Front (at_depth 2 l ++ at_depth 3 l)
  from_components h =
      All-append _ (at_depth 2 l) _ (not_shallower n 2 l h) (from_code (ground (arith, h)))

  from_containers : leb (depth n) 1 ≡ true → Front (at_depth 1 l ++ (at_depth 2 l ++ at_depth 3 l))
  from_containers h =
      All-append _ (at_depth 1 l) _ (not_shallower n 1 l h) (from_components (ground (arith, h)))

  from_top : leb (depth n) 0 ≡ true → Front (by_level l)
  from_top h =
      All-append _ (at_depth 0 l) _ (not_shallower n 0 l h) (from_containers (ground (arith, h)))

  past :
      (d : ℕ) (b : List Node)
      → ltb d (depth n) ≡ true
      → insert_by_depth n (at_depth d l ++ b) ≡ at_depth d l ++ insert_by_depth n b
  past d b h = skip n (at_depth d l) b (shallower n d l h)

insert-by_level : (n : Node) (l : List Node) → insert_by_depth n (by_level l) ≡ by_level (n ∷ l)
unfolding kind_depth kind_of
insert-by_level (a_person p) l = front _ _ (from_top (a_person p) l refl)
insert-by_level (a_system s) l = front _ _ (from_top (a_system s) l refl)
insert-by_level (a_container c) l =
    let n = a_container c in
    rw (
      past n l 0 (at_depth 1 l ++ (at_depth 2 l ++ at_depth 3 l)) refl,
      front n _ (from_containers n l refl),
    )
insert-by_level (a_component c) l =
    let n = a_component c in
    rw (
      past n l 0 (at_depth 1 l ++ (at_depth 2 l ++ at_depth 3 l)) refl,
      past n l 1 (at_depth 2 l ++ at_depth 3 l) refl,
      front n _ (from_components n l refl),
    )
insert-by_level (a_code e) l =
    let n = a_code e in
    rw (
      past n l 0 (at_depth 1 l ++ (at_depth 2 l ++ at_depth 3 l)) refl,
      past n l 1 (at_depth 2 l ++ at_depth 3 l) refl,
      past n l 2 (at_depth 3 l) refl,
      front n _ (from_code n l refl),
    )

sort_by_depth_lem : (l : List Node) → sort_by_depth l ≡ by_level l
unfolding sort_by_depth
sort_by_depth_lem [] = refl
sort_by_depth_lem (n ∷ l) = rw (sort_by_depth_lem l) (insert-by_level n l)

-- The levels of the tree, by what the elements are.
abbrev pub is_top : Node → Bool
is_top (a_person p) = true
is_top (a_system s) = true
is_top _ = false

abbrev pub is_container : Node → Bool
is_container (a_container c) = true
is_container _ = false

abbrev pub is_component : Node → Bool
is_component (a_component c) = true
is_component _ = false

abbrev pub is_code : Node → Bool
is_code (a_code e) = true
is_code _ = false

filter-same :
    (p q : Node → Bool) (l : List Node) → ((n : Node) → p n ≡ q n) → filter p l ≡ filter q l
filter-same p q [] h = refl
filter-same p q (n ∷ l) h = rw (h n, filter-same p q l h) refl

at_top : (n : Node) → nat_eq (depth n) 0 ≡ is_top n
unfolding kind_depth kind_of
at_top (a_person p) = refl
at_top (a_system s) = refl
at_top (a_container c) = refl
at_top (a_component c) = refl
at_top (a_code e) = refl

at_container : (n : Node) → nat_eq (depth n) 1 ≡ is_container n
unfolding kind_depth kind_of
at_container (a_person p) = refl
at_container (a_system s) = refl
at_container (a_container c) = refl
at_container (a_component c) = refl
at_container (a_code e) = refl

at_component : (n : Node) → nat_eq (depth n) 2 ≡ is_component n
unfolding kind_depth kind_of
at_component (a_person p) = refl
at_component (a_system s) = refl
at_component (a_container c) = refl
at_component (a_component c) = refl
at_component (a_code e) = refl

at_code : (n : Node) → nat_eq (depth n) 3 ≡ is_code n
unfolding kind_depth kind_of
at_code (a_person p) = refl
at_code (a_system s) = refl
at_code (a_container c) = refl
at_code (a_component c) = refl
at_code (a_code e) = refl

-- The elements in the order of the levels.
abbrev levels : List Node → List Node
levels l = filter is_top l ++ (filter is_container l ++ (filter is_component l ++ filter is_code l))

sort-levels : (l : List Node) → sort_by_depth l ≡ levels l
sort-levels l =
    sort_by_depth_lem l
    ∙ rw
        (
          filter-same _ _ l at_top,
          filter-same _ _ l at_container,
          filter-same _ _ l at_component,
          filter-same _ _ l at_code,
        )
        refl

-- The same action first, and then actions that do the same.
bind-same :
    (m : M Unit) (f g : Unit → M Unit) (s : State)
    → ((t : State) → f tt t ≡ g tt t)
    → (m >>= f) s ≡ (m >>= g) s
unfolding ◌>>=◌
bind-same m f g s h = after (m s)
  where
    after : (r : Result Error (Unit {0}) × State) → continue r.0 f r.1 ≡ continue r.0 g r.1
    after (ok u, t) = h t
    after (throws e, t) = refl

module _ (f : Node → M Unit) where
  for_each-append :
      (a b : List Node) (k : Unit → M Unit) (s : State)
      → (for_each (a ++ b) f >>= k) s ≡ (for_each a f >>= λ _. for_each b f >>= k) s
  unfolding for_each ◌>>=◌
  for_each-append [] b k s = refl
  for_each-append (n ∷ a) b k s = step (f n s) refl (λ t. for_each-append a b k t)
    where
      step :
          (r : Result Error (Unit {0}) × State)
          → f n s ≡ r
          → ((t : State)
              → (for_each (a ++ b) f >>= k) t ≡ (for_each a f >>= λ _. for_each b f >>= k) t)
          → (for_each (n ∷ (a ++ b)) f >>= k) s ≡ (for_each (n ∷ a) f >>= λ _. for_each b f >>= k) s
      step (ok u, t) e rest = rw e (rest t)
      step (throws x, t) e rest = rw e refl

  -- One level after the other.
  for_each-levels :
      (l : List Node) (k : Unit → M Unit) (s : State)
      → (for_each (sort_by_depth l) f >>= k) s
        ≡ (for_each (filter is_top l) f >>= λ _. for_each (filter is_container l) f >>= λ _.
              for_each (filter is_component l) f >>= λ _. for_each (filter is_code l) f >>= k)
            s
  for_each-levels l k s =
      let a = filter is_top l in
      let b = filter is_container l in
      let c = filter is_component l in
      let d = filter is_code l in
      ap (λ x. (for_each x f >>= k) s) (sort-levels l)
      ∙ for_each-append a (b ++ (c ++ d)) k s
      ∙ bind-same (for_each a f) _ _ s (λ t.
        for_each-append b (c ++ d) k t
        ∙ bind-same (for_each b f) _ _ t (λ u. for_each-append c d k u))

-- The merge without the elements that it adds.
abbrev pub no_additions : WorkspaceDiff → WorkspaceDiff
no_additions d = record d { nodes = record d.nodes { added = [] } }

-- The changes of a merge add the elements level by level, whatever the order of the plan: first all
-- people and systems, then the containers, then the components, then the code elements, so a parent
-- before its children, and within each level as in the plan; the other changes come after them.
pub apply_changes-levels :
    (plan : MergePlan) (d : WorkspaceDiff) (into : String) (s : State)
    → let add = λ (n : Node). apply_node_addition n into in
      apply_changes plan d into s
      ≡ (for_each (filter is_top d.nodes.added) add >>= λ _.
            for_each (filter is_container d.nodes.added) add >>= λ _.
            for_each (filter is_component d.nodes.added) add >>= λ _.
            for_each (filter is_code d.nodes.added) add >>= λ _.
            apply_changes plan (no_additions d) into)
          s
unfolding apply_changes ◌>>=◌ for_each
apply_changes-levels plan d into s =
    for_each-levels (λ n. apply_node_addition n into) d.nodes.added _ s
