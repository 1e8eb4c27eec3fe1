-- ===== src/WorkspaceDo/Hydrate/Removed.antt =====
-- What a cold start gives back of the claims after a removal.
use noware.Prelude.{
  suc, length, ◌≤◌, any, ◌&&◌, String, true, false, ◌≡◌, refl, List, [], ◌∷◌, arith, map, mem,
  mem-include, mem-nil, update_first, All, All-filter, ◌==◌, eq_iff, Bool-cases, inl, inr,
}
use noware.Exec.{ok, ◌>>=◌}
use noware.Model.Collab.{Claim}
use noware.Cfour.{Event, Op}
use noware.WorkspaceDo.{Store, ClaimRow, Junction}
use noware.WorkspaceDo.Sql.{delete_where}
use noware.WorkspaceDo.Persist.{
  persist, persist_op, persist_remove, remove_ids, removed_node_ids, removed_rel_ids,
}
use noware.WorkspaceDo.Hydrate.{
  add_members, add_element, add_relationship_id, joined, stored_claims, in_workspace, bare_claim,
}
use noware.WorkspaceDo.Hydrate.Granted.{append_event-SameClaims}

module _ (P : Claim → Type 0) (Q : String → Type 0) (add : String → Claim → Claim)
    (kept : (m : String) (c : Claim) → Q m → P c → P (add m c)) where
  update-All :
      (k m : String) (cs : List Claim)
      → Q m
      → All P cs
      → All P (update_first (λ c. c.id == k) (add m) cs)
  update-All k m [] q h = tt
  update-All k m (c ∷ cs) q (p, h) = elim (Bool-cases (c.id == k)) [
    | inl e ↦ rw e (kept m c q p, h)
    | inr e ↦ rw e (p, update-All k m cs q h)
  ]

  add_members-All :
      (js : List Junction) (cs : List Claim)
      → All (λ j. Q j.member) js
      → All P cs
      → All P (add_members add js cs)
  unfolding add_members
  add_members-All [] cs q h = h
  add_members-All (j ∷ js) cs (p, q) h = add_members-All js _ q (update-All j.owner j.member cs p h)

-- The element, and the relationship, that are not among those of the claim.
abbrev pub Spares : String → Claim → Type 0
Spares id c = mem id c.element_ids ≡ false

abbrev pub SparesLink : String → Claim → Type 0
SparesLink id c = mem id c.relationship_ids ≡ false

add_element-Spares :
    (id m : String) (c : Claim) → (m == id) ≡ false → Spares id c → Spares id (add_element m c)
add_element-Spares id m c q h = ground (arith, q, h, mem-include id m c.element_ids)

add_relationship-SparesLink :
    (id m : String) (c : Claim)
    → (m == id) ≡ false
    → SparesLink id c
    → SparesLink id (add_relationship_id m c)
add_relationship-SparesLink id m c q h = ground (arith, q, h, mem-include id m c.relationship_ids)

any_member : (js : List Junction) → All (λ j. Unit {0}) js
any_member [] = tt
any_member (j ∷ js) = (tt, any_member js)

bare-Spares :
    (id name : String) (rows : List ClaimRow) → All (Spares id) (map (bare_claim name) rows)
bare-Spares id name [] = tt
bare-Spares id name (r ∷ rs) = (mem-nil id, bare-Spares id name rs)

bare-SparesLink :
    (id name : String) (rows : List ClaimRow) → All (SparesLink id) (map (bare_claim name) rows)
bare-SparesLink id name [] = tt
bare-SparesLink id name (r ∷ rs) = (mem-nil id, bare-SparesLink id name rs)

-- No row has the id.
abbrev Without : String → List Junction → Type 0
Without id = All (λ j. (j.member == id) ≡ false)

deleted :
    (id : String) (ids : List String) (js : List Junction)
    → mem id ids ≡ true
    → Without id (delete_where (λ j. mem j.member ids) js)
unfolding delete_where
deleted id ids [] h = tt
deleted id ids (j ∷ js) h = ground (arith, deleted id ids js h, h, eq_iff j.member id)

stored_claims-Spares :
    (id name : String) (d : Store)
    → Without id d.claim_elements
    → All (Spares id) (stored_claims name d)
unfolding stored_claims joined
stored_claims-Spares id name d h =
    let linked = joined name d.claims d.claim_relationships in
    let held = joined name d.claims d.claim_elements in
    let was = map (bare_claim name) (in_workspace name d.claims) in
    add_members-All (Spares id) (λ m. Unit {0}) add_relationship_id (λ m c q p. p) linked
      (add_members add_element held was) (any_member linked)
      (add_members-All (Spares id) (λ m. (m == id) ≡ false) add_element (add_element-Spares id) held
        was
        (All-filter _ (λ j. any (λ c. c.id == j.owner && c.workspace_name == name) d.claims)
          d.claim_elements h)
        (bare-Spares id name (in_workspace name d.claims)))

stored_claims-SparesLink :
    (id name : String) (d : Store)
    → Without id d.claim_relationships
    → All (SparesLink id) (stored_claims name d)
unfolding stored_claims joined
stored_claims-SparesLink id name d h =
    let linked = joined name d.claims d.claim_relationships in
    let held = joined name d.claims d.claim_elements in
    let was = map (bare_claim name) (in_workspace name d.claims) in
    add_members-All (SparesLink id) (λ m. (m == id) ≡ false) add_relationship_id
      (add_relationship-SparesLink id) linked (add_members add_element held was)
      (All-filter _ (λ j. any (λ c. c.id == j.owner && c.workspace_name == name) d.claims)
        d.claim_relationships h)
      (add_members-All (SparesLink id) (λ m. Unit {0}) add_element (λ m c q p. p) held was
        (any_member held) (bare-SparesLink id name (in_workspace name d.claims)))

-- What the deletions leave in the tables of the claims.
record Rid (node_ids rel_ids : List String) (t : Store) : Type 0 where
  elements : (id : String) → mem id node_ids ≡ true → Without id t.claim_elements
  links : (id : String) → mem id rel_ids ≡ true → Without id t.claim_relationships

none_listed : {A : Type 0} (id : String) → mem id [] ≡ true → A
none_listed id h = absurd (ground (arith, h, mem-nil id))

-- The statements bind no more values than the platform allows.
abbrev pub Fits : List String → Store → Type 0
Fits ids s = suc (length ids) ≤ s.max_parameters

abbrev less_nodes : String → List String → Store → Store
less_nodes name ids s = record s {
  nodes = delete_where (λ r. r.workspace_name == name && mem r.id ids) s.nodes;
  claim_elements = delete_where (λ j. mem j.member ids) s.claim_elements;
}

abbrev less_relationships : String → List String → Store → Store
less_relationships name ids s = record s {
  relationships = delete_where (λ r. r.workspace_name == name && mem r.id ids) s.relationships;
  claim_relationships = delete_where (λ j. mem j.member ids) s.claim_relationships;
}

remove_ids-Rid :
    (name : String) (node_ids rel_ids : List String) (s : Store)
    → Fits node_ids s
    → Fits rel_ids s
    → (t : Store) × (remove_ids name node_ids rel_ids s ≡ (ok tt, t)) × Rid node_ids rel_ids t
unfolding remove_ids ◌>>=◌
remove_ids-Rid name [] [] s h k =
    (_, refl, record { elements = λ id. none_listed id; links = λ id. none_listed id })
remove_ids-Rid name (n ∷ ns) [] s h k = (
  less_nodes name (n ∷ ns) s,
  ground (arith, h),
  record {
    elements = λ id e. deleted id (n ∷ ns) s.claim_elements e;
    links = λ id. none_listed id;
  },
)
remove_ids-Rid name [] (r ∷ rs) s h k = (
  less_relationships name (r ∷ rs) s,
  ground (arith, k),
  record {
    elements = λ id. none_listed id;
    links = λ id e. deleted id (r ∷ rs) s.claim_relationships e;
  },
)
remove_ids-Rid name (n ∷ ns) (r ∷ rs) s h k = (
  less_relationships name (r ∷ rs) (less_nodes name (n ∷ ns) s),
  ground (arith, h, k),
  record {
    elements = λ id e. deleted id (n ∷ ns) s.claim_elements e;
    links = λ id e. deleted id (r ∷ rs) s.claim_relationships e;
  },
)

-- The event of a removal, whose ids are fewer than the values that a statement may bind, is persisted
-- without an error, and then a cold start gives back no claim that has a removed element among its
-- elements or a removed relationship among its relationships: neither in the workspace of the event
-- nor in any other workspace, where they may still be.
pub persist-Spares :
    (e : Event) (d : Store)
    → Fits (removed_node_ids e) d
    → Fits (removed_rel_ids e) d
    → (t : Store) × (persist (record e { op = Op.remove }) d ≡ (ok tt, t))
      × ((name id : String)
          → mem id (removed_node_ids e) ≡ true
          → All (Spares id) (stored_claims name t))
      × ((name id : String)
          → mem id (removed_rel_ids e) ≡ true
          → All (SparesLink id) (stored_claims name t))
unfolding persist persist_op persist_remove removed_node_ids removed_rel_ids ◌>>=◌
persist-Spares e d nodes_fit rels_fit =
    let event : Event = record e { op = Op.remove } in
    let (logged, appended, same) = append_event-SameClaims event d in
    let (t, removed, rid) =
      remove_ids-Rid e.workspace_name (removed_node_ids e) (removed_rel_ids e) logged
        (rw same.limit nodes_fit) (rw same.limit rels_fit) in
    (
      t,
      rw appended removed,
      λ name id h. stored_claims-Spares id name t (rid.elements id h),
      λ name id h. stored_claims-SparesLink id name t (rid.links id h),
    )
