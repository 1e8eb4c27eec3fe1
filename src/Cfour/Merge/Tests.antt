-- ===== src/Cfour/Merge/Tests.antt =====
-- A merge of a branch that grew, at a small model.
use noware.Prelude.{
  filter, String, true, ◌≡◌, ◌↔◌, ◌&&◌, refl, none, some, from_list, List, [], ◌∷◌, map, is_some,
  get, mem, All,
}
use noware.Exec.{ok}
use noware.Exec.{for_each, ◌>>=◌}
use noware.Model.{Node, SoftwareSystem, Container, a_system, a_container}
use noware.Model.Tree.{find_node_with_ancestry}
use noware.Model.Patch.{push_container}
use noware.Model.Sample.{named, shop, api, uses}
use noware.Cfour.{initial, element_claimed}
use noware.Cfour.Events.{notify}
use noware.Cfour.Batch.{capture, batch}
use noware.Cfour.Batch.Rollback.{RolledBack}
use noware.Cfour.Batch.Flush.{Delivered, ran}
use noware.Cfour.Workspaces.{get_workspace, put_workspace}
use noware.Cfour.Claims.{
  claims_for, blocker, guards, assert_claim_allows, absorb_created_element, get_claim_for, covers,
  put_claims,
}
use noware.Cfour.Mutators.{
  add_software_system, add_container, add_relationship, relationship_refusal,
}
use noware.Cfour.Merge.Apply.{apply_merge, apply_changes, apply_node_addition}
use noware.Cfour.Merge.Applied.{apply_merge-RolledBack, apply_merge-Delivered, changes_of}
use noware.Cfour.Merge.Order.{
  is_top, is_container, is_component, is_code, no_additions, apply_changes-levels,
}
use noware.Model.Collab.{
  DiffResult, WorkspaceDiff, MergePlan, MergeResolution, BranchBase, target_side,
}
use noware.Model.Diff.{diff_workspaces}
use noware.Model.Sample.{model, wired, grown}
use noware.Cfour.{State}
use noware.Cfour.Sample.{start}
use noware.Cfour.Claims.{claims_of, holder_in}
use noware.Cfour.Merge.{touched_ids, plan_merge, resolve_merge, resolved_ids, with_resolutions}
use noware.Cfour.Merge.Plan.{plan_merge_lem}
use noware.Cfour.Merge.Resolve.{resolve_merge_lem}

abbrev base : BranchBase
base = record { parent = "model"; base_snapshot = model }

abbrev branched : State
branched = record start {
  workspaces = ("model", wired) ∷ ("draft", grown) ∷ [];
  branch_base = ("draft", base) ∷ [];
}

plan_merge_lem_example :
    (plan : MergePlan) × ((plan_merge "draft" "model" branched).0 ≡ ok plan)
    × (plan.branch_changes ≡ diff_workspaces model grown)
    × (plan.target_changes ≡ diff_workspaces model wired)
    × ((k : String)
        → (mem k plan.conflicts
            ≡ (mem k (touched_ids plan.branch_changes) && mem k (touched_ids plan.target_changes)))
          × (mem k (map (λ b. b.element_id) plan.claim_blockers) ≡ (
              mem k (touched_ids plan.branch_changes)
              && is_some (holder_in k (claims_of "model" branched)))))
unfolding get
plan_merge_lem_example = plan_merge_lem "draft" "model" branched base grown wired refl refl refl

abbrev plan : MergePlan
plan = record {
  branch = "draft";
  into = "model";
  branch_changes = diff_workspaces model grown;
  target_changes = diff_workspaces model wired;
  conflicts = "uses" ∷ [];
  claim_blockers = [];
  resolutions = none;
}

abbrev choices : List MergeResolution
choices = record { id = "uses"; take = target_side } ∷ []

resolve_merge_lem_example : ((q : MergePlan) × (resolve_merge plan choices ≡ ok q)) ↔ (
    All (λ id. mem id (resolved_ids choices) ≡ true) plan.conflicts
    × All (λ id. mem id plan.conflicts ≡ true) (resolved_ids choices))
resolve_merge_lem_example = resolve_merge_lem plan choices

-- A plan that adds a relationship at an element that bob's claim covers: the merge's own identity
-- may not.
abbrev no_changes : {T : Type 0} → DiffResult T
no_changes = record { added = []; removed = []; modified = [] }

abbrev of_changes : WorkspaceDiff → MergePlan
of_changes d = record plan { branch_changes = d; conflicts = [] }

abbrev crm : SoftwareSystem
crm = record shop { element = named "crm"; containers = none }

abbrev refused : MergePlan
refused = of_changes (record {
  nodes = record no_changes { added = a_system crm ∷ [] };
  relationships = record no_changes {
    added = record uses { id = "r9"; source_id = "api"; destination_id = "crm" } ∷ [];
  };
})

mutators : Unit {0}
unfolding apply_merge batch for_each ◌>>=◌ get_workspace put_workspace capture notify claims_for
    claims_of blocker find_node_with_ancestry assert_claim_allows initial mem add_software_system
    add_container add_relationship with_resolutions push_container guards absorb_created_element
    from_list get_claim_for relationship_refusal covers put_claims
mutators = tt

apply_merge-RolledBack_example : RolledBack "model" start (apply_merge refused "model" start).1
unfolding mutators
apply_merge-RolledBack_example =
    apply_merge-RolledBack refused "model" start (apply_merge refused "model" start).1
      (element_claimed "api" "bob" "model") (λ h. refl) refl

-- A new system and its container, each without children.
abbrev web : Container
web = record api { element = named "web"; system_id = "crm" }

abbrev accepted : MergePlan
accepted = of_changes (record {
  nodes = record no_changes { added = a_container web ∷ a_system crm ∷ [] };
  relationships = no_changes;
})

abbrev merged : MergePlan → State
merged p = (apply_merge p "model" start).1

apply_merge-Delivered_example :
    (accepted.conflicts ≡ [])
    × Delivered start
        (ran (apply_changes accepted (changes_of accepted) "model") start)
        (merged accepted)
unfolding mutators
apply_merge-Delivered_example =
    apply_merge-Delivered accepted "model" start (merged accepted) (refl, (refl, tt)) refl refl

abbrev systems_of : State → List SoftwareSystem
systems_of s = elim (get "model" s.workspaces) [ none ↦ [] | some ws ↦ ws.software_systems ]

-- The container is added to the system, although the plan names it first.
adds_in_order :
    map (λ (s : SoftwareSystem). s.containers) (systems_of (merged accepted))
    ≡ some (api ∷ []) ∷ some (web ∷ []) ∷ []
unfolding mutators
adds_in_order = refl

-- The plan of a branch on which the container was added to the new system: the system comes with
-- its container, which is then added once more.
abbrev nested : MergePlan
nested = of_changes (record {
  nodes = record no_changes {
    added = a_system (record crm { containers = some (web ∷ []) }) ∷ a_container web ∷ [];
  };
  relationships = no_changes;
})

adds_twice :
    map (λ (s : SoftwareSystem). s.containers) (systems_of (merged nested))
    ≡ some (api ∷ []) ∷ some (web ∷ web ∷ []) ∷ []
unfolding mutators
adds_twice = refl

apply_changes-levels_example :
    let added = accepted.branch_changes.nodes.added in
    let add = λ (n : Node). apply_node_addition n "model" in
    apply_changes accepted accepted.branch_changes "model" start
    ≡ (for_each (filter is_top added) add >>= λ _. for_each (filter is_container added) add >>= λ _.
          for_each (filter is_component added) add >>= λ _.
          for_each (filter is_code added) add >>= λ _.
          apply_changes accepted (no_additions accepted.branch_changes) "model")
        start
apply_changes-levels_example = apply_changes-levels accepted accepted.branch_changes "model" start
