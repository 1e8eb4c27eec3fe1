-- ===== src/Cfour/Merge/Applied.antt =====
-- What `applyMerge` leaves behind, whether it throws or returns.
use noware.Prelude.{String, Bool, true, false, ◌≡◌, refl, ap, none, List, [], ◌∷◌, All, get_or}
use mathlib.Core.Path.{subst}
use noware.Exec.{ok, throws, throw}
use noware.Exec.Keeps.{Keeps, Keeps-bind, Keeps-pure, Keeps-for_each}
use noware.Model.{Node, a_person, a_system, a_container, a_component, a_code, Relationship}
use noware.Model.Collab.{WorkspaceDiff, MergePlan}
use noware.Cfour.{State, Error, M, register_editor}
use noware.Cfour.Workspaces.{get_workspace}
use noware.Cfour.Batch.Rollback.{
  Tracks, get_workspace-Inside, IsSettled, RolledBack, batch-RolledBack,
}
use noware.Cfour.Batch.Flush.{Delivered, ran, batch-Delivered}
use noware.Cfour.Operations.Atomic.{
  notified-Keeps, add_person-Keeps, add_software_system-Keeps, add_container-Keeps,
  add_component-Keeps, add_code_element-Keeps, add_relationship-Keeps, update_element-Keeps,
  update_relationship-Keeps, remove_element-Keeps, remove_relationship-Keeps,
}
use noware.Cfour.Merge.{with_resolutions}
use noware.Cfour.Merge.Apply.{
  apply_node_addition, if_so, remove_found, remove_present, apply_changes, apply_checked,
  apply_merge,
}

-- `containers`, `components` and `codeElements` are not set.
abbrev pub IsChildless : Node → Type 0
IsChildless (a_system s) = s.containers ≡ none
IsChildless (a_container c) = c.components ≡ none
IsChildless (a_component c) = c.code_elements ≡ none
IsChildless _ = Unit

-- The changes that the plan applies.
abbrev pub changes_of : MergePlan → WorkspaceDiff
changes_of plan = with_resolutions plan.branch_changes (get_or plan.resolutions [])

module _ (s0 : State) (into : String) where
  addition-Keeps : (n : Node) → Keeps (Tracks s0) (apply_node_addition n into)
  unfolding apply_node_addition
  addition-Keeps (a_person p) = add_person-Keeps s0 into p
  addition-Keeps (a_system s) = add_software_system-Keeps s0 into s
  addition-Keeps (a_container c) = add_container-Keeps s0 into c _ _
  addition-Keeps (a_component c) = add_component-Keeps s0 into c _
  addition-Keeps (a_code e) = add_code_element-Keeps s0 into e _ _

  if_so-Keeps : (b : Bool) (m : M Unit) → Keeps (Tracks s0) m → Keeps (Tracks s0) (if_so b m)
  if_so-Keeps true m h = h
  if_so-Keeps false m h = Keeps-pure tt

  visit-Keeps : Keeps (Tracks s0) (get_workspace into)
  visit-Keeps = record { at = λ s t. (get_workspace-Inside into t).tracks }

  remove_found-Keeps : (n : Node) → Keeps (Tracks s0) (remove_found into n)
  unfolding remove_found
  remove_found-Keeps n =
      Keeps-bind _ _ visit-Keeps
        (λ ws. if_so-Keeps _ _ (remove_element-Keeps s0 into _ register_editor))

  remove_present-Keeps : (r : Relationship) → Keeps (Tracks s0) (remove_present into r)
  unfolding remove_present
  remove_present-Keeps r =
      Keeps-bind _ _ visit-Keeps
        (λ ws. if_so-Keeps _ _ (remove_relationship-Keeps s0 into _ register_editor))

  pub changes-Keeps :
      (plan : MergePlan) (d : WorkspaceDiff) → Keeps (Tracks s0) (apply_changes plan d into)
  unfolding apply_changes
  changes-Keeps plan d = Keeps-bind _ _ (Keeps-for_each _ _ addition-Keeps) λ _.
      Keeps-bind _ _ (Keeps-for_each _ _ (λ r. add_relationship-Keeps s0 into r _)) λ _.
        Keeps-bind _ _ (Keeps-for_each _ _ (λ m. update_element-Keeps s0 into m.id _ _)) λ _.
          Keeps-bind _ _ (Keeps-for_each _ _ (λ m. update_relationship-Keeps s0 into m.id _ _)) λ _.
            Keeps-bind _ _ (Keeps-for_each _ _ remove_found-Keeps)
              λ _. Keeps-bind _ _ (Keeps-for_each _ _ remove_present-Keeps) λ _. notified-Keeps s0 _

unmoved : (name : String) (s : State) → RolledBack name s s
unmoved name s = record { workspace = refl; depth = refl; queue = refl; log = refl; told = refl }

-- When `applyMerge` throws, for the conflicts or at any of the changes, the target workspace is as
-- before the call, and the events that are queued, those that are logged and those that the listeners
-- were told are the same as before: each with its operation, workspace, id, kind, path, changed fields
-- and time, if nothing was queued outside batches. (The elements in events are live objects, and
-- other workspaces may share relationships with the target: this says nothing of them.)
pub apply_merge-RolledBack :
    (plan : MergePlan) (into : String) (s t : State) (e : Error)
    → IsSettled s
    → apply_merge plan into s ≡ (throws e, t)
    → RolledBack into s t
unfolding apply_merge throw
apply_merge-RolledBack plan into s t e settled h = checked plan.conflicts h
  where
    checked :
        (conflicts : List String)
        → apply_checked plan into conflicts s ≡ (throws e, t)
        → RolledBack into s t
    checked [] q =
        batch-RolledBack into (apply_changes plan (changes_of plan) into) s t e settled
          (changes-Keeps s into plan (changes_of plan)) q
    checked (c ∷ cs) q = subst (RolledBack into s) (ap (λ x. x.1) q) (unmoved into s)

-- `applyMerge` of a plan whose new elements hold no children, called outside batches and returning:
-- the plan had no conflicts; while the changes ran the listeners heard nothing; then they heard
-- every event that the changes queued, once and in order; the workspaces are as the changes left
-- them.
pub apply_merge-Delivered :
    (plan : MergePlan) (into : String) (s t : State)
    → All IsChildless plan.branch_changes.nodes.added
    → s.batch_depth ≡ 0
    → apply_merge plan into s ≡ (ok tt, t)
    → (plan.conflicts ≡ []) × Delivered s (ran (apply_changes plan (changes_of plan) into) s) t
unfolding apply_merge throw
apply_merge-Delivered plan into s t childless outside h = checked plan.conflicts h
  where
    checked :
        (conflicts : List String)
        → apply_checked plan into conflicts s ≡ (ok tt, t)
        → (conflicts ≡ []) × Delivered s (ran (apply_changes plan (changes_of plan) into) s) t
    checked [] q = (
      refl,
      batch-Delivered (apply_changes plan (changes_of plan) into) s t outside
          (changes-Keeps s into plan (changes_of plan)) q,
    )
    checked (c ∷ cs) q = cc
