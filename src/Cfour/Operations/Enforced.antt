-- ===== src/Cfour/Operations/Enforced.antt =====
-- Claims are enforced on every operation of a batch.
use noware.Prelude.{String, Bool, true, false, ◌≡◌, refl, Option, none, some, List, get}
use noware.Exec.{throws, ◌>>=◌, throw_if, throw}
use noware.Model.{Workspace, Node, SoftwareSystem, Container, Component, CodeElement}
use noware.Model.Collab.{Claim}
use noware.Cfour.{State, Error, M}
use noware.Cfour.Workspaces.{get_workspace}
use noware.Cfour.Claims.{Guarded, element, relationship, blocker, claims_of}
use noware.Cfour.Claims.Enforcement.{Refused, assert-Refused, get_workspace-Refused}
use noware.Cfour.Mutators.{
  place, add_container, place_component, add_component, place_code_in, place_code, add_code_element,
  update_element, update_relationship,
}
use noware.Cfour.Removal.{remove_element, remove_relationship}
use noware.Cfour.Operations.{
  Operation, adds_person, adds_software_system, adds_container, adds_component, adds_code_element,
  adds_relationship, updates_element, updates_relationship, removes_element, removes_relationship,
  apply_operation,
}

-- The id that an operation needs the right to edit: the element or relationship itself, or the
-- parent of a new element.
abbrev pub target : Operation → Option (Guarded × String)
target (adds_container c kind) = some (element, c.system_id)
target (adds_component c) = some (element, c.container_id)
target (adds_code_element e kind) = some (element, e.component_id)
target (updates_element id patch) = some (element, id)
target (updates_relationship id patch) = some (relationship, id)
target (removes_element id) = some (element, id)
target (removes_relationship id) = some (relationship, id)
target _ = none

throws-Refused : (e : Error) (s : State) → Refused s (throws e, s)
throws-Refused e s = record { error = e; thrown = refl; unchanged = refl }

module _ (name editor : String) (c : Claim) where
  -- Blocked at the id, in this state.
  abbrev Blocked : Guarded → String → State → Type 0
  Blocked kind id s = blocker kind id editor (claims_of name s) ≡ some c

  place-Refused :
      (parent : String) (path : List String) (n : Node) (ws : Workspace) (s : State)
      → Blocked element parent s
      → Refused s (place parent editor name path n ws s)
  place-Refused parent path n ws s h = assert-Refused parent editor name element _ s h

  place_component-Refused :
      (d : Component) (ws : Workspace) (o : Option SoftwareSystem) (s : State)
      → Blocked element d.container_id s
      → Refused s (place_component d name editor ws o s)
  unfolding place_component throw
  place_component-Refused d ws none s h = throws-Refused _ s
  place_component-Refused d ws (some sys) s h = place-Refused _ _ _ _ s h

  place_code_in-Refused :
      (e : CodeElement) (ws : Workspace) (sys : SoftwareSystem) (o : Option Container) (s : State)
      → Blocked element e.component_id s
      → Refused s (place_code_in e name editor ws sys o s)
  unfolding place_code_in throw
  place_code_in-Refused e ws sys none s h = throws-Refused _ s
  place_code_in-Refused e ws sys (some d) s h = place-Refused _ _ _ _ s h

  place_code-Refused :
      (e : CodeElement) (ws : Workspace) (o : Option SoftwareSystem) (s : State)
      → Blocked element e.component_id s
      → Refused s (place_code e name editor ws o s)
  unfolding place_code throw
  place_code-Refused e ws none s h = throws-Refused _ s
  place_code-Refused e ws (some sys) s h = place_code_in-Refused e ws sys _ s h

  guarded-Refused :
      (b : Bool) (e : Error) (k : M Unit) (s : State)
      → Refused s (k s)
      → Refused s ((throw_if b e >>= λ _. k) s)
  unfolding ◌>>=◌
  guarded-Refused true e k s h = throws-Refused e s
  guarded-Refused false e k s h = h

  enter :
      (kind : Guarded) (id : String) (f : Workspace → M Unit) (s : State) {ws : Workspace}
      → get name s.workspaces ≡ some ws
      → Blocked kind id s
      → ((t : State) → Blocked kind id t → Refused t (f ws t))
      → Refused s ((get_workspace name >>= f) s)
  enter kind id f s found h refused =
      get_workspace-Refused name f s found (λ t same. refused t (rw same h))

  -- The target of the operation is blocked.
  abbrev pub IsBlocked : Operation → State → Type 0
  IsBlocked op s = elim (target op) [ none ↦ ⊥ | some (kind, id) ↦ Blocked kind id s ]

  -- An editor's operation on what a claim of another editor covers, in a workspace that exists,
  -- throws and changes no workspace.
  pub apply_operation-Refused :
      (op : Operation) (s : State) {ws : Workspace}
      → get name s.workspaces ≡ some ws
      → IsBlocked op s
      → Refused s (apply_operation name editor op s)
  unfolding apply_operation add_container add_component add_code_element update_element
      update_relationship remove_element remove_relationship
  apply_operation-Refused (adds_person p) s w h = absurd h
  apply_operation-Refused (adds_software_system p) s w h = absurd h
  apply_operation-Refused (adds_relationship p) s w h = absurd h
  apply_operation-Refused (adds_container d kind) s w h =
      enter element d.system_id _ s w h
        (λ t b. guarded-Refused _ _ _ t (place-Refused d.system_id _ _ _ t b))
  apply_operation-Refused (adds_component d) s w h =
      enter element d.container_id _ s w h (λ t b. place_component-Refused d _ _ t b)
  apply_operation-Refused (adds_code_element e kind) s w h =
      enter element e.component_id _ s w h (λ t b. place_code-Refused _ _ _ t b)
  apply_operation-Refused (updates_element i patch) s w h =
      enter element i _ s w h (λ t b. assert-Refused i editor name element _ t b)
  apply_operation-Refused (updates_relationship i patch) s w h =
      enter relationship i _ s w h (λ t b. assert-Refused i editor name relationship _ t b)
  apply_operation-Refused (removes_element i) s w h =
      enter element i _ s w h (λ t b. assert-Refused i editor name element _ t b)
  apply_operation-Refused (removes_relationship i) s w h =
      enter relationship i _ s w h (λ t b. assert-Refused i editor name relationship _ t b)
