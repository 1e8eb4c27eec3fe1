-- ===== src/Cfour/Mutators/Linking.antt =====
-- Who may add a relationship, and what `addRelationship` leaves.
use noware.Prelude.{
  All, Bool-cases, inl, inr, true, false, ◌==◌, String, ◌≡◌, ◌↔◌, refl, ap, ◌∙◌, Option, none, some,
  [], ◌∷◌, ◌++◌, arith, eq_iff, eq_refl, get, get-set,
}
use noware.Exec.{ok, ◌>>=◌, pure, throw, modify}
use noware.Model.{Workspace, Relationship}
use noware.Model.Collab.{Claim}
use noware.Cfour.{State, Event, Error, M}
use noware.Cfour.Events.{notify, deliver, log_event}
use noware.Cfour.Batch.{capture}
use noware.Cfour.Workspaces.{get_workspace, put_workspace}
use noware.Cfour.Claims.Exclusive.{IsFree, IsExclusive}
use noware.Cfour.Claims.{Claims, covers, claims_of, holder_in, get_claim_for}
use noware.Cfour.Claims.Enforcement.{
  with_claims, with_claims-workspaces, bind-ok, get_claim_for_lem,
}
use noware.Cfour.Claims.Expiry.{with_claims-claims_of}
use noware.Cfour.Mutators.{
  add_relationship_raw, editor_of, relationship_refusal, throw_some, add_relationship,
}

abbrev pub with_relationship : Relationship → Workspace → Workspace
with_relationship rel ws = record ws { relationships = ws.relationships ++ rel ∷ [] }

-- What `_addRelationshipRaw` leaves.
pub record Related (name : String) (rel : Relationship) (ws : Workspace) (s t : State)
    : Type 0 where
  pub there : get name t.workspaces ≡ some (with_relationship rel ws)
  pub same : t.proposals ≡ s.proposals

related :
    (name : String) (rel : Relationship) (ws : Workspace) (e : Event) (s : State)
    → Related name rel ws s
        (notify e (put_workspace name (with_relationship rel ws) (capture name (some ws) s)))
unfolding notify deliver log_event put_workspace capture
related name rel ws e s = record {
  there = ground (arith, get-set name name (with_relationship rel ws) s.workspaces, eq_refl name);
  same = ground arith;
}

pub add_relationship_raw_lem :
    (rel : Relationship) (name : String) (s : State) (ws : Workspace)
    → get name s.workspaces ≡ some ws
    → ((add_relationship_raw rel name s).0 ≡ ok tt)
      × Related name rel ws s (add_relationship_raw rel name s).1
unfolding add_relationship_raw ◌>>=◌ get_workspace modify
add_relationship_raw_lem rel name s ws h = rw (h, get_workspace) (refl, related name rel ws _ s)

-- No claim with an editor, or the editor's own.
abbrev MayLink : String → Option String → Type 0
MayLink editor none = Unit
MayLink editor (some e) = e ≡ editor

refusal-none_iff :
    (rel : Relationship) (name editor : String) (a b : Option String)
    → (relationship_refusal rel name editor a b ≡ none) ↔ (MayLink editor a × MayLink editor b)
unfolding relationship_refusal
refusal-none_iff rel name editor none none = (λ _. (tt, tt), λ _. refl)
refusal-none_iff rel name editor (some a) none = ground (arith, eq_iff a editor)
refusal-none_iff rel name editor none (some b) = ground (arith, eq_iff b editor)
refusal-none_iff rel name editor (some a) (some b) =
    ground (arith, eq_iff a editor, eq_iff a b, eq_iff b editor)

guarded-ok_iff :
    (o : Option Error) (rel : Relationship) (name : String) (s : State) (ws : Workspace)
    → get name s.workspaces ≡ some ws
    → (((throw_some o >>= λ _. add_relationship_raw rel name) s).0 ≡ ok tt) ↔ (o ≡ none)
unfolding ◌>>=◌ pure throw
guarded-ok_iff none rel name s ws h = (λ _. refl, λ _. (add_relationship_raw_lem rel name s ws h).0)
guarded-ok_iff (some e) rel name s ws h = (λ x. cc, λ x. cc)

-- The editor of the first claim that covers the id, unless that is the empty text.
abbrev holder : String → String → State → Option String
holder id name s = editor_of (holder_in id (claims_of name s))

-- Every claim that covers the id is the editor's.
abbrev pub IsOpenTo : String → String → Claims → Type 0
IsOpenTo editor id = All (λ e. covers id e.1 ≡ true → e.1.editor_id ≡ editor)

-- No claim has the empty text for an editor.
abbrev pub HasEditors : Claims → Type 0
HasEditors = All (λ e. (e.1.editor_id == "") ≡ false)

module _ (id editor : String) where
  free-IsOpenTo : (claims : Claims) → IsFree claims id → IsOpenTo editor id claims
  free-IsOpenTo [] free = tt
  free-IsOpenTo ((k, c) ∷ claims) free = elim (Bool-cases (covers id c)) [
    | inl e ↦ absurd (ground (arith, free, e))
    | inr e ↦ ((λ h. absurd (ground (arith, h, e))), free-IsOpenTo claims (ground (arith, free, e)))
  ]

  MayLink-IsOpenTo :
      (claims : Claims)
      → IsExclusive claims
      → HasEditors claims
      → MayLink editor (editor_of (holder_in id claims)) ↔ IsOpenTo editor id claims
  MayLink-IsOpenTo [] apart named = (λ _. tt, λ _. tt)
  MayLink-IsOpenTo ((k, c) ∷ claims) apart named = elim (Bool-cases (covers id c)) [
    | inl e ↦
        rw (e, named.0) (λ own. ((λ _. own), free-IsOpenTo claims (apart.0 id e)), λ h. h.0 refl)
    | inr e ↦
        let rest = MayLink-IsOpenTo claims apart.1 named.1 in
        rw e (λ own. ((λ x. absurd cc), rest.0 own), λ h. rest.1 h.1)
  ]

-- The rest of `addRelationship` after the two lookups.
link : Relationship → String → String → Option Claim → Option Claim → M Unit
link rel name editor source destination =
    throw_some (relationship_refusal rel name editor (editor_of source) (editor_of destination))
    >>= λ _. add_relationship_raw rel name

-- `addRelationship` in a workspace that exists, where no id is covered by two claims and no claim has
-- the empty text for an editor, returns exactly when every claim that covers an end is the editor's.
pub add_relationship_lem :
    (rel : Relationship) (name editor : String) (s : State) (ws : Workspace)
    → get name s.workspaces ≡ some ws
    → IsExclusive (claims_of name s)
    → HasEditors (claims_of name s)
    → ((add_relationship rel name editor s).0 ≡ ok tt) ↔ (
        IsOpenTo editor rel.source_id (claims_of name s)
        × IsOpenTo editor rel.destination_id (claims_of name s))
unfolding add_relationship link
add_relationship_lem rel name editor s ws h apart named =
    let u = with_claims name s in
    let v = with_claims name u in
    let source = holder_in rel.source_id (claims_of name s) in
    let destination = holder_in rel.destination_id (claims_of name s) in
    let run : add_relationship rel name editor s ≡ link rel name editor source destination v =
      bind-ok (get_claim_for rel.source_id name) _ source s u
        (get_claim_for_lem rel.source_id name s)
      ∙ bind-ok (get_claim_for rel.destination_id name) _ destination u v (
          get_claim_for_lem rel.destination_id name u
          ∙ ap (λ c. (ok (holder_in rel.destination_id c), v)) (with_claims-claims_of name s)) in
    let refusal = relationship_refusal rel name editor (editor_of source) (editor_of destination) in
    let passes =
      guarded-ok_iff refusal rel name v ws
        (ap (get name) (with_claims-workspaces name u ∙ with_claims-workspaces name s) ∙ h) in
    let allowed = refusal-none_iff rel name editor (editor_of source) (editor_of destination) in
    let at_source = MayLink-IsOpenTo rel.source_id editor (claims_of name s) apart named in
    let at_destination =
      MayLink-IsOpenTo rel.destination_id editor (claims_of name s) apart named in
    rw run (
      λ e. let may = allowed.0 (passes.0 e) in (at_source.0 may.0, at_destination.0 may.1),
      λ m. passes.1 (allowed.1 (at_source.1 m.0, at_destination.1 m.1)),
    )
