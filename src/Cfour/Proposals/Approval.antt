-- ===== src/Cfour/Proposals/Approval.antt =====
-- Joint approval: what `acceptRelationship` does while approvals are missing, and at the last one.
use noware.Prelude.{
  String, true, false, ◌≡◌, refl, ap, ◌∙◌, none, some, [], arith, eq_refl, get, set, delete,
  get-set, get-delete, mem, exclude,
}
use noware.Exec.{ok, ◌>>=◌, modify, throw_if}
use noware.Model.{Workspace}
use noware.Model.Collab.{Proposal}
use noware.Cfour.{State, Event, M, Op}
use noware.Cfour.Events.{notify, deliver, log_event}
use noware.Cfour.Claims.{is_empty}
use noware.Cfour.Mutators.{add_relationship_raw}
use noware.Cfour.Mutators.Linking.{with_relationship, add_relationship_raw_lem}
use noware.Cfour.Proposals.{
  Proposals, proposals_of, put_proposals, proposals_for, drop_proposal, notify_proposal,
  finish_accept, accept_found, accept_relationship,
}

-- The proposal with one approval less to wait for.
abbrev pub approved : String → Proposal → Proposal
approved accepter p = record p { pending_approvals = exclude accepter p.pending_approvals }

abbrev with_proposals : String → State → State
with_proposals name s = (proposals_for name s).1

proposals_for_lem :
    (name : String) (s : State)
    → proposals_for name s ≡ (ok (proposals_of name s), with_proposals name s)
unfolding proposals_for proposals_of
proposals_for_lem name s = ground arith

with_proposals-workspaces :
    (name : String) (s : State) → (with_proposals name s).workspaces ≡ s.workspaces
unfolding proposals_for put_proposals
with_proposals-workspaces name s = ground arith

proposals_of-put_proposals :
    (name : String) (m : Proposals) (s : State) → proposals_of name (put_proposals name m s) ≡ m
unfolding proposals_of put_proposals
proposals_of-put_proposals name m s = ground (arith, get-set name name m s.proposals, eq_refl name)

proposals_of-with_proposals :
    (name : String) (s : State) → proposals_of name (with_proposals name s) ≡ proposals_of name s
unfolding proposals_of proposals_for put_proposals
proposals_of-with_proposals name s = ground (arith, get-set name name [] s.proposals, eq_refl name)

accept_enters :
    (id accepter name : String) (s : State) {p : Proposal}
    → get id (proposals_of name s) ≡ some p
    → mem accepter p.pending_approvals ≡ true
    → accept_relationship id accepter name s
      ≡ finish_accept (approved accepter p) id name (with_proposals name s)
unfolding accept_relationship accept_found ◌>>=◌ throw_if
accept_enters id accepter name s found required =
    rw (proposals_for_lem name s, found, accept_found, required, throw_if) refl

stored :
    (id : String) (p : Proposal) (name : String) (s : State)
    → get id (proposals_of name (put_proposals name (set id p (proposals_of name s)) s)) ≡ some p
stored id p name s =
    rw (proposals_of-put_proposals name (set id p (proposals_of name s)) s)
      (rw (get-set id id p (proposals_of name s), eq_refl id))

-- While another approval is missing, an approval is recorded and no workspace changes.
pub accept_relationship-waits :
    (id accepter name : String) (s : State) (p : Proposal)
    → get id (proposals_of name s) ≡ some p
    → mem accepter p.pending_approvals ≡ true
    → is_empty (exclude accepter p.pending_approvals) ≡ false
    → ((accept_relationship id accepter name s).0 ≡ ok tt)
      × ((accept_relationship id accepter name s).1.workspaces ≡ s.workspaces)
      × (get id (proposals_of name (accept_relationship id accepter name s).1)
          ≡ some (approved accepter p))
unfolding finish_accept put_proposals proposals_for
accept_relationship-waits id accepter name s p found required missing =
    rw (accept_enters id accepter name s found required, missing)
      (
        refl,
        with_proposals-workspaces name s,
        stored id (approved accepter p) name (with_proposals name s),
      )

proposals_of-notify :
    (name : String) (e : Event) (s : State) → proposals_of name (notify e s) ≡ proposals_of name s
unfolding proposals_of notify deliver log_event
proposals_of-notify name e s = ground arith

workspaces-notify : (e : Event) (s : State) → (notify e s).workspaces ≡ s.workspaces
unfolding notify deliver log_event
workspaces-notify e s = ground arith

then_modify :
    (m : M Unit) (f : State → State) (s : State)
    → (m s).0 ≡ ok tt
    → (m >>= λ _. modify f) s ≡ (ok tt, f (m s).1)
unfolding ◌>>=◌ modify
then_modify m f s h = rw h refl

proposals_of-same :
    (name : String) (s t : State)
    → t.proposals ≡ s.proposals
    → proposals_of name t ≡ proposals_of name s
unfolding proposals_of
proposals_of-same name s t h = ground (arith, h)

taken : (id name : String) (s : State) → get id (proposals_of name (drop_proposal name id s)) ≡ none
taken id name s =
    rw (proposals_of-put_proposals name (delete id (proposals_of name s)) s)
      (rw (get-delete id id (proposals_of name s), eq_refl id))

-- The last approval that a proposal waits for adds its relationship to the workspace and takes the
-- proposal away.
pub accept_relationship-last :
    (id accepter name : String) (s : State) (p : Proposal) (ws : Workspace)
    → get id (proposals_of name s) ≡ some p
    → mem accepter p.pending_approvals ≡ true
    → is_empty (exclude accepter p.pending_approvals) ≡ true
    → get name s.workspaces ≡ some ws
    → ((accept_relationship id accepter name s).0 ≡ ok tt)
      × (get name (accept_relationship id accepter name s).1.workspaces
          ≡ some (with_relationship p.relationship ws))
      × (get id (proposals_of name (accept_relationship id accepter name s).1) ≡ none)
unfolding finish_accept ◌>>=◌ modify put_proposals
accept_relationship-last id accepter name s p ws found required last there =
    rw (accept_enters id accepter name s found required, last)
      (let u = drop_proposal name id (with_proposals name s) in
        let raw = add_relationship_raw p.relationship name in
        let (done, left) =
          add_relationship_raw_lem p.relationship name u ws
            (ap (get name) (with_proposals-workspaces name s) ∙ there) in
        let v = (raw u).1 in
        rw
          (then_modify raw (notify_proposal Op.accept_relationship name (approved accepter p)) u
            done)
          (
            refl,
            ap (get name) (workspaces-notify _ v) ∙ left.there,
            ap (get id) (proposals_of-notify name _ v ∙ proposals_of-same name u v left.same)
                ∙ taken id name (with_proposals name s),
          ))
