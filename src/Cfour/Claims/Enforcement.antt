-- ===== src/Cfour/Claims/Enforcement.antt =====
-- Who may edit what: `_assertClaimAllows`, and the mutators that call it.
use noware.Prelude.{
  String, true, ◌≡◌, refl, ◌∙◌, ◌↔◌, Option, none, some, [], ◌∷◌, arith, eq_iff, All, get,
}
use noware.Exec.{Result, ok, throws, ◌>>=◌, pure, throw}
use noware.Model.Collab.{Claim}
use noware.Cfour.{State, Error, M}
use noware.Model.{Workspace}
use noware.Cfour.Batch.{capture}
use noware.Cfour.Workspaces.{get_workspace}
use noware.Cfour.Claims.{
  Claims, Guarded, holder_in, get_claim_for, guards, blocker, claims_of, claims_for, put_claims,
  assert_claim_allows, refuse, claimed_error,
}

-- Every claim that guards the id is the editor's.
abbrev pub MayEdit : Guarded → String → String → Claims → Type 0
MayEdit kind id editor = All (λ e. guards kind id e.1 ≡ true → e.1.editor_id ≡ editor)

pub blocker-none_iff :
    (kind : Guarded) (id editor : String) (claims : Claims)
    → (blocker kind id editor claims ≡ none) ↔ MayEdit kind id editor claims
unfolding blocker
blocker-none_iff kind id editor [] = (λ _. tt, λ _. refl)
blocker-none_iff kind id editor ((k, c) ∷ claims) =
    ground (arith, blocker-none_iff kind id editor claims, eq_iff c.editor_id editor)

-- `_assertClaimAllows` as a value: the claims map is made if it was missing, and the outcome is the
-- first blocker's.
outcome : Guarded → String → String → Option Claim → Result Error (Unit {0})
outcome kind id name none = ok tt
outcome kind id name (some c) = throws (claimed_error kind id c.editor_id name)

refuse_lem :
    (kind : Guarded) (id name : String) (b : Option Claim) (s : State)
    → refuse kind id name b s ≡ (outcome kind id name b, s)
unfolding refuse outcome pure throw
refuse_lem kind id name none s = refl
refuse_lem kind id name (some c) s = refl

-- What `_claimsFor` leaves.
abbrev pub with_claims : String → State → State
with_claims name s = (claims_for name s).1

pub claims_for_lem :
    (name : String) (s : State) → claims_for name s ≡ (ok (claims_of name s), with_claims name s)
unfolding claims_for claims_of
claims_for_lem name s = ground arith

assert_claim_allows_run :
    (id editor name : String) (kind : Guarded) (s : State)
    → assert_claim_allows id editor name kind s
      ≡ (outcome kind id name (blocker kind id editor (claims_of name s)), with_claims name s)
unfolding assert_claim_allows ◌>>=◌
assert_claim_allows_run id editor name kind s =
    rw (claims_for_lem name s) (refuse_lem kind id name _ _)

outcome-ok_iff :
    (kind : Guarded) (id name : String) (b : Option Claim)
    → (outcome kind id name b ≡ ok tt) ↔ (b ≡ none)
unfolding outcome
outcome-ok_iff kind id name none = (λ _. refl, λ _. refl)
outcome-ok_iff kind id name (some c) = (λ e. cc, λ e. cc)

-- `_assertClaimAllows` passes exactly when every claim of the workspace that guards the id is held
-- by the editor.
pub assert_claim_allows_lem :
    (id editor name : String) (kind : Guarded) (s : State)
    → ((assert_claim_allows id editor name kind s).0 ≡ ok tt)
      ↔ MayEdit kind id editor (claims_of name s)
assert_claim_allows_lem id editor name kind s =
    let claims = claims_of name s in
    let passes = outcome-ok_iff kind id name (blocker kind id editor claims) in
    let allowed = blocker-none_iff kind id editor claims in
    rw (assert_claim_allows_run id editor name kind s)
      (λ e. allowed.0 (passes.0 e), λ h. passes.1 (allowed.1 h))

-- The call throws, and every workspace is as it was.
pub record Refused (s : State) (r : Result Error (Unit {0}) × State) : Type 0 where
  pub error : Error
  pub thrown : r.0 ≡ throws error
  pub unchanged : r.1.workspaces ≡ s.workspaces

pub with_claims-workspaces :
    (name : String) (s : State) → (with_claims name s).workspaces ≡ s.workspaces
unfolding claims_for put_claims
with_claims-workspaces name s = ground arith

-- An action that begins with a failing `_assertClaimAllows`.
pub assert-Refused :
    (id editor name : String) (kind : Guarded) (k : Unit → M Unit) (s : State) {c : Claim}
    → blocker kind id editor (claims_of name s) ≡ some c
    → Refused s ((assert_claim_allows id editor name kind >>= k) s)
unfolding ◌>>=◌ outcome
assert-Refused id editor name kind k s {c} h =
    rw (assert_claim_allows_run id editor name kind s, h)
      (record {
        error = claimed_error kind id c.editor_id name;
        thrown = refl;
        unchanged = with_claims-workspaces name s;
      })

pub capture-workspaces :
    (name : String) (current : Option Workspace) (s : State)
    → (capture name current s).workspaces ≡ s.workspaces
unfolding capture
capture-workspaces name current s = ground arith

capture-claims_of :
    (name : String) (current : Option Workspace) (s : State)
    → claims_of name (capture name current s) ≡ claims_of name s
unfolding capture claims_of
capture-claims_of name current s = ground arith

-- After `getWorkspace` of a workspace that is there.
pub get_workspace-Refused :
    (name : String) (f : Workspace → M Unit) (s : State) {ws : Workspace}
    → get name s.workspaces ≡ some ws
    → ((t : State) → claims_of name t ≡ claims_of name s → Refused t (f ws t))
    → Refused s ((get_workspace name >>= f) s)
unfolding ◌>>=◌ get_workspace
get_workspace-Refused name f s {ws} found refused =
    rw (found, get_workspace)
      (let r = refused (capture name (some ws) s) (capture-claims_of name (some ws) s) in
        record {
          error = r.error;
          thrown = r.thrown;
          unchanged = r.unchanged ∙ capture-workspaces name (some ws) s;
        })

-- An action that returns, then another.
pub bind-ok :
    {A B : Type 0} (m : M A) (f : A → M B) (a : A) (s t : State)
    → m s ≡ (ok a, t)
    → (m >>= f) s ≡ f a t
unfolding ◌>>=◌
bind-ok m f a s t h = rw h

pub get_claim_for_lem :
    (id name : String) (s : State)
    → get_claim_for id name s ≡ (ok (holder_in id (claims_of name s)), with_claims name s)
unfolding get_claim_for pure
get_claim_for_lem id name s = bind-ok (claims_for name) _ _ s _ (claims_for_lem name s)
