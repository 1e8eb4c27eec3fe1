-- ===== src/Cfour/Claims/Stable.antt =====
-- The claims' methods keep what depends on workspaces, the batch and the log alone.
use noware.Prelude.{
  String, refl, Option, none, some, List, [], inl, inr, Option-cases, Bool-cases, get,
}
use noware.Exec.Keeps.{
  Keeps, Keeps-bind, Keeps-pure, Keeps-modify, Keeps-throw, Keeps-for_each, keeps_rules,
}
use noware.Exec.{modify}
use noware.Model.Collab.{Claim}
use noware.Cfour.{State, Event, Error}
use noware.Cfour.Events.{notify}
use noware.Cfour.Batch.Rollback.{SameBatch}
use noware.Cfour.Claims.{
  Claims, Guarded, claims_for, put_claims, get_claim_for, assert_claim_allows, refuse,
  absorb_created_element, purge_removed_from_claims, purge_entry, release_one, claims_of, is_bare,
  purged,
}

pub record Stable (P : State → Type 0) : Type 0 where
  pub same : (s t : State) → SameBatch s t → P s → P t
  pub notified : (e : Event) (s : State) → P s → P (notify e s)

module _ {P : State → Type 0} (stable : Stable P) where
  same_batch : (s : State) → SameBatch s s
  same_batch s = record {
    workspaces = refl;
    depth = refl;
    queue = refl;
    snapshots = refl;
    log = refl;
    told = refl;
  }

  put_claims-Stable :
      (name : String) (claims : Claims) (s : State) → P s → P (put_claims name claims s)
  unfolding put_claims
  put_claims-Stable name claims s h =
      stable.same s _
        (record {
          workspaces = refl;
          depth = refl;
          queue = refl;
          snapshots = refl;
          log = refl;
          told = refl;
        })
        h

  pub claims_for-Keeps : (name : String) → Keeps P (claims_for name)
  unfolding claims_for
  claims_for-Keeps name = record {
    at = λ s h. elim (Option-cases (get name s.claims)) [
      | inl e ↦ rw (e, claims_for) (put_claims-Stable name [] s h)
      | inr (c, e) ↦ rw (e, claims_for) h
    ];
  }

  pub get_claim_for-Keeps : (id name : String) → Keeps P (get_claim_for id name)
  unfolding get_claim_for
  get_claim_for-Keeps id name = search (keeps_rules, claims_for-Keeps)

  refuse-Keeps :
      (kind : Guarded) (id name : String) (c : Option Claim) → Keeps P (refuse kind id name c)
  unfolding refuse
  refuse-Keeps kind id name none = Keeps-pure tt
  refuse-Keeps kind id name (some c) = Keeps-throw _

  pub assert_claim_allows-Keeps :
      (id editor name : String) (kind : Guarded) → Keeps P (assert_claim_allows id editor name kind)
  unfolding assert_claim_allows
  assert_claim_allows-Keeps id editor name kind =
      search (keeps_rules, claims_for-Keeps, refuse-Keeps)

  pub notify-Keeps : (e : Event) → Keeps {E = Error} P (modify (notify e))
  notify-Keeps e = Keeps-modify (notify e) (stable.notified e)

  put_claims-Keeps :
      (f : State → Claims) (name : String)
      → Keeps {E = Error} P (modify λ s. put_claims name (f s) s)
  put_claims-Keeps f name = Keeps-modify _ (λ s. put_claims-Stable name (f s) s)

  pub absorb_created_element-Keeps :
      (parent created editor name : String)
      → Keeps P (absorb_created_element parent created editor name)
  unfolding absorb_created_element
  absorb_created_element-Keeps parent created editor name =
      Keeps-bind _ _ (claims_for-Keeps name) (λ claims. put_claims-Keeps (λ _. _) name)

  release_one-Keeps : (name id : String) (c : Claim) → Keeps P (release_one name id c)
  unfolding release_one
  release_one-Keeps name id c = Keeps-bind _ _ (put_claims-Keeps _ name) (λ _. notify-Keeps _)

  purge_entry-Keeps :
      (ids rel_ids : List String) (name : String) (entry : String × Claim)
      → Keeps P (purge_entry ids rel_ids name entry)
  purge_entry-Keeps ids rel_ids name (id, c) = record {
    at = λ s h. elim (Bool-cases (is_bare (purged ids rel_ids c))) [
      | inl e ↦ rw e ((release_one-Keeps name id _).at s h)
      | inr e ↦ rw e (put_claims-Stable name _ s h)
    ];
  }

  pub purge_removed_from_claims-Keeps :
      (ids rel_ids : List String) (name : String)
      → Keeps P (purge_removed_from_claims ids rel_ids name)
  unfolding purge_removed_from_claims
  purge_removed_from_claims-Keeps ids rel_ids name = record {
    at = λ s h.
        (Keeps-for_each (claims_of name s) (purge_entry ids rel_ids name)
            (purge_entry-Keeps ids rel_ids name)).at
          s h;
  }
