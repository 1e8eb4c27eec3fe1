-- ===== src/WorkspaceDo/Hydrate/Granted.antt =====
-- A claim that was granted and persisted is there after a cold start.
use noware.Prelude.{
  ℕ, String, false, ◌≡◌, refl, Option, none, some, List, [], ◌∷◌, ◌++◌, Option-cases, inl, inr, any,
  All, ◌==◌,
}
use noware.Exec.{ok, modify, ◌>>=◌}
use noware.Model.Collab.{Claim}
use noware.Cfour.{Event}
use noware.WorkspaceDo.{date_now, Store, Junction}
use noware.WorkspaceDo.Sql.{same_junction}
use noware.WorkspaceDo.Log.{append_event, event_time, prune_events}
use noware.WorkspaceDo.Persist.{claim_row}
use noware.WorkspaceDo.Hydrate.{stored_claims}
use noware.WorkspaceDo.Hydrate.Claims.{IsUnique, owned_by, Foreign}

abbrev row_of : String → String → Junction
row_of k m = record { owner = k; member = m }

-- None of the rows is in the table.
abbrev Absent : String → List Junction → List String → Type 0
Absent k table = All λ m. any (same_junction (row_of k m)) table ≡ false

-- What a new claim's rows must not meet.
pub record IsNew (c : Claim) (d : Store) : Type 0 where
  pub no_row : All (λ r. (r.id == c.id) ≡ false) d.claims
  pub no_elements : Foreign c.id d.claim_elements
  pub no_relationships : Foreign c.id d.claim_relationships
  pub elements : IsUnique c.element_ids
  pub relationships : IsUnique c.relationship_ids

-- The rows of the claim beside those that were there.
abbrev with_rows : String → Claim → Store → Store
with_rows name c d = record d {
  claims = d.claims ++ claim_row name c ∷ [];
  claim_elements = d.claim_elements ++ owned_by c.id c.element_ids;
  claim_relationships = d.claim_relationships ++ owned_by c.id c.relationship_ids;
}

-- The event log is apart from the model and the tables of the claims.
pub record SameClaims (d t : Store) : Type 0 where
  pub memory : t.cfour ≡ d.cfour
  pub claims : t.claims ≡ d.claims
  pub elements : t.claim_elements ≡ d.claim_elements
  pub relationships : t.claim_relationships ≡ d.claim_relationships
  pub limit : t.max_parameters ≡ d.max_parameters

prune-SameClaims : (s : Store) → SameClaims s (prune_events s)
unfolding prune_events
prune-SameClaims s = elim (Option-cases s.event_log_max) [
  | inl e ↦
      rw (prune_events, e)
        (record {
          memory = refl;
          claims = refl;
          elements = refl;
          relationships = refl;
          limit = refl;
        })
  | inr (n, e) ↦
      rw (prune_events, e)
        (record {
          memory = refl;
          claims = refl;
          elements = refl;
          relationships = refl;
          limit = refl;
        })
]

pub append_event-SameClaims :
    (e : Event) (d : Store) → (t : Store) × (append_event e d ≡ (ok tt, t)) × SameClaims d t
unfolding append_event date_now ◌>>=◌
append_event-SameClaims e d = at e.timestamp
  where
    row_at : ℕ → Store → Store
    row_at time s =
        prune_events
          (record s { events = s.events ++ record { payload = e; timestamp = time } ∷ [] })

    at :
        (o : Option ℕ)
        → (t : Store) × ((event_time o >>= λ time. modify (row_at time)) d ≡ (ok tt, t))
          × SameClaims d t
    at none =
        let same = prune-SameClaims _ in
        (
          _,
          refl,
          record {
            memory = same.memory;
            claims = same.claims;
            elements = same.elements;
            relationships = same.relationships;
            limit = same.limit;
          },
        )
    at (some time) =
        let same = prune-SameClaims _ in
        (
          _,
          refl,
          record {
            memory = same.memory;
            claims = same.claims;
            elements = same.elements;
            relationships = same.relationships;
            limit = same.limit;
          },
        )

pub same-stored_claims :
    (name : String) (d t : Store) → SameClaims d t → stored_claims name t ≡ stored_claims name d
unfolding stored_claims
same-stored_claims name d t same = rw (same.claims, same.elements, same.relationships) refl
