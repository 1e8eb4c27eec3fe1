-- ===== src/Cfour/Tests.antt =====
-- A small model with two claims, and the theorems on `BaseCfour` at it.
use noware.Prelude.{
  ◌==◌, String, not, ◌&&◌, true, ◌≡◌, ◌≢◌, ◌↔◌, refl, none, List, [], ◌∷◌, All, get, has, mem, ◌++◌,
  arith, eq_iff,
}
use mathlib.Core.Path.{subst}
use noware.Exec.{ok, ◌>>=◌}
use noware.Model.Collab.{Selection, Claim}
use noware.Cfour.Sample.{of_ann, of_bob, both, start}
use noware.Cfour.{State, Event, initial, date_now, random_uuid, bare, Op, register_editor}
use noware.Cfour.Events.{notify, deliver_all}
use noware.Cfour.Claims.{
  claims_of, claims_for, covers, overlapping, claim, guards, element, absorb_in, ids_of,
  expire_stale_claims, purge_removed_from_claims, purged, release_all_claims_for,
  assert_claim_allows,
}
use noware.Cfour.Claims.Exclusive.{granted, IsFree, IsExclusive, claim_lem, claim-IsExclusive}
use noware.Cfour.Claims.Enforcement.{MayEdit, assert_claim_allows_lem}
use noware.Cfour.Claims.Purge.{left_of, purge_removed_from_claims_lem}
use noware.Cfour.Claims.Absorb.{absorb_in-IsExclusive}
use noware.Cfour.Mutators.{add_relationship}
use noware.Cfour.Mutators.Linking.{IsOpenTo, add_relationship_lem}
use noware.Model.Sample.{model, uses}
use noware.Cfour.Claims.Expiry.{
  chosen, spared, expires, expire_stale_claims_lem, release_all_claims_for_lem,
}
use noware.Cfour.Events.Log.{window, stamped, deliver_all_lem}

claiming : Unit {0}
unfolding claim claims_of claims_for covers overlapping absorb_in ◌>>=◌ notify mem get has initial
    date_now random_uuid guards expire_stale_claims release_all_claims_for
claiming = tt

abbrev crm_selection : Selection
crm_selection = record { element_ids = "crm" ∷ []; relationship_ids = "uses" ∷ [] }

claim_lem_example :
    ((c : Claim) × ((claim crm_selection "cyd" "model" start).0 ≡ ok c))
    ↔ (("cyd" ≢ register_editor) × All (IsFree (claims_of "model" start)) (ids_of crm_selection))
claim_lem_example = claim_lem crm_selection "cyd" "model" start

abbrev of_cyd : Claim
of_cyd = granted crm_selection "cyd" "model" start

only_shop : (id : String) → covers id of_ann ≡ true → "shop" ≡ id
unfolding claiming
only_shop id h = ground (arith, eq_iff "shop" id)

both-IsExclusive : IsExclusive both
unfolding claiming
both-IsExclusive =
    (λ id h. subst (IsFree (("c2", of_bob) ∷ [])) (only_shop id h) refl, ((λ id h. refl), tt))

claim-IsExclusive_example :
    ((id : String) → covers id of_cyd ≡ mem id (ids_of crm_selection))
    × IsExclusive (claims_of "model" (claim crm_selection "cyd" "model" start).1)
unfolding claiming
claim-IsExclusive_example =
    claim-IsExclusive crm_selection "cyd" "model" start of_cyd refl refl both-IsExclusive

assert_claim_allows_lem_example :
    ((assert_claim_allows "api" "bob" "model" element start).0 ≡ ok tt)
    ↔ MayEdit element "api" "bob" (claims_of "model" start)
assert_claim_allows_lem_example = assert_claim_allows_lem "api" "bob" "model" element start

-- Ann's claim has run out, and Bob's has not.
expire_stale_claims_lem_example :
    ((expire_stale_claims "model" none start).0
      ≡ ok (chosen (expires "model" none start) (claims_of "model" start)))
    × ((k : String)
        → get k (claims_of "model" (expire_stale_claims "model" none start).1)
          ≡ spared (expires "model" none start) (get k (claims_of "model" start)))
unfolding claiming
expire_stale_claims_lem_example = expire_stale_claims_lem "model" none start (refl, (refl, tt))

release_all_claims_for_lem_example :
    get "c1" (claims_of "model" (release_all_claims_for "ann" "model" start).1)
    ≡ spared (λ c. c.editor_id == "ann") (get "c1" (claims_of "model" start))
unfolding claiming
release_all_claims_for_lem_example =
    release_all_claims_for_lem "ann" "model" "c1" start (refl, (refl, tt))

absorb_in-IsExclusive_example : IsExclusive (absorb_in "shop" "new" "ann" both)
unfolding claiming
absorb_in-IsExclusive_example = absorb_in-IsExclusive "shop" "new" "ann" both refl both-IsExclusive

-- A relationship between the claims of two editors.
add_relationship_lem_example : ((add_relationship uses "model" "ann" start).0 ≡ ok tt) ↔ (
    IsOpenTo "ann" "shop" (claims_of "model" start)
    × IsOpenTo "ann" "api" (claims_of "model" start))
unfolding claiming
add_relationship_lem_example =
    add_relationship_lem uses "model" "ann" start model refl both-IsExclusive (refl, (refl, tt))

abbrev told : List Event
told = bare Op.reset "model" ∷ bare Op.merge "model" ∷ []

abbrev short_log : State
short_log = record start { event_log = bare Op.import "model" ∷ []; event_log_max = 2 }

deliver_all_lem_example :
    ((deliver_all told short_log).event_log
      ≡ window 2 ((bare Op.import "model" ∷ []) ++ stamped short_log.world told))
    × ((deliver_all told short_log).delivered ≡ short_log.delivered ++ told)
deliver_all_lem_example = deliver_all_lem told (bare Op.import "model" ∷ []) short_log refl

-- The container is removed: Bob's claim covers nothing any more.
purge_removed_from_claims_lem_example :
    ((purge_removed_from_claims ("api" ∷ []) [] "model" start).0 ≡ ok tt)
    × (get "c2" (claims_of "model" (purge_removed_from_claims ("api" ∷ []) [] "model" start).1)
        ≡ left_of ("api" ∷ []) [] "model" (get "c2" (claims_of "model" start)))
    × ((c : Claim) (x : String)
        → (mem x (purged ("api" ∷ []) [] c).element_ids
            ≡ (mem x c.element_ids && not (mem x ("api" ∷ []))))
          × (mem x (purged ("api" ∷ []) [] c).relationship_ids
              ≡ (mem x c.relationship_ids && not (mem x []))))
unfolding claiming
purge_removed_from_claims_lem_example =
    purge_removed_from_claims_lem ("api" ∷ []) [] "model" start "c2" (refl, (refl, tt))
