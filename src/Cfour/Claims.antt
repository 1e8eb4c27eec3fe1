-- ===== src/Cfour/Claims.antt =====
-- Claims of `BaseCfour`: `claim`, `release`, `releaseAllClaimsFor`, `touchClaim`,
-- `expireStaleClaims`, `setClaimTtl`, `getClaims`, `getClaimFor`, `restoreClaims`, and the private
-- `_claimsFor`, `_assertClaimAllows`, `_absorbCreatedElement` and `_purgeRemovedFromClaims`.
pub mod Stable
pub mod Enforcement
pub mod Exclusive
pub mod Absorb
pub mod Expiry
pub mod Purge
use noware.Prelude.{
  ℕ, ◌-◌, String, Bool, true, false, not, ◌&&◌, ◌||◌, Option, none, some, List, [], ◌∷◌, ◌++◌, map,
  ltb, if◌then◌else◌, ◌==◌, length, filter, find, Map, get, set, delete, values, get_or, is_some,
  mem, include, exclude, from_list,
}
use noware.Exec.{ok, throws, ◌>>=◌, ◌>>◌, pure, throw, modify, throw_if, for_each}
use noware.Model.Collab.{Selection, Claim}
use noware.Cfour.{
  State, M, Error, register_editor, bare, a_claim, reserved_editor, selection_overlaps,
  claim_not_found, element_claimed, relationship_claimed, date_now, random_uuid, Op,
}
use noware.Cfour.Events.{notify}

abbrev pub Claims : Type 0
Claims = Map Claim

-- The claims of a workspace, without the map that `_claimsFor` makes where there is none.
unfoldable pub claims_of : String → State → Claims
claims_of name s = get_or (get name s.claims) []

unfoldable pub put_claims : String → Claims → State → State
put_claims name claims s = record s { claims = set name claims s.claims }

-- `_claimsFor`
unfoldable pub claims_for : String → M Claims
claims_for name s = elim (get name s.claims) [
  | none ↦ (ok [], put_claims name [] s)
  | some claims ↦ (ok claims, s)
]

unfoldable pub covers : String → Claim → Bool
covers id c = mem id c.element_ids || mem id c.relationship_ids

abbrev pub holder_in : String → Claims → Option Claim
holder_in id claims = find (covers id) (values claims)

-- `getClaimFor`
unfoldable pub get_claim_for : String → String → M (Option Claim)
get_claim_for id name = do claims ← claims_for name; pure (holder_in id claims)

unfoldable pub get_claims : String → M (List Claim)
get_claims name = do claims ← claims_for name; pure (values claims)

note_holder : List (String × String) → Option Claim → List (String × String)
note_holder found none = found
note_holder found (some c) =
    if is_some (find (λ h. h.0 == c.id) found) then found else found ++ (c.id, c.editor_id) ∷ []

-- `conflicting.get(id)` for each id of the selection, each claim once.
unfoldable pub overlapping : List String → Claims → List (String × String) → List (String × String)
unfolding note_holder
overlapping [] claims found = found
overlapping (id ∷ ids) claims found =
    overlapping ids claims (note_holder found (holder_in id claims))

abbrev pub ids_of : Selection → List String
ids_of sel = sel.element_ids ++ sel.relationship_ids

abbrev pub is_empty {ℓ} : {A : Type ℓ} → List A → Bool
is_empty [] = true
is_empty (a ∷ l) = false

abbrev pub new_claim : String → ℕ → Selection → String → String → Claim
new_claim id now sel editor name = record {
  id = id;
  editor_id = editor;
  workspace_name = name;
  element_ids = from_list [] sel.element_ids;
  relationship_ids = from_list [] sel.relationship_ids;
  created_at = now;
  last_seen_at = now;
}

abbrev pub set_claim : String → Claim → State → State
set_claim name c s = put_claims name (set c.id c (claims_of name s)) s

abbrev pub notify_claim : Op → String → Claim → State → State
notify_claim op name c = notify (record (bare op name) { payload = some (a_claim c) })

unfoldable pub claim : Selection → String → String → M Claim
claim sel editor name = do
  throw_if (editor == register_editor) reserved_editor
  claims ← claims_for name
  let holders = overlapping (ids_of sel) claims []
  throw_if (not (is_empty holders)) (selection_overlaps name holders)
  now ← date_now
  id ← random_uuid
  let created = new_claim id now sel editor name
  modify (set_claim name created)
  modify (notify_claim Op.claim name created)
  pure created

abbrev pub drop_claim : String → String → State → State
drop_claim name id s = put_claims name (delete id (claims_of name s)) s

-- `claims.delete(id)` and the "release" event.
unfoldable pub release_one : String → String → Claim → M Unit
release_one name id c = do modify (drop_claim name id); modify (notify_claim Op.release name c)

release_found : String → String → Option Claim → M Unit
release_found name id none = pure tt
release_found name id (some c) = release_one name id c

unfoldable pub release : String → String → M Unit
unfolding release_found
release id name = do claims ← claims_for name; release_found name id (get id claims)

abbrev pub release_if : String → (Claim → Bool) → String × Claim → M Unit
release_if name test (id, c) s = if test c then release_one name id c s else (ok tt, s)

unfoldable pub release_all_claims_for : String → String → M Unit
release_all_claims_for editor name = do
  claims ← claims_for name
  for_each claims (release_if name (λ c. c.editor_id == editor))

touch_found : String → String → Option Claim → M Unit
touch_found name id none = throw (claim_not_found id name)
touch_found name id (some c) = do
  now ← date_now
  modify λ s. put_claims name (set id (record c { last_seen_at = now }) (claims_of name s)) s

unfoldable pub touch_claim : String → String → M Unit
unfolding touch_found
touch_claim id name = do claims ← claims_for name; touch_found name id (get id claims)

-- `maxAgeMs ?? this._claimTtlByWorkspace.get(workspaceName) ?? this._claimTtlMs`
unfoldable pub claim_threshold : String → Option ℕ → State → ℕ
claim_threshold name max_age s =
    get_or max_age (get_or (get name s.claim_ttl_by_workspace) s.claim_ttl_ms)

-- `now - claim.lastSeenAt > threshold`, over the integers.
abbrev pub is_stale : ℕ → ℕ → Claim → Bool
is_stale now threshold c = ltb threshold (now - c.last_seen_at)

unfoldable pub sweep : String → ℕ → M (List String)
sweep name threshold = do
  now ← date_now
  claims ← claims_for name
  for_each claims (release_if name (is_stale now threshold))
  pure (map (λ e. e.0) (filter (λ e. is_stale now threshold e.1) claims))

unfoldable pub expire_stale_claims : String → Option ℕ → M (List String)
unfolding sweep
expire_stale_claims name max_age s = sweep name (claim_threshold name max_age s) s

unfoldable pub set_claim_ttl : ℕ → Option String → State → State
set_claim_ttl ms none s = record s { claim_ttl_ms = ms }
set_claim_ttl ms (some name) s = record s {
  claim_ttl_by_workspace = set name ms s.claim_ttl_by_workspace;
}

restored : String → Claims → List Claim → Claims
restored name m [] = m
restored name m (c ∷ cs) =
    restored name
      (set c.id
        (record c {
          element_ids = from_list [] c.element_ids;
          relationship_ids = from_list [] c.relationship_ids;
          workspace_name = name;
        })
        m)
      cs

unfoldable pub restore_claims : List Claim → String → State → State
unfolding restored
restore_claims claims name = put_claims name (restored name [] claims)

-- Which ids of a claim `_assertClaimAllows` looks at.
pub data Guarded : Type 0 where
  element relationship : Guarded

unfoldable pub guards : Guarded → String → Claim → Bool
guards element id c = mem id c.element_ids
guards relationship id c = mem id c.relationship_ids

abbrev pub claimed_error : Guarded → String → String → String → Error
claimed_error element id editor name = element_claimed id editor name
claimed_error relationship id editor name = relationship_claimed id editor name

-- The first claim that covers the id for another editor.
unfoldable pub blocker : Guarded → String → String → Claims → Option Claim
blocker kind id editor claims =
    find (λ c. guards kind id c && not (c.editor_id == editor)) (values claims)

refuse : Guarded → String → String → Option Claim → M Unit
refuse kind id name none = pure tt
refuse kind id name (some c) = throw (claimed_error kind id c.editor_id name)

-- `_assertClaimAllows`
unfoldable pub assert_claim_allows : String → String → String → Guarded → M Unit
unfolding refuse
assert_claim_allows id editor name kind = do
  claims ← claims_for name
  refuse kind id name (blocker kind id editor claims)

-- The first claim that covers the parent takes the new id, if it is the editor's.
unfoldable pub absorb_in : String → String → String → Claims → Claims
absorb_in parent created editor [] = []
absorb_in parent created editor ((id, c) ∷ rest) =
    if covers parent c
    then (if c.editor_id == editor
        then (id, record c { element_ids = include created c.element_ids }) ∷ rest
        else (id, c) ∷ rest)
    else (id, c) ∷ absorb_in parent created editor rest

-- `_absorbCreatedElement`
unfoldable pub absorb_created_element : String → String → String → String → M Unit
absorb_created_element parent created editor name = do
  claims ← claims_for name
  modify (put_claims name (absorb_in parent created editor claims))

unfoldable pub exclude_all : List String → List String → List String
exclude_all [] s = s
exclude_all (id ∷ ids) s = exclude_all ids (exclude id s)

unfoldable pub purged : List String → List String → Claim → Claim
purged ids rel_ids c = record c {
  element_ids = exclude_all ids c.element_ids;
  relationship_ids = exclude_all rel_ids c.relationship_ids;
}

abbrev pub is_bare : Claim → Bool
is_bare c = is_empty c.element_ids && is_empty c.relationship_ids

abbrev pub purge_entry : List String → List String → String → String × Claim → M Unit
purge_entry ids rel_ids name (id, c) s =
    let left = purged ids rel_ids c in
    if is_bare left
    then release_one name id left s
    else (ok tt, put_claims name (set id left (claims_of name s)) s)

-- `_purgeRemovedFromClaims`
unfoldable pub purge_removed_from_claims : List String → List String → String → M Unit
purge_removed_from_claims ids rel_ids name s =
    for_each (claims_of name s) (purge_entry ids rel_ids name) s
