-- ===== src/Depends.antt =====
-- `DependencyRegistry` of packages/depends/src/index.ts: a registry with its parents, nearest first. A
-- factory makes its n-th object when it is called as the n-th, whichever factory it is.
pub mod Laws
use noware.Prelude.{
  ℕ, ◌+◌, String, Bool, true, false, ◌||◌, Option, none, some, List, [], ◌∷◌, Map, get, set, delete,
  has,
}

pub record DependencyKey (V : Type 0) : Type 0 where
  pub name : String
  pub factory : Option (ℕ → V)

-- What `resolve` gives, or `none` when it throws; the registries after it; the objects made so far.
pub record Resolved (V : Type 0) : Type 0 where
  pub instance_of : Option V
  pub registries : List (Map V)
  pub made : ℕ

module _ {V : Type 0} where
  -- At the root: make the instance and keep it there, or throw.
  unfoldable pub resolve_root : DependencyKey V → ℕ → Map V → Resolved V
  resolve_root key made s = elim key.factory [
    | none ↦ record { instance_of = none; registries = s ∷ []; made = made }
    | some f ↦ record {
      instance_of = some (f made);
      registries = set key.name (f made) s ∷ [];
      made = made + 1;
    }
  ]

  unfoldable pub resolve : DependencyKey V → ℕ → List (Map V) → Resolved V
  unfolding resolve_root
  resolve key made [] = record { instance_of = none; registries = []; made = made }
  resolve key made (s ∷ []) = elim (get key.name s) [
    | some v ↦ record { instance_of = some v; registries = s ∷ []; made = made }
    | none ↦ resolve_root key made s
  ]
  resolve key made (s ∷ p ∷ ps) =
      let above = resolve key made (p ∷ ps) in
      elim (get key.name s) [
        | some v ↦ record { instance_of = some v; registries = s ∷ p ∷ ps; made = made }
        | none ↦ record above { registries = s ∷ above.registries }
      ]

  -- `has`
  unfoldable pub has_key : DependencyKey V → List (Map V) → Bool
  has_key key [] = false
  has_key key (s ∷ ps) = has key.name s || has_key key ps

  -- `register` of an instance that is no `BaseDepends`.
  unfoldable pub register : DependencyKey V → V → List (Map V) → List (Map V)
  register key v [] = []
  register key v (s ∷ ps) = set key.name v s ∷ ps

  unfoldable pub unregister : DependencyKey V → List (Map V) → List (Map V)
  unregister key [] = []
  unregister key (s ∷ ps) = delete key.name s ∷ ps

  unfoldable pub clear : List (Map V) → List (Map V)
  clear [] = []
  clear (s ∷ ps) = [] ∷ ps

  unfoldable pub fork : List (Map V) → List (Map V)
  fork registries = [] ∷ registries
