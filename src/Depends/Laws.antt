-- ===== src/Depends/Laws.antt =====
-- What a registry gives after it gave an instance.
use noware.Prelude.{
  ℕ, ◌+◌, ◌≡◌, refl, ◌∙◌, none, some, List, [], ◌∷◌, Map, get, set, get-set, eq_refl,
}
use noware.Depends.{DependencyKey, resolve_root, resolve, register, fork}

module _ {V : Type 0} where
  -- What the registry itself has it gives, and nothing changes.
  pub resolve_own :
      (key : DependencyKey V) (made : ℕ) (s : Map V) (ps : List (Map V)) (v : V)
      → get key.name s ≡ some v
      → resolve key made (s ∷ ps)
        ≡ record { instance_of = some v; registries = s ∷ ps; made = made }
  unfolding resolve
  resolve_own key made s [] v e = rw (resolve, e) refl
  resolve_own key made s (p ∷ ps) v e = rw (resolve, e) refl

  -- A registry that has just been given an instance finds it and changes nothing.
  pub resolve-register :
      (key : DependencyKey V) (v : V) (made : ℕ) (s : Map V) (ps : List (Map V))
      → resolve key made (register key v (s ∷ ps))
        ≡ record { instance_of = some v; registries = set key.name v s ∷ ps; made = made }
  unfolding register
  resolve-register key v made s ps =
      resolve_own key made (set key.name v s) ps v
        (get-set key.name key.name v s ∙ rw (eq_refl key.name) refl)

  -- A fork finds what its registry finds, and what it makes it makes there.
  pub resolve-fork :
      (key : DependencyKey V) (made : ℕ) (s : Map V) (ps : List (Map V))
      → resolve key made (fork (s ∷ ps)) ≡ record (resolve key made (s ∷ ps)) {
        registries = [] ∷ (resolve key made (s ∷ ps)).registries;
      }
  unfolding resolve fork get
  resolve-fork key made s ps = refl

  made_at_root :
      (key : DependencyKey V) (f : ℕ → V) (made : ℕ) (s : Map V)
      → get key.name s ≡ none
      → key.factory ≡ some f
      → resolve key made (s ∷ []) ≡ record {
        instance_of = some (f made);
        registries = set key.name (f made) s ∷ [];
        made = made + 1;
      }
  unfolding resolve resolve_root
  made_at_root key f made s missing has_factory =
      rw (resolve, resolve_root, missing, has_factory) refl

  -- What is made at the root is found by the next that asks, and no second one is made.
  pub resolve-resolve :
      (key : DependencyKey V) (f : ℕ → V) (made later : ℕ) (s : Map V)
      → get key.name s ≡ none
      → key.factory ≡ some f
      → resolve key later (resolve key made (s ∷ [])).registries ≡ record {
        instance_of = some (f made);
        registries = (resolve key made (s ∷ [])).registries;
        made = later;
      }
  resolve-resolve key f made later s missing has_factory =
      rw (made_at_root key f made s missing has_factory) (
        resolve_own key later (set key.name (f made) s) [] (f made)
          (get-set key.name key.name (f made) s ∙ rw (eq_refl key.name) refl))
