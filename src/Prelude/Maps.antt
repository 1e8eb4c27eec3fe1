-- ===== src/Prelude/Maps.antt =====
-- JavaScript's `Map` with string keys: an association list in insertion order. `set` on a present
-- key keeps the key's place, and on a new key appends.
use Prim.Native.String.{String}
use mathlib.Core.Path.{◌≡◌, refl}
use mathlib.Core.Bool.{Bool, false, ◌||◌}
use mathlib.Core.List.{List, [], ◌∷◌, map}
use mathlib.Core.Option.{Option, none, some}
use native.Mathlib.Omega.{arith}
use text.Mathlib.Text.{◌==◌}
use text.Mathlib.TextEquality.{eq_iff}
use text.Mathlib.TextPositions.{eq_refl}
use noware.Prelude.Tests.{if◌then◌else◌, is_some}
use noware.Prelude.Lists.{All}
use noware.Prelude.Sets.{mem}

abbrev pub Map {ℓ} : Type ℓ → Type ℓ
Map V = List (String × V)

abbrev pub no_entries {ℓ} : (V : Type ℓ) → Map V
no_entries V = []

module _ {ℓ} {V : Type ℓ} where
  unfoldable pub get : String → Map V → Option V
  get k [] = none
  get k ((j, v) ∷ m) = if j == k then some v else get k m

  unfoldable pub set : String → V → Map V → Map V
  set k v [] = (k, v) ∷ []
  set k v ((j, w) ∷ m) = if j == k then (j, v) ∷ m else (j, w) ∷ set k v m

  unfoldable pub delete : String → Map V → Map V
  delete k [] = []
  delete k ((j, v) ∷ m) = let rest = delete k m in if j == k then rest else (j, v) ∷ rest

  unfoldable pub has : String → Map V → Bool
  unfolding get
  has k m = is_some (get k m)

  abbrev pub values : Map V → List V
  values = map (λ e. e.1)

  abbrev pub keys : Map V → List String
  keys = map (λ e. e.0)

  -- new Map(xs.map((x) => [id(x), x])), onto `m`
  unfoldable pub set_all : (V → String) → Map V → List V → Map V
  unfolding set
  set_all id m [] = m
  set_all id m (x ∷ xs) = set_all id (set (id x) x m) xs

  pub get-set :
      (k j : String) (v : V) (m : Map V) → get j (set k v m) ≡ (if k == j then some v else get j m)
  unfolding get set
  get-set k j v [] = refl
  get-set k j v ((i, w) ∷ m) = ground (arith, eq_iff k j, eq_iff i k, eq_iff i j, get-set k j v m)

  pub get-delete :
      (k j : String) (m : Map V) → get j (delete k m) ≡ (if k == j then none else get j m)
  unfolding get delete
  get-delete k j [] = ground arith
  get-delete k j ((i, v) ∷ m) = ground (arith, get-delete k j m, eq_iff i k, eq_iff i j, eq_iff k j)

  pub has-cons : (k j : String) (v : V) (m : Map V) → has k ((j, v) ∷ m) ≡ (j == k || has k m)
  unfolding has get
  has-cons k j v m = ground arith

  pub has-set : (k j : String) (v : V) (m : Map V) → has j (set k v m) ≡ (k == j || has j m)
  unfolding has
  has-set k j v m = ground (arith, get-set k j v m)

  pub has-set_all :
      (id : V → String) (k : String) (m : Map V) (xs : List V)
      → has k (set_all id m xs) ≡ (has k m || mem k (map id xs))
  unfolding set_all mem
  has-set_all id k m [] = ground arith
  has-set_all id k m (x ∷ xs) =
      ground (arith, has-set_all id k (set (id x) x m) xs, has-set (id x) k x m)

  -- No key twice.
  abbrev pub Distinct : Map V → Type 0
  Distinct [] = Unit
  Distinct ((k, v) ∷ m) = (has k m ≡ false) × Distinct m

  pub set-Distinct : (k : String) (v : V) (m : Map V) → Distinct m → Distinct (set k v m)
  unfolding set
  set-Distinct k v [] h = (get-nil_has k, tt)
    where
      get-nil_has : (k : String) → has k (no_entries V) ≡ false
      get-nil_has k = unfold has get in refl
  set-Distinct k v ((j, w) ∷ m) h =
      ground (arith, set-Distinct k v m h.1, has-set k j v m, eq_iff j k, eq_iff k j)

  pub set_all-Distinct :
      (id : V → String) (m : Map V) (xs : List V) → Distinct m → Distinct (set_all id m xs)
  unfolding set_all
  set_all-Distinct id m [] h = h
  set_all-Distinct id m (x ∷ xs) h =
      set_all-Distinct id (set (id x) x m) xs (set-Distinct (id x) x m h)

  -- Every value stands under its own id.
  abbrev pub IsKeyed : (V → String) → Map V → Type 0
  IsKeyed id m = All (λ e. id e.1 ≡ e.0) m

  pub set-IsKeyed :
      (id : V → String) (v : V) (m : Map V) → IsKeyed id m → IsKeyed id (set (id v) v m)
  unfolding set
  set-IsKeyed id v [] h = (refl, tt)
  set-IsKeyed id v ((j, w) ∷ m) h = ground (arith, set-IsKeyed id v m h.1, eq_iff j (id v))

  pub set_all-IsKeyed :
      (id : V → String) (m : Map V) (xs : List V) → IsKeyed id m → IsKeyed id (set_all id m xs)
  unfolding set_all
  set_all-IsKeyed id m [] h = h
  set_all-IsKeyed id m (x ∷ xs) h = set_all-IsKeyed id (set (id x) x m) xs (set-IsKeyed id x m h)

  -- In a map without repeated keys every entry is the one that its key finds.
  abbrev pub Finds : Map V → Map V → Type ℓ
  Finds m = All (λ e. get e.0 m ≡ some e.1)

  Finds-cons :
      (j : String) (v : V) (m l : Map V) → Finds m l → has j m ≡ false → Finds ((j, v) ∷ m) l
  unfolding has get
  Finds-cons j v m [] h fresh = tt
  Finds-cons j v m ((k, w) ∷ l) h fresh = ground (arith, Finds-cons j v m l h.1, eq_iff j k)

  pub Distinct-Finds : (m : Map V) → Distinct m → Finds m m
  unfolding get
  Distinct-Finds [] h = tt
  Distinct-Finds ((k, v) ∷ m) h = (rw (eq_refl k), Finds-cons k v m m (Distinct-Finds m h.1) h.0)

  pub get-nil : (k : String) → get k (no_entries V) ≡ none
  unfolding get
  get-nil k = refl

pub ruleset map_laws = (get-nil, get-set, get-delete)
