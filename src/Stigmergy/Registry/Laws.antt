-- ===== src/Stigmergy/Registry/Laws.antt =====
-- What attaching and detaching change, and the versions of a definition.
use noware.Prelude.{
  ℕ, suc, String, Bool, true, false, ◌&&◌, ◌≡◌, refl, sym, ap, ◌∙◌, Option, none, some, List, [],
  ◌∷◌, ◌++◌, arith, if◌then◌else◌, ◌==◌, eq_iff, eq_refl, find, get_or, get, get-set, Bool-cases,
  Option-cases, inl, inr,
}
use noware.Stigmergy.Registry.{
  ComponentInstance, Registry, attach, detach, get_component, without_first, instances_of,
}

abbrev pub first_of : {A : Type 0} → Option A → Option A → Option A
first_of none b = b
first_of (some a) b = some a

find-append :
    {A : Type 0} (p : A → Bool) (l m : List A) → find p (l ++ m) ≡ first_of (find p l) (find p m)
find-append p [] m = refl
find-append p (x ∷ l) m = ground (arith, find-append p l m)

instances_of-set :
    (e k : String) (l : List ComponentInstance) (r : Registry)
    → instances_of k (record r { instances = noware.Prelude.set e l r.instances })
      ≡ (if e == k then l else instances_of k r)
instances_of-set e k l r = ground (arith, get-set e k l r.instances)

first_of-if :
    (b : Bool) (o : Option ComponentInstance) (i : ComponentInstance)
    → first_of o (if b then some i else none) ≡ (if b then first_of o (some i) else o)
first_of-if true o i = refl
first_of-if false none i = refl
first_of-if false (some j) i = refl

other_name : {a b : Bool} → (a && b) ≡ false → a ≡ true → b ≡ false
other_name h e = ground (arith, h, e)

-- A component that is attached is found where none of its name was attached to its entity before, and
-- what is found of every other name or entity stays.
pub attach_lem :
    (i : ComponentInstance) (entity name : String) (r : Registry)
    → get_component entity name (attach i r) ≡ (
        if i.entity_id == entity && i.component_name == name
        then first_of (get_component entity name r) (some i)
        else get_component entity name r)
unfolding attach get_component
attach_lem i entity name r =
    let named = λ (j : ComponentInstance). j.component_name == name in
    let added = instances_of i.entity_id r ++ i ∷ [] in
    ap (find named) (instances_of-set i.entity_id entity added r)
    ∙ (elim (Bool-cases (i.entity_id == entity)) [
      | inl e ↦ rw e (
          find-append named (instances_of i.entity_id r) (i ∷ [])
          ∙ ap (λ k. first_of (find named (instances_of k r)) (find named (i ∷ [])))
              ((eq_iff i.entity_id entity).0 e)
          ∙ first_of-if (i.component_name == name) (get_component entity name r) i)
      | inr e ↦ rw e refl
    ])

find-without_first :
    (name k : String) (l : List ComponentInstance)
    → (name == k) ≡ false
    → find (λ i. i.component_name == k) (without_first name l) ≡ find (λ i. i.component_name == k) l
unfolding without_first
find-without_first name k [] h = refl
find-without_first name k (i ∷ l) h = ground (
  arith,
  h,
  find-without_first name k l h,
  eq_iff i.component_name name,
  eq_iff i.component_name k,
  eq_iff name k,
)

-- Detaching a component changes nothing of other names and other entities.
pub detach_lem :
    (e c entity name : String) (r : Registry)
    → (e == entity && c == name) ≡ false
    → get_component entity name (detach e c r).1 ≡ get_component entity name r
unfolding detach get_component
detach_lem e c entity name r h =
    let named = λ (j : ComponentInstance). j.component_name == name in
    let left = without_first c (instances_of e r) in
    elim (Option-cases (get_component e c r)) [
      | inl absent ↦ rw absent refl
      | inr (d, present) ↦ rw present (
          ap (find named) (instances_of-set e entity left r) ∙ (elim (Bool-cases (e == entity)) [
            | inl same ↦ rw same (
                find-without_first c name (instances_of e r) (other_name h same)
                ∙ ap (λ k. find named (instances_of k r)) ((eq_iff e entity).0 same))
            | inr apart ↦ rw apart refl
          ]))
    ]
