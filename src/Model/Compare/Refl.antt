-- ===== src/Model/Compare/Refl.antt =====
-- A value never differs from itself.
use noware.Prelude.{
  ℕ, String, Bool, true, false, ◌≡◌, refl, Option, none, some, List, [], ◌∷◌, ◌==◌, eq_refl, arith,
  nat_eq, all, Map, get, has,
}
use noware.Model.{Node, Relationship}
use noware.Model.{InteractionStyle, CodeRelationshipKind}
use noware.Model.Compare.{
  option_eq, list_eq, bool_eq, object_eq, kind_eq, style_eq, relationship_kind_eq, node_changes,
  relationship_changes,
}

pub option_eq_refl {ℓ} :
    {A : Type ℓ} (eq : A → A → Bool)
    → ((a : A) → eq a a ≡ true)
    → (o : Option A) → option_eq eq o o ≡ true
option_eq_refl eq h none = refl
option_eq_refl eq h (some a) = h a

pub list_eq_refl {ℓ} :
    {A : Type ℓ} (eq : A → A → Bool)
    → ((a : A) → eq a a ≡ true)
    → (l : List A) → list_eq eq l l ≡ true
list_eq_refl eq h [] = refl
list_eq_refl eq h (a ∷ l) = rw (h a, list_eq_refl eq h l)

bool_eq_refl : (b : Bool) → bool_eq b b ≡ true
bool_eq_refl true = refl
bool_eq_refl false = refl

all-true {ℓ} : {A : Type ℓ} (p : A → Bool) → ((a : A) → p a ≡ true) → (l : List A) → all p l ≡ true
all-true p h [] = refl
all-true p h (a ∷ l) = rw (h a, all-true p h l)

nat_eq_refl : (n : ℕ) → nat_eq n n ≡ true
nat_eq_refl n = ground arith

has-cons : (k j v : String) (m : Map String) → has k m ≡ true → has k ((j, v) ∷ m) ≡ true
unfolding has get
has-cons k j v m h = ground arith

module _ {ℓ} {A : Type ℓ} (p q : A → Bool) (weaken : (a : A) → p a ≡ true → q a ≡ true) where
  all_mono : (l : List A) → all p l ≡ true → all q l ≡ true
  all_mono [] h = refl
  all_mono (a ∷ l) h = ground (arith, weaken a, all_mono l)

all-has : (m : Map String) → all (λ e. has e.0 m) m ≡ true
unfolding has get
all-has [] = refl
all-has ((j, v) ∷ m) =
    rw (eq_refl j) (
      all_mono (λ e. has e.0 m) (λ e. has e.0 ((j, v) ∷ m)) (λ e. has-cons e.0 j v m) m (all-has m))

text_eq_refl : (o : Option String) → option_eq ◌==◌ o o ≡ true
text_eq_refl = option_eq_refl ◌==◌ eq_refl

tags_eq_refl : (o : Option (List String)) → option_eq (list_eq ◌==◌) o o ≡ true
tags_eq_refl = option_eq_refl (list_eq ◌==◌) (list_eq_refl ◌==◌ eq_refl)

object_eq_refl : (m : Map String) → object_eq m m ≡ true
unfolding object_eq
object_eq_refl m = rw (
  all-true (λ e. option_eq ◌==◌ (get e.0 m) (get e.0 m)) (λ e. text_eq_refl (get e.0 m)) m,
  all-has m,
)

metadata_eq_refl : (o : Option (Map String)) → option_eq object_eq o o ≡ true
metadata_eq_refl = option_eq_refl object_eq object_eq_refl

external_eq_refl : (o : Option Bool) → option_eq bool_eq o o ≡ true
external_eq_refl = option_eq_refl bool_eq bool_eq_refl

style_eq_refl : (o : Option InteractionStyle) → option_eq style_eq o o ≡ true
unfolding style_eq
style_eq_refl = option_eq_refl style_eq (λ s. nat_eq_refl _)

relationship_kind_eq_refl :
    (o : Option CodeRelationshipKind) → option_eq relationship_kind_eq o o ≡ true
unfolding relationship_kind_eq
relationship_kind_eq_refl = option_eq_refl relationship_kind_eq (λ k. nat_eq_refl _)

ruleset same = (
  eq_refl, text_eq_refl, tags_eq_refl, object_eq_refl, metadata_eq_refl, external_eq_refl,
  nat_eq_refl, style_eq_refl, relationship_kind_eq_refl,
)

pub node_changes_self : (n : Node) → node_changes n n ≡ []
unfolding node_changes kind_eq
node_changes_self n = simp same

pub relationship_changes_self : (r : Relationship) → relationship_changes r r ≡ []
relationship_changes_self r = unfold relationship_changes in simp same
