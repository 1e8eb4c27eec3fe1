-- ===== src/Model/Rows/Levels.antt =====
-- One level of a tree as a flat list: the children of each parent are found again.
use noware.Prelude.{
  String, Bool, true, false, not, ◌&&◌, ◌≡◌, refl, sym, ap, ◌∙◌, Option, some, List, [], ◌∷◌, ◌++◌,
  map, arith, ◌==◌, eq_iff, eq_refl, filter, All, All-append, mem, mem-cons,
}
use mathlib.Core.Path.{fun_ext}
use mathlib.Core.List.{append_assoc, append-nil}
use noware.Model.Rows.{is_child}

pub map-cong :
    {A B : Type 0} (f g : A → B) (l : List A) → All (λ x. f x ≡ g x) l → map f l ≡ map g l
map-cong f g [] h = refl
map-cong f g (x ∷ l) h = rw h.0 (ap (◌∷◌ (g x)) (map-cong f g l h.1))

pub map_id : {A : Type 0} (f : A → A) (l : List A) → All (λ x. f x ≡ x) l → map f l ≡ l
map_id f [] h = refl
map_id f (x ∷ l) h = rw h.0 (ap (◌∷◌ x) (map_id f l h.1))

pub filter-map :
    {A B : Type 0} (p : B → Bool) (f : A → B) (l : List A)
    → filter p (map f l) ≡ map f (filter (λ x. p (f x)) l)
filter-map p f [] = refl
filter-map p f (x ∷ l) = ground (arith, filter-map p f l)

filter-append :
    {A : Type 0} (p : A → Bool) (l m : List A) → filter p (l ++ m) ≡ filter p l ++ filter p m
filter-append p [] m = refl
filter-append p (x ∷ l) m = ground (arith, filter-append p l m)

pub filter_all : {A : Type 0} (p : A → Bool) (l : List A) → All (λ x. p x ≡ true) l → filter p l ≡ l
filter_all p [] h = refl
filter_all p (x ∷ l) h = ground (arith, filter_all p l h.1)

filter_none : {A : Type 0} (p : A → Bool) (l : List A) → All (λ x. p x ≡ false) l → filter p l ≡ []
filter_none p [] h = refl
filter_none p (x ∷ l) h = ground (arith, filter_none p l h.1)

pub All-map :
    {A : Type 0} (P Q : A → Type 0) (l : List A) → ((x : A) → P x → Q x) → All P l → All Q l
All-map P Q [] f h = tt
All-map P Q (x ∷ l) f h = (f x h.0, All-map P Q l f h.1)

pub map-map :
    {A B C : Type 0} (g : B → C) (f : A → B) (l : List A) → map g (map f l) ≡ map (λ x. g (f x)) l
map-map g f [] = refl
map-map g f (x ∷ l) = ap (◌∷◌ (g (f x))) (map-map g f l)

-- No id twice.
abbrev pub IsDistinct : List String → Type 0
IsDistinct [] = Unit
IsDistinct (x ∷ l) = (mem x l ≡ false) × IsDistinct l

abbrev pub concat_map : {A B : Type 0} → (A → List B) → List A → List B
concat_map f [] = []
concat_map f (x ∷ l) = f x ++ concat_map f l

pub concat_map-append :
    {A B : Type 0} (f : A → List B) (l m : List A)
    → concat_map f (l ++ m) ≡ concat_map f l ++ concat_map f m
concat_map-append f [] m = refl
concat_map-append f (x ∷ l) m =
    ap (◌++◌ (f x)) (concat_map-append f l m) ∙ sym (append_assoc (f x) _ _)

module _ {A B : Type 0} (key : A → String) (kids : A → List B) (parent : B → String) where
  -- Each child names its parent.
  abbrev pub NamesParent : A → Type 0
  NamesParent x = All (λ b. parent b ≡ key x) (kids x)

  -- The children of a list of parents that have the key `k`.
  abbrev found : String → List B → List B
  found k = filter λ b. is_child k (some (parent b))

  own :
      (k : String) (l : List B)
      → All (λ b. parent b ≡ k) l
      → All (λ b. is_child k (some (parent b)) ≡ true) l
  own k [] h = tt
  own k (b ∷ l) h = (ground (arith, h.0, eq_iff (parent b) k), own k l h.1)

  strange :
      (j k : String) (l : List B)
      → (j == k) ≡ false
      → All (λ b. parent b ≡ j) l
      → All (λ b. is_child k (some (parent b)) ≡ false) l
  strange j k [] e h = tt
  strange j k (b ∷ l) e h = (ground (arith, h.0, e), strange j k l e h.1)

  -- No child of parents with other keys is found.
  found_none :
      (k : String) (l : List A)
      → mem k (map key l) ≡ false
      → All NamesParent l
      → found k (concat_map kids l) ≡ []
  found_none k [] e h = refl
  found_none k (x ∷ l) e h =
      let split : ((key x == k) ≡ false) × (mem k (map key l) ≡ false) =
        ground (arith, e, mem-cons k (key x) (map key l)) in
      filter-append _ (kids x) (concat_map kids l)
      ∙ rw (filter_none _ (kids x) (strange (key x) k (kids x) split.0 h.0))
          (found_none k l split.1 h.1)

  later :
      (x : A) (rest l : List A)
      → All NamesParent (x ∷ rest)
      → mem (key x) (map key l) ≡ false
      → All (λ y. found (key y) (concat_map kids rest) ≡ kids y) l
      → All (λ y. found (key y) (kids x ++ concat_map kids rest) ≡ kids y) l
  later x rest [] names e h = tt
  later x rest (y ∷ l) names e h =
      let split : ((key x == key y) ≡ false) × (mem (key x) (map key l) ≡ false) = ground (
        arith,
        e,
        mem-cons (key x) (key y) (map key l),
        eq_iff (key x) (key y),
        eq_iff (key y) (key x),
      ) in
      (
        filter-append _ (kids x) (concat_map kids rest)
            ∙ rw (filter_none _ (kids x) (strange (key x) (key y) (kids x) split.0 names.0)) h.0,
        later x rest l names split.1 h.1,
      )

  -- Among all children, those of a parent are its own, in order.
  pub found-concat_map :
      (l : List A)
      → IsDistinct (map key l)
      → All NamesParent l
      → All (λ x. found (key x) (concat_map kids l) ≡ kids x) l
  found-concat_map [] d h = tt
  found-concat_map (x ∷ l) d h = (
    filter-append _ (kids x) (concat_map kids l)
        ∙ rw (filter_all _ (kids x) (own (key x) (kids x) h.0), found_none (key x) l d.0 h.1)
            (append-nil (kids x)),
    later x l l h d.0 (found-concat_map l d.1 h.1),
  )

  member : (l : List A) → All (λ y. mem (key y) (map key l) ≡ true) l
  member l = weaken l (map key l) (λ y h. h)
    where
      weaken :
          (m : List A) (ids : List String)
          → ((k : String) → mem k (map key m) ≡ true → mem k ids ≡ true)
          → All (λ y. mem (key y) ids ≡ true) m
      weaken [] ids h = tt
      weaken (y ∷ m) ids h = (
        h (key y) (ground (arith, mem-cons (key y) (key y) (map key m), eq_refl (key y))),
        weaken m ids (λ k e. h k (ground (arith, e, mem-cons k (key y) (map key m)))),
      )

  adopted_kids :
      (k : String) (ids : List String) (l : List B)
      → mem k ids ≡ true
      → mem "" ids ≡ false
      → All (λ b. parent b ≡ k) l
      → All (λ b. (not (parent b == "") && mem (parent b) ids) ≡ true) l
  adopted_kids k ids [] m e h = tt
  adopted_kids k ids (b ∷ l) m e h =
      (ground (arith, h.0, eq_iff (parent b) ""), adopted_kids k ids l m e h.1)

  adopted_all :
      (ids : List String) (l : List A)
      → All (λ x. mem (key x) ids ≡ true) l
      → mem "" ids ≡ false
      → All NamesParent l
      → All (λ b. (not (parent b == "") && mem (parent b) ids) ≡ true) (concat_map kids l)
  adopted_all ids [] m e h = tt
  adopted_all ids (x ∷ l) m e h =
      All-append _ (kids x) (concat_map kids l) (adopted_kids (key x) ids (kids x) m.0 e h.0)
        (adopted_all ids l m.1 e h.1)

  -- Every child names one of the parents.
  pub all_adopted :
      (l : List A)
      → mem "" (map key l) ≡ false
      → All NamesParent l
      → All (λ b. (not (parent b == "") && mem (parent b) (map key l)) ≡ true) (concat_map kids l)
  all_adopted l e h = adopted_all (map key l) l (member l) e h

All-split : {A : Type 0} (P : A → Type 0) (xs ys : List A) → All P (xs ++ ys) → All P xs × All P ys
All-split P [] ys h = (tt, h)
All-split P (x ∷ xs) ys h = let (a, b) = All-split P xs ys h.1 in ((h.0, a), b)

All-concat_map :
    {A B : Type 0} (P : B → Type 0) (kids : A → List B) (l : List A)
    → All P (concat_map kids l)
    → All (λ x. All P (kids x)) l
All-concat_map P kids [] h = tt
All-concat_map P kids (x ∷ l) h =
    let (a, b) = All-split P (kids x) (concat_map kids l) h in (a, All-concat_map P kids l b)

All-both : {A : Type 0} (P Q : A → Type 0) (l : List A) → All P l → All Q l → All (λ x. P x × Q x) l
All-both P Q [] h k = tt
All-both P Q (x ∷ l) h k = ((h.0, k.0), All-both P Q l h.1 k.1)

-- Children that are made entries, found by their parent's key and built again.
module _ {A B E C : Type 0} (key : A → String) (kids : A → List B) (parent : B → String)
    (entry : B → E) (parent_of : E → Option String) (build : E → C) (same : B → C) where
  rebuilt :
      ((b : B) → parent_of (entry b) ≡ some (parent b))
      → (k : String) (all own : List B) → filter (λ b. is_child k (some (parent b))) all ≡ own
      → All (λ b. build (entry b) ≡ same b) own
      → map build (filter (λ e. is_child k (parent_of e)) (map entry all)) ≡ map same own
  rebuilt names k all own e h =
      ap (map build) (filter-map (λ e. is_child k (parent_of e)) entry all)
      ∙ ap (λ g. map build (map entry (filter (λ b. is_child k (g b)) all))) (fun_ext names)
      ∙ ap (λ l. map build (map entry l)) e
      ∙ map-map build entry own
      ∙ map-cong (λ b. build (entry b)) same own h

  pub level_lem :
      (l : List A)
      → ((b : B) → parent_of (entry b) ≡ some (parent b))
      → IsDistinct (map key l)
      → All (NamesParent key kids parent) l
      → All (λ b. build (entry b) ≡ same b) (concat_map kids l)
      → All
          (λ x.
            map build (filter (λ e. is_child (key x) (parent_of e)) (map entry (concat_map kids l)))
            ≡ map same (kids x))
          l
  level_lem l names d owned h =
      All-map _ _ l (λ x (e, own). rebuilt names (key x) (concat_map kids l) (kids x) e own)
        (All-both _ _ l (found-concat_map key kids parent l d owned) (All-concat_map _ kids l h))
