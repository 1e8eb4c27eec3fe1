-- ===== src/Exec/Keeps.antt =====
-- Invariants of actions, by a rule for each way to build one.
use noware.Prelude.{Bool, true, false, List, [], ◌∷◌}
use noware.Exec.{Result, ok, throws, Exec, pure, throw, modify, throw_if, ◌>>=◌, continue, for_each}

-- The action keeps `P`, whether it returns or throws.
pub record Keeps {S E A : Type 0} (P : S → Type 0) (m : Exec S E A) : Type 0 where
  pub at : (s : S) → P s → P (m s).1

module _ {S E : Type 0} {P : S → Type 0} where
  pub Keeps-modify : (f : S → S) → ((s : S) → P s → P (f s)) → Keeps P (modify {E = E} f)
  unfolding modify
  Keeps-modify f h = record { at = h }

  pub Keeps-throw_if : (b : Bool) (e : E) → Keeps P (throw_if b e)
  unfolding throw_if
  Keeps-throw_if true e = record { at = λ s h. h }
  Keeps-throw_if false e = record { at = λ s h. h }

module _ {S E A : Type 0} {P : S → Type 0} where
  pub Keeps-pure : (a : A) → Keeps P (pure {E = E} a)
  unfolding pure
  Keeps-pure a = record { at = λ s h. h }

  pub Keeps-throw : (e : E) → Keeps P (throw {A = A} e)
  unfolding throw
  Keeps-throw e = record { at = λ s h. h }

module _ {S E A B : Type 0} {P Q : S → Type 0} where
  continues :
      (r : Result E A) (f : A → Exec S E B) (s : S)
      → ((a : A) → Keeps Q (f a))
      → ((s : S) → Q s → P s)
      → Q s
      → P (continue r f s).1
  continues (ok a) f s kf back h = back _ ((kf a).at s h)
  continues (throws e) f s kf back h = back s h

  -- The first action makes `Q` of `P`, and the rest keeps `Q`.
  pub Keeps-enter :
      (m : Exec S E A) (f : A → Exec S E B)
      → ((s : S) → P s → Q (m s).1)
      → ((a : A) → Keeps Q (f a))
      → ((s : S) → Q s → P s)
      → Keeps P (m >>= f)
  unfolding ◌>>=◌
  Keeps-enter m f enter kf back = record {
    at = λ s h. let (r, s') = m s in continues r f s' kf back (enter s h);
  }

-- The action takes `P` to `Q`, whether it returns or throws.
pub record Leads {S E A : Type 0} (P Q : S → Type 0) (m : Exec S E A) : Type 0 where
  pub at : (s : S) → P s → Q (m s).1

module _ {S E A : Type 0} {P : S → Type 0} where
  pub Keeps-Leads : (m : Exec S E A) → Keeps P m → Leads P P m
  Keeps-Leads m k = record { at = k.at }

module _ {S E A B : Type 0} {Q R : S → Type 0} where
  goes_on :
      (r : Result E A) (f : A → Exec S E B) (s : S)
      → ((a : A) → Leads R Q (f a))
      → ((s : S) → R s → Q s)
      → R s
      → Q (continue r f s).1
  goes_on (ok a) f s kf leave h = (kf a).at s h
  goes_on (throws e) f s kf leave h = leave s h

module _ {S E A B : Type 0} {P Q R : S → Type 0} where
  pub Leads-bind :
      (m : Exec S E A) (f : A → Exec S E B)
      → Leads P R m
      → ((a : A) → Leads R Q (f a))
      → ((s : S) → R s → Q s)
      → Leads P Q (m >>= f)
  unfolding ◌>>=◌
  Leads-bind m f km kf leave = record {
    at = λ s h. let (r, s') = m s in goes_on r f s' kf leave (km.at s h);
  }

module _ {S E A B : Type 0} {P : S → Type 0} where
  pub Keeps-bind :
      (m : Exec S E A) (f : A → Exec S E B)
      → Keeps P m
      → ((a : A) → Keeps P (f a))
      → Keeps P (m >>= f)
  Keeps-bind m f km kf = Keeps-enter m f km.at kf (λ s h. h)

module _ {S E A : Type 0} {P : S → Type 0} where
  pub Keeps-for_each :
      (l : List A) (body : A → Exec S E (Unit {0}))
      → ((a : A) → Keeps P (body a))
      → Keeps P (for_each l body)
  unfolding for_each
  Keeps-for_each [] body h = Keeps-pure tt
  Keeps-for_each (a ∷ l) body h = Keeps-bind (body a) _ (h a) (λ _. Keeps-for_each l body h)

pub ruleset keeps_rules =
    (Keeps-modify, Keeps-throw_if, Keeps-pure, Keeps-throw, Keeps-bind, Keeps-for_each)
