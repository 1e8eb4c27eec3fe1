-- ===== src/Exec.antt =====
-- Methods that mutate an object and may throw. What was written before a throw stays written, so
-- the state comes back beside the error too.
pub mod Keeps
use noware.Prelude.{Bool, if◌then◌else◌, List, [], ◌∷◌}

pub data Result {ℓ} (E A : Type ℓ) : Type ℓ where
  ok : A → Result E A
  throws : E → Result E A

abbrev pub Exec : Type 0 → Type 0 → Type 0 → Type 0
Exec S E A = S → Result E A × S

module _ {S E A : Type 0} where
  unfoldable pub pure : A → Exec S E A
  pure a s = (ok a, s)

  unfoldable pub throw : E → Exec S E A
  throw e s = (throws e, s)

unfoldable pub modify : {S E : Type 0} → (S → S) → Exec S E (Unit {0})
modify f s = (ok tt, f s)

-- `if (test) throw e`
unfoldable pub throw_if : {S E : Type 0} → Bool → E → Exec S E (Unit {0})
throw_if b e s = if b then (throws e, s) else (ok tt, s)

module _ {S E A B : Type 0} where
  abbrev pub continue : Result E A → (A → Exec S E B) → Exec S E B
  continue (ok a) f s = f a s
  continue (throws e) f s = (throws e, s)

  infixl 10 ◌>>=◌ ◌>>◌
  -- Opening this opens the actions above too.
  unfoldable pub ◌>>=◌ : Exec S E A → (A → Exec S E B) → Exec S E B
  unfolding pure throw modify throw_if
  ◌>>=◌ m f s = let (r, s') = m s in continue r f s'

  abbrev pub ◌>>◌ : Exec S E A → Exec S E B → Exec S E B
  m >> n = m >>= λ _. n

-- `for (const a of as) body(a)`
unfoldable pub for_each :
    {S E A : Type 0} → List A → (A → Exec S E (Unit {0})) → Exec S E (Unit {0})
unfolding ◌>>=◌
for_each [] body = pure tt
for_each (a ∷ rest) body = do body a; for_each rest body
