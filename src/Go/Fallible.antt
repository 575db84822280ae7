-- ===== src/Go/Fallible.antt =====
-- Actions that return an error value, chained: the first error ends the chain and is returned.
use syncflux.Go.{Outcome, ret, panic, Result, ok, err, Action}

abbrev pub Fallible : Type 0 → Type 0 → Type 0
Fallible W A = Action W (Result A)

infixl 5 ◌>>=◌
abbrev pub ◌>>=◌ : {W A B : Type 0} → Fallible W A → (A → Fallible W B) → Fallible W B
◌>>=◌ m f w =
    let (r, w') = m w in
    elim r [ panic ↦ (panic, w') | ret r' ↦ elim r' [ ok a ↦ f a w' | err e ↦ (ret (err e), w') ] ]

module _ {W A : Type 0} where
  abbrev pub lift : Result A → Fallible W A
  lift r w = (ret r, w)

  -- An action that returns no error.
  abbrev pub plain : Action W A → Fallible W A
  plain m w = let (r, w') = m w in elim r [ panic ↦ (panic, w') | ret a ↦ (ret (ok a), w') ]

-- What a chain promises of its value, when it returns one and no error.
abbrev pub Ensures : {A : Type 0} → (A → Type 0) → Outcome (Result A) → Type 0
Ensures P panic = Unit
Ensures P (ret (err e)) = Unit
Ensures P (ret (ok a)) = P a
