-- ===== src/Go.antt =====
-- What the translation needs of Go itself: errors as values, and an action that may panic.
pub mod Strconv
pub mod Time
pub mod Text
pub mod Strings
pub mod Fallible
pub mod Duration
use syncflux.Prelude.{
  String, Option, none, some, Bool, true, false, ◌≡◌, ◌≢◌, refl, ap, ◌⊎◌, inl, inr,
}

-- `error` values: those that come from outside (their text), and `errMaxRetriesReached` of
-- pkg/agent/try/try.go, the only error that the program compares with.
pub data Error : Type 0 where
  external : String → Error
  max_retries_reached : Error

-- A run-time panic ends the process: what follows it does not happen.
pub data Outcome {ℓ} (A : Type ℓ) : Type ℓ where
  ret : A → Outcome A
  panic : Outcome A

pub Outcome-cases {ℓ} : {A : Type ℓ} (o : Outcome A) → (o ≡ panic) ⊎ ((a : A) × (o ≡ ret a))
Outcome-cases (ret a) = inr (a, refl)
Outcome-cases panic = inl refl

-- It does not panic.
abbrev pub Returns {ℓ} : {A : Type ℓ} → Outcome A → Type ℓ
Returns {A = A} o = (a : A) × (o ≡ ret a)

pub Returns-of {ℓ} : {A : Type ℓ} (o : Outcome A) → o ≢ panic → Returns o
Returns-of (ret a) h = (a, refl)
Returns-of panic h = absurd (h refl)

-- A function with effects on the outside world `W`; what was done before a panic stays done.
abbrev pub Action : Type 0 → Type 0 → Type 0
Action W A = W → Outcome A × W

module _ {W : Type 0} {A : Type 0} where
  abbrev pub pure : A → Action W A
  pure a w = (ret a, w)

  abbrev pub fail : Action W A
  fail w = (panic, w)

  -- A call that cannot panic.
  abbrev pub call : (W → A × W) → Action W A
  call f w = let (a, w') = f w in (ret a, w')

  -- A dereference of a pointer that may be nil.
  abbrev pub deref : Option A → Action W A
  deref none = fail
  deref (some a) = pure a

infixl 5 ◌>>=◌ ◌>>◌
abbrev pub ◌>>=◌ : {W A B : Type 0} → Action W A → (A → Action W B) → Action W B
◌>>=◌ m f w = let (r, w') = m w in elim r [ ret a ↦ f a w' | panic ↦ (panic, w') ]

-- A chain depends on what its start gives alone.
pub >>=_at :
    {W A D : Type 0} (m m' : Action W A) (f : A → Action W D) (w w' : W)
    → m w ≡ m' w'
    → (m >>= f) w ≡ (m' >>= f) w'
>>=_at {W = W} {A = A} m m' f w w' e =
    ap (λ (r : Outcome A × W). elim r.0 [ ret a ↦ f a r.1 | panic ↦ (panic, r.1) ]) e

abbrev pub ◌>>◌ : {W A B : Type 0} → Action W A → Action W B → Action W B
m >> k = m >>= λ _. k

-- err == nil
abbrev pub is_nil {ℓ} : {A : Type ℓ} → Option A → Bool
is_nil none = true
is_nil (some _) = false

-- A Go pair of a value and an error, where the error is nil exactly when the value counts.
pub data Result {ℓ} (A : Type ℓ) : Type ℓ where
  ok : A → Result A
  err : Error → Result A

pub Result-cases {ℓ} :
    {A : Type ℓ} (r : Result A) → ((e : Error) × (r ≡ err e)) ⊎ ((a : A) × (r ≡ ok a))
Result-cases (ok a) = inr (a, refl)
Result-cases (err e) = inl (e, refl)
