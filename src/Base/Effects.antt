-- ===== src/Base/Effects.antt =====
-- Go's `(value, error)` results over a program state: the error, the outcome of a call, the
-- chain of calls that returns at the first error, and what a call ensures on both outcomes.
use Prim.Native.String.{String}
use mathlib.Core.Path.{◌≡◌, refl, subst}
use mathlib.Core.Logic.{◌⊎◌, inl, inr}

-- The sentinel of service/errors.go that an error wraps, if it wraps one.
pub data ErrorKind : Type 0 where
  not_found invalid_input invalid_credentials conflict other : ErrorKind

pub record Error : Type 0 where
  pub kind : ErrorKind
  pub text : String

pub data Result {ℓ} (A : Type ℓ) : Type ℓ where
  ok : A → Result A
  err : Error → Result A

abbrev pub M : Type 0 → Type 0 → Type 0
M S A = S → Result A × S

module _ {S A : Type 0} where
  abbrev pub pure : A → M S A
  pure a s = (ok a, s)

  abbrev pub throw : Error → M S A
  throw e s = (err e, s)

  -- The call whose error the caller inspects itself.
  abbrev pub try : M S A → M S (Result A)
  try m s = (ok (m s).0, (m s).1)

  abbrev pub lift : Result A → M S A
  lift r s = (r, s)

  unfoldable pub map_err_of : (Error → Error) → Result A × S → Result A × S
  map_err_of f (ok a, s) = (ok a, s)
  map_err_of f (err e, s) = (err (f e), s)

  abbrev pub map_err : (Error → Error) → M S A → M S A
  map_err f m s = map_err_of f (m s)

module _ {S A B : Type 0} where
  unfoldable pub run_next : (A → M S B) → Result A × S → Result B × S
  run_next f (ok a, s) = f a s
  run_next f (err e, s) = (err e, s)

infixl 5 ◌>>=◌ ◌>>◌
abbrev pub ◌>>=◌ : {S A B : Type 0} → M S A → (A → M S B) → M S B
◌>>=◌ m f s = run_next f (m s)

abbrev pub ◌>>◌ : {S B : Type 0} → M S (Unit {0}) → M S B → M S B
◌>>◌ m k s = run_next (λ _. k) (m s)

-- What holds after a call: `P` of its value and the state, or `Q` of its error and the state.
pub data Ensures {ℓ} {S A : Type 0} (P : A → S → Type ℓ) (Q : Error → S → Type ℓ)
    : Result A × S → Type ℓ where
  returns : {a : A} {s : S} → P a s → Ensures P Q (ok a, s)
  fails : {e : Error} {s : S} → Q e s → Ensures P Q (err e, s)

module _ {ℓ} {S A : Type 0} {P : A → S → Type ℓ} {Q : Error → S → Type ℓ} where
  pub Ensures-ok : {a : A} {s : S} → Ensures P Q (ok a, s) → P a s
  Ensures-ok (returns h) = h

  pub Ensures-err : {e : Error} {s : S} → Ensures P Q (err e, s) → Q e s
  Ensures-err (fails h) = h

  -- From less to more.
  pub Ensures-mono {κ} :
      {P' : A → S → Type κ} {Q' : Error → S → Type κ} {r : Result A × S}
      → Ensures P Q r
      → ((a : A) (s : S) → P a s → P' a s)
      → ((e : Error) (s : S) → Q e s → Q' e s)
      → Ensures P' Q' r
  Ensures-mono (returns h) p q = returns (p _ _ h)
  Ensures-mono (fails h) p q = fails (q _ _ h)

  -- What is ensured holds of the outcome that there was.
  pub Ensures-eq-ok : {r : Result A × S} {a : A} {s : S} → Ensures P Q r → r ≡ (ok a, s) → P a s
  Ensures-eq-ok h e = Ensures-ok (subst (Ensures P Q) e h)

  pub Ensures-eq-err :
      {r : Result A × S} {x : Error} {s : S} → Ensures P Q r → r ≡ (err x, s) → Q x s
  Ensures-eq-err h e = Ensures-err (subst (Ensures P Q) e h)

-- The chain of two calls.
pub Ensures-run_next {ℓ} :
    {S A B : Type 0} {P : A → S → Type ℓ} {P' : B → S → Type ℓ} {Q : Error → S → Type ℓ}
    (f : A → M S B) {r : Result A × S}
    → Ensures P Q r
    → ((a : A) (s : S) → P a s → Ensures P' Q (f a s))
    → Ensures P' Q (run_next f r)
unfolding run_next
Ensures-run_next f (returns h) k = k _ _ h
Ensures-run_next f (fails h) k = fails h

-- Wrapping an error changes no state.
pub Ensures-map_err {ℓ} :
    {S A : Type 0} {P : A → S → Type ℓ} {Q : S → Type ℓ} (f : Error → Error) {r : Result A × S}
    → Ensures P (λ _ s. Q s) r
    → Ensures P (λ _ s. Q s) (map_err_of f r)
unfolding map_err_of
Ensures-map_err f (returns h) = returns h
Ensures-map_err f (fails h) = fails h

pub Result-cases {ℓ} :
    {A : Type ℓ} (r : Result A) → ((a : A) × (r ≡ ok a)) ⊎ ((e : Error) × (r ≡ err e))
Result-cases (ok a) = inl (a, refl)
Result-cases (err e) = inr (e, refl)

-- A call whose error the caller inspects ensures what it would have, on either outcome.
abbrev pub Outcome :
    {S A : Type 0} → (A → S → Type 0) → (Error → S → Type 0) → Result A → S → Type 0
Outcome P Q (ok a) s = P a s
Outcome P Q (err e) s = Q e s

module _ {S A : Type 0} {P : A → S → Type 0} {Q : Error → S → Type 0} where
  pub Ensures-Outcome : {r : Result A × S} → Ensures P Q r → Outcome P Q r.0 r.1
  Ensures-Outcome (returns h) = h
  Ensures-Outcome (fails h) = h

  pub Ensures-try :
      {Q' : Error → S → Type 0} (m : M S A) (s : S)
      → Ensures P Q (m s)
      → Ensures (Outcome P Q) Q' (try m s)
  Ensures-try m s h = returns (Ensures-Outcome h)

-- What holds on both outcomes holds of the state.
pub Ensures-state :
    {S A : Type 0} {K : S → Type 0} {r : Result A × S} → Ensures (λ _ s. K s) (λ _ s. K s) r → K r.1
Ensures-state (returns h) = h
Ensures-state (fails h) = h

-- Every call ends in one of the two ways.
pub Ensures-self :
    {S A : Type 0} (r : Result A × S) → Ensures (λ a s. r ≡ (ok a, s)) (λ e s. r ≡ (err e, s)) r
Ensures-self (ok a, s) = returns refl
Ensures-self (err e, s) = fails refl
