-- ===== src/Base/Keeping.antt =====
-- What every call of a program keeps, whether it succeeds or fails: the chain of such calls keeps it.
use signal_flow.Base.Effects.{Result, ok, err, Error, M, run_next, map_err_of}

module _ {S : Type 0} (K : S → Type 0) where
  abbrev pub Keeps : {X : Type 0} → (S → X × S) → Type 0
  Keeps m = (s : S) → K s → K (m s).1

  module _ {A B : Type 0} where
    pub run_next-keeps :
        (f : A → M S B) (out : Result A × S)
        → K out.1
        → ((a : A) → Keeps (f a))
        → K (run_next f out).1
    unfolding run_next
    run_next-keeps f (ok a, s) h k = k a s h
    run_next-keeps f (err e, s) h k = h

  pub map_err_of-keeps :
      {A : Type 0} (f : Error → Error) (out : Result A × S) → K out.1 → K (map_err_of f out).1
  unfolding map_err_of
  map_err_of-keeps f (ok a, s) h = h
  map_err_of-keeps f (err e, s) h = h
