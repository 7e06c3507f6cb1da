-- ===== src/Common/Outcomes.antt =====
-- What a Go function that may fail or panic does.
use Prim.Native.String.{String}
use mathlib.Core.Logic.{◌⊎◌, inl, inr}
use mathlib.Core.Path.{◌≡◌, refl}
use native.Mathlib.Omega.{arith}
use helm_broker.Common.Errors.{Error, wrap, Result, ok, err}

pub data Outcome (A : Type 0) : Type 0 where
  done : A → Outcome A
  failed_with : Error → Outcome A
  panicked : Outcome A

module _ {A : Type 0} where
  abbrev pub outcome_of : Result A → Outcome A
  outcome_of (ok a) = done a
  outcome_of (err e) = failed_with e

  -- `errors.Wrap` of the error that a call returns.
  abbrev pub wrap_outcome : String → Outcome A → Outcome A
  wrap_outcome message (done a) = done a
  wrap_outcome message (failed_with e) = failed_with (wrap message e)
  wrap_outcome message panicked = panicked

module _ {A B : Type 0} where
  abbrev pub and_then : Outcome A → (A → Outcome B) → Outcome B
  and_then (done a) f = f a
  and_then (failed_with e) f = failed_with e
  and_then panicked f = panicked

pub done-injective : {A : Type 0} {a b : A} → done a ≡ done b → a ≡ b
done-injective h = ground arith

pub Outcome-cases :
    {A : Type 0} (r : Outcome A)
    → ((a : A) × (r ≡ done a)) ⊎ (((e : Error) × (r ≡ failed_with e)) ⊎ (r ≡ panicked))
Outcome-cases (done a) = inl (a, refl)
Outcome-cases (failed_with e) = inr (inl (e, refl))
Outcome-cases panicked = inr (inr refl)
