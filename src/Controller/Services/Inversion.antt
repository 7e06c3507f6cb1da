-- ===== src/Controller/Services/Inversion.antt =====
-- What a task that returned must have done on the way.
use helm_broker.Common.{if◌then◌else◌, String, ◌≡◌, refl, ap, Error, arith, Bool, true, false}
use helm_broker.Controller.Services.{
  Outcome, done, failed_with, panicked, Task, return, throw, wrapping, wrap_outcome, continue,
  ◌>>=◌,
}

module _ {S A B : Type 0} {P : Type 0} {x : B} {t : S} where
  continue-eq-done :
      (r : Outcome A) (f : A → Task S B) (s : S)
      → continue r f s ≡ (done x, t)
      → ((a : A) → r ≡ done a → f a s ≡ (done x, t) → P)
      → P
  continue-eq-done (done a) f s h use' = use' a refl h
  continue-eq-done (failed_with e) f s h use' = absurd (ground arith)
  continue-eq-done panicked f s h use' = absurd (ground arith)

  -- A sequence that returned: its first task did, and the rest did from there.
  pub after_task :
      (m : Task S A) (f : A → Task S B) (s : S)
      → (m >>= f) s ≡ (done x, t)
      → ((a : A) (s' : S) → m s ≡ (done a, s') → f a s' ≡ (done x, t) → P)
      → P
  unfolding ◌>>=◌
  after_task m f s h use' =
      continue-eq-done (m s).0 f (m s).1 h λ a q k. use' a (m s).1 (λ i. (q i, (m s).1)) k

wrapped-eq-done :
    {A : Type 0} (message : String) (r : Outcome A) {a : A}
    → wrap_outcome message r ≡ done a
    → r ≡ done a
wrapped-eq-done message (done a) h = h
wrapped-eq-done message (failed_with e) h = absurd (ground arith)
wrapped-eq-done message panicked h = absurd (ground arith)

-- A task under `errors.Wrap` that returned.
pub wrapping-eq-done :
    {S A : Type 0} (message : String) (m : Task S A) (s : S) {a : A} {t : S}
    → wrapping message m s ≡ (done a, t)
    → m s ≡ (done a, t)
unfolding wrapping
wrapping-eq-done message m s h =
    λ i. (wrapped-eq-done message (m s).0 (ap (λ p. p.0) h) i, (ap (λ p. p.1) h) i)

pub return-eq-done :
    {S A : Type 0} (a : A) (s : S) {x : A} {t : S} → return a s ≡ (done x, t) → (a ≡ x) × (s ≡ t)
return-eq-done a s h = ground arith

-- The task that a test chose.
pub either_task :
    {S A P : Type 0} (b : Bool) (m n : Task S A) (s : S) {r : Outcome A × S}
    → (if b then m else n) s ≡ r
    → (b ≡ true → m s ≡ r → P)
    → (b ≡ false → n s ≡ r → P)
    → P
either_task true m n s h f g = f refl h
either_task false m n s h f g = g refl h

pub throw-no_result : {S A : Type 0} {e : Error} {s t : S} {a : A} → ¬ (throw e s ≡ (done a, t))
throw-no_result h = ground arith
