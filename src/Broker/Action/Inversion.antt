-- ===== src/Broker/Action/Inversion.antt =====
-- What a handler that returned must have done on the way: a rule for each kind of first action. Each
-- hands what it finds to the rest of the proof.
use helm_broker.Common.{
  ℕ, String, ◌≡◌, refl, Bool, true, false, Option, none, Error, Result, ok, Result-cases, inl, inr,
  Option-cases, arith,
}
use helm_broker.Broker.Action.{
  Outcome, done, failed, panicked, Action, pure, read, write, require, unit_result, ◌>>=◌, ◌>>◌,
  continue,
}

module _ {S A B : Type 0} {P : Type 0} {x : B} {t : S} where
  continue-eq-done :
      (r : Outcome A) (f : A → Action S B) (s : S)
      → continue r f s ≡ (done x, t)
      → ((a : A) → r ≡ done a → f a s ≡ (done x, t) → P)
      → P
  continue-eq-done (done a) f s h use' = use' a refl h
  continue-eq-done (failed e) f s h use' = absurd (ground arith)
  continue-eq-done panicked f s h use' = absurd (ground arith)

  -- A sequence that returned: its first action did, and the rest did from where that left the state.
  pub after_action :
      (m : Action S A) (f : A → Action S B) (s : S)
      → (m >>= f) s ≡ (done x, t)
      → ((a : A) → (m s).0 ≡ done a → f a (m s).1 ≡ (done x, t) → P)
      → P
  unfolding ◌>>=◌
  after_action m f s h use' = continue-eq-done (m s).0 f (m s).1 h use'

  pub after_read :
      (status : Error → ℕ) (message : String) (g : S → Result A) (f : A → Action S B) (s : S)
      → (read status message g >>= f) s ≡ (done x, t)
      → ((a : A) → g s ≡ ok a → f a s ≡ (done x, t) → P)
      → P
  unfolding ◌>>=◌
  after_read status message g f s h use' = elim (Result-cases (g s)) [
    | inl (e, q) ↦ absurd (ground arith)
    | inr (a, q) ↦ use' a q (ground arith)
  ]

  pub after_write :
      (status : ℕ) (message : String) (g : S → Result A × S) (f : A → Action S B) (s : S)
      → (write status message g >>= f) s ≡ (done x, t)
      → ((a : A) (s' : S) → g s ≡ (ok a, s') → f a s' ≡ (done x, t) → P)
      → P
  unfolding ◌>>=◌
  after_write status message g f s h use' = elim (Result-cases (g s).0) [
    | inl (e, q) ↦ absurd (ground arith)
    | inr (a, q) ↦ use' a (g s).1 (λ i. (q i, (g s).1)) (ground arith)
  ]

module _ {S B : Type 0} {P : Type 0} {x : B} {t : S} where
  pub after_require :
      (b : Bool) (status : ℕ) (e : Error) (k : Action S B) (s : S)
      → (require b status e >> k) s ≡ (done x, t)
      → (b ≡ true → k s ≡ (done x, t) → P)
      → P
  unfolding ◌>>=◌
  after_require true status e k s h use' = use' refl h
  after_require false status e k s h use' = absurd (ground arith)

  -- A write that returns no more than an error.
  pub after_unit_write :
      (status : ℕ) (message : String) (g : S → Option Error × S) (k : Action S B) (s : S)
      → (write status message (unit_result g) >> k) s ≡ (done x, t)
      → ((s' : S) → g s ≡ (none, s') → k s' ≡ (done x, t) → P)
      → P
  unfolding ◌>>=◌
  after_unit_write status message g k s h use' = elim (Option-cases (g s).0) [
    | inr (e, q) ↦ absurd (ground arith)
    | inl q ↦ use' (g s).1 (λ i. (q i, (g s).1)) (ground arith)
  ]

pub pure-eq-done :
    {S A : Type 0} (a : A) (s : S) {x : A} {t : S} → pure a s ≡ (done x, t) → (a ≡ x) × (s ≡ t)
unfolding pure
pure-eq-done a s h = ground arith
