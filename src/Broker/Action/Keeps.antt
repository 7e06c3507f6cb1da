-- ===== src/Broker/Action/Keeps.antt =====
-- Handlers keep a property of the state if each of their actions does: a rule for each kind of action.
use helm_broker.Common.{
  ℕ, String, Bool, true, false, Error, Result, Result-cases, inl, inr, if◌then◌else◌,
}
use helm_broker.Broker.Action.{
  Outcome, done, failed, panicked, Action, pure, fail, read, write, require, ◌>>=◌, continue,
}

-- The writes of `g` keep the property `P`.
abbrev pub KeepsWrite : {S R : Type 0} → (S → Type 0) → (S → R × S) → Type 0
KeepsWrite {S} P g = (s : S) → P s → P (g s).1

module _ {S : Type 0} (P : S → Type 0) where
  continue-KeepsWrite :
      {A B : Type 0} (r : Outcome A) (f : A → Action S B)
      → ((a : A) → KeepsWrite P (f a))
      → KeepsWrite P (continue r f)
  continue-KeepsWrite (done a) f k s p = k a s p
  continue-KeepsWrite (failed e) f k s p = p
  continue-KeepsWrite panicked f k s p = p

  pub then-KeepsWrite :
      {A B : Type 0} (m : Action S A) (f : A → Action S B)
      → KeepsWrite P m
      → ((a : A) → KeepsWrite P (f a))
      → KeepsWrite P (m >>= f)
  unfolding ◌>>=◌
  then-KeepsWrite m f km kf s p = continue-KeepsWrite (m s).0 f kf (m s).1 (km s p)

  pub pure-KeepsWrite : {A : Type 0} (a : A) → KeepsWrite P (pure a)
  unfolding pure
  pure-KeepsWrite a s p = p

  pub fail-KeepsWrite : (A : Type 0) (status : ℕ) (e : Error) → KeepsWrite P (fail {A = A} status e)
  unfolding fail
  fail-KeepsWrite A status e s p = p

  pub require-KeepsWrite : (b : Bool) (status : ℕ) (e : Error) → KeepsWrite P (require b status e)
  unfolding require fail
  require-KeepsWrite true status e s p = p
  require-KeepsWrite false status e s p = p

  pub read-KeepsWrite :
      {A : Type 0} (status : Error → ℕ) (message : String) (g : S → Result A)
      → KeepsWrite P (read status message g)
  unfolding read fail
  read-KeepsWrite status message g s p = elim (Result-cases (g s)) [
    | inl (e, q) ↦ rw (q, read) p
    | inr (a, q) ↦ rw (q, read) p
  ]

  pub write-KeepsWrite :
      {A : Type 0} (status : ℕ) (message : String) (g : S → Result A × S)
      → KeepsWrite P g
      → KeepsWrite P (write status message g)
  unfolding write fail
  write-KeepsWrite status message g k s p = elim (Result-cases (g s).0) [
    | inl (e, q) ↦ rw (q, write) (k s p)
    | inr (a, q) ↦ rw (q, write) (k s p)
  ]

  pub if-KeepsWrite :
      {A : Type 0} (c : Bool) (m n : Action S A)
      → KeepsWrite P m
      → KeepsWrite P n
      → KeepsWrite P (if c then m else n)
  if-KeepsWrite true m n km kn = km
  if-KeepsWrite false m n km kn = kn
