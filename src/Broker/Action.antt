-- ===== src/Broker/Action.antt =====
-- Request handlers: functions on the state that return a response, an HTTP error or a panic.
pub mod Inversion
pub mod Keeps
pub mod Runs
use helm_broker.Common.{
  ℕ, String, Bool, true, false, Option, none, some, Error, Result, ok, err, wrap, is_not_found,
  if◌then◌else◌,
}

-- `osb.HTTPStatusCodeError`; the message is kept as the error that is printed into it.
pub record HttpError : Type 0 where
  pub status_code : ℕ
  pub error_message : Error

pub data Outcome (A : Type 0) : Type 0 where
  done : A → Outcome A
  failed : HttpError → Outcome A
  panicked : Outcome A

abbrev pub Action : Type 0 → Type 0 → Type 0
Action S A = S → Outcome A × S

abbrev pub bad_request : ℕ
bad_request = 400

abbrev pub not_found_status : ℕ
not_found_status = 404

abbrev pub conflict : ℕ
conflict = 409

abbrev pub internal_server_error : ℕ
internal_server_error = 500

module _ {S A : Type 0} where
  unfoldable pub pure : A → Action S A
  pure a s = (done a, s)

  unfoldable pub fail : ℕ → Error → Action S A
  fail status e s = (failed (record { status_code = status; error_message = e }), s)

  -- A read of the state that may fail; the status depends on the error.
  unfoldable pub read : (Error → ℕ) → String → (S → Result A) → Action S A
  unfolding fail
  read status message f s = elim (f s) [
    | ok a ↦ (done a, s)
    | err e ↦ fail (status e) (wrap message e) s
  ]

  -- A write of the state that may fail.
  unfoldable pub write : ℕ → String → (S → Result A × S) → Action S A
  unfolding fail
  write status message f s =
      let (r, s') = f s in elim r [ ok a ↦ (done a, s') | err e ↦ fail status (wrap message e) s' ]

module _ {S : Type 0} where
  -- `if !test { return … }`
  unfoldable pub require : Bool → ℕ → Error → Action S (Unit {0})
  unfolding fail
  require true status e s = (done tt, s)
  require false status e s = fail status e s

module _ {S A B : Type 0} where
  abbrev pub continue : Outcome A → (A → Action S B) → Action S B
  continue (done a) f s = f a s
  continue (failed e) f s = (failed e, s)
  continue panicked f s = (panicked, s)

  infixl 10 ◌>>=◌
  unfoldable pub ◌>>=◌ : Action S A → (A → Action S B) → Action S B
  -- opening this opens the other actions too
  unfolding pure fail read write require
  ◌>>=◌ m f s = let (r, s') = m s in continue r f s'

module _ {S B : Type 0} where
  infixl 10 ◌>>◌
  abbrev pub ◌>>◌ : Action S (Unit {0}) → Action S B → Action S B
  m >> k = m >>= λ _. k

-- A storage write that returns only an error.
abbrev pub unit_result : {S : Type 0} → (S → Option Error × S) → S → Result (Unit {0}) × S
unit_result f s = let (e, s') = f s in (elim e [ none ↦ ok tt | some e' ↦ err e' ], s')

-- 400 for a missing element, and 500 for any other error of the storage.
abbrev pub missing_is_bad_request : Error → ℕ
missing_is_bad_request e = if is_not_found e then bad_request else internal_server_error
