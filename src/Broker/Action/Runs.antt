-- ===== src/Broker/Action/Runs.antt =====
-- What a handler does after its first action, by what the action met.
use helm_broker.Common.{
  ℕ, String, ◌≡◌, Bool, true, Option, none, Error, Result, ok, err, wrap, arith,
}
use helm_broker.Broker.Action.{failed, Action, read, write, require, unit_result, ◌>>=◌, ◌>>◌}

module _ {S A B : Type 0} (f : A → Action S B) (s : S) where
  pub read-ok :
      (status : Error → ℕ) (message : String) (g : S → Result A) {a : A}
      → g s ≡ ok a
      → (read status message g >>= f) s ≡ f a s
  unfolding ◌>>=◌
  read-ok status message g e = ground arith

  pub read-err :
      (status : Error → ℕ) (message : String) (g : S → Result A) {e : Error}
      → g s ≡ err e
      → (read status message g >>= f) s
        ≡ (failed (record { status_code = status e; error_message = wrap message e }), s)
  unfolding ◌>>=◌
  read-err status message g e = ground arith

  pub write-ok :
      (status : ℕ) (message : String) (g : S → Result A × S) {a : A} {t : S}
      → g s ≡ (ok a, t)
      → (write status message g >>= f) s ≡ f a t
  unfolding ◌>>=◌
  write-ok status message g e = ground arith

module _ {S B : Type 0} (k : Action S B) (s : S) where
  pub require-true :
      {c : Bool} (status : ℕ) (e : Error) → c ≡ true → (require c status e >> k) s ≡ k s
  unfolding ◌>>=◌
  require-true status e q = ground arith

  pub unit_write-ok :
      (status : ℕ) (message : String) (g : S → Option Error × S) {t : S}
      → g s ≡ (none, t)
      → (write status message (unit_result g) >> k) s ≡ k t
  unfolding ◌>>=◌
  unit_write-ok status message g e = ground arith
