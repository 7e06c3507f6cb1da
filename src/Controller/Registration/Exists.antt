-- ===== src/Controller/Registration/Exists.antt =====
-- What a `Reconcile` of the broker of a namespace, or of the cluster, has done when it returns no error.
use mathlib.Core.Path.{sym, subst}
use helm_broker.Common.{
  ℕ, zero, suc, ◌<◌, String, ◌≡◌, refl, ap, ◌∙◌, ◌⊎◌, inl, inr, ◌↔◌, Bool, true, false, ◌&&◌, ◌||◌,
  ◌==◌, Option, none, some, List, [], ◌∷◌, Error, ok, arith, exists_in, if◌then◌else◌, ltb,
}
use helm_broker.Controller.Registration.{
  Words, Failure, absent, present, conflict, other, ServiceClass, Kube, exist, delete, deletion,
  create, poll, any_instance, settle, reconcile_broker, positive,
}

-- An error of the client that does not say that the broker exists.
abbrev pub is_refusal : Failure → Bool
is_refusal absent = true
is_refusal present = false
is_refusal conflict = true
is_refusal (other e) = true

module _ {S : Type 0} (kube : Kube S) where
  -- An attempt to create the broker that fails: the client refuses, or says that the broker exists and does not
  -- return it.
  unfoldable pub IsRefused : S → S → Type 0
  IsRefused s t =
      (f : Failure) × (is_refusal f ≡ true)
      × ((kube.create_broker s ≡ (some f, t))
          ⊎ ((kube.create_broker s ≡ (some present, t)) × ((kube.get_broker t).0 ≡ some f)))

  -- A number of failed attempts leads from a state to another.
  pub data Refusals : ℕ → S → S → Type 0 where
    no_refusal : {s : S} → Refusals 0 s s
    refusal_then : {n : ℕ} {s s' t : S} → IsRefused s s' → Refusals n s' t → Refusals (suc n) s t

  -- The attempt that succeeds: the broker is created, or it exists and is read.
  unfoldable pub IsAccepted : S → S → Type 0
  IsAccepted s t =
      (kube.create_broker s ≡ (none, t))
      ⊎ ((kube.create_broker s ≡ (some present, t))
          × (((kube.get_broker t).0 ≡ none) ⊎ ((kube.get_broker t).0 ≡ some present)))

  -- What is done of a broker that is registered or not, and needed or not.
  unfoldable pub IsReconciled : ℕ → Bool → Bool → S → S → Type 0
  IsReconciled attempts true true s t = t ≡ s
  IsReconciled attempts false false s t = t ≡ s
  IsReconciled attempts true false s t =
      (kube.delete_broker s ≡ (none, t)) ⊎ (kube.delete_broker s ≡ (some absent, t))
  IsReconciled attempts false true s t =
      (n : ℕ) × (u : S) × (n < attempts) × Refusals n s u × IsAccepted u t

-- The instance refers to a class of the broker.
abbrev pub refers_to : String → List ServiceClass → Option String → Bool
refers_to broker classes none = false
refers_to broker classes (some class) =
    exists_in (λ c. (c.name == class) && (c.broker_name == broker)) classes

positive-ltb : (m : ℕ) → positive m ≡ ltb 0 m
positive-ltb zero = refl
positive-ltb (suc m) = ground arith

module _ {S : Type 0} (kube : Kube S) (words : Words) where
  attempt_cases :
      (s t : S) (c : Option Failure) (s' : S) (g : Option Failure)
      → kube.create_broker s ≡ (c, s')
      → (kube.get_broker s').0 ≡ g
      → IsRefused kube s s' ⊎ IsAccepted kube s s'
  unfolding IsRefused IsAccepted
  attempt_cases s t none s' g p q = inr (inl p)
  attempt_cases s t (some absent) s' g p q = inl (absent, refl, inl p)
  attempt_cases s t (some conflict) s' g p q = inl (conflict, refl, inl p)
  attempt_cases s t (some (other e)) s' g p q = inl (other e, refl, inl p)
  attempt_cases s t (some present) s' none p q = inr (inr (p, inl q))
  attempt_cases s t (some present) s' (some present) p q = inr (inr (p, inr q))
  attempt_cases s t (some present) s' (some absent) p q = inl (absent, refl, inr (p, q))
  attempt_cases s t (some present) s' (some conflict) p q = inl (conflict, refl, inr (p, q))
  attempt_cases s t (some present) s' (some (other e)) p q = inl (other e, refl, inr (p, q))

  poll-refused :
      (k : ℕ) (s s' : S) → IsRefused kube s s' → poll kube words (suc k) s ≡ poll kube words k s'
  unfolding poll IsRefused
  poll-refused k s s' (absent, r, inl p) = rw p refl
  poll-refused k s s' (conflict, r, inl p) = rw p refl
  poll-refused k s s' (other e, r, inl p) = rw p refl
  poll-refused k s s' (present, r, p) = absurd (ground (arith, r))
  poll-refused k s s' (absent, r, inr (p, q)) = rw (p, q) refl
  poll-refused k s s' (conflict, r, inr (p, q)) = rw (p, q) refl
  poll-refused k s s' (other e, r, inr (p, q)) = rw (p, q) refl

  poll-accepted : (k : ℕ) (s t : S) → IsAccepted kube s t → poll kube words (suc k) s ≡ (none, t)
  unfolding poll IsAccepted
  poll-accepted k s t (inl p) = rw p refl
  poll-accepted k s t (inr (p, inl q)) = rw (p, q) refl
  poll-accepted k s t (inr (p, inr q)) = rw (p, q) refl

  poll-Refusals :
      (k : ℕ) (s t : S)
      → poll kube words k s ≡ (none, t)
      → (n : ℕ) × (u : S) × (n < k) × Refusals kube n s u × IsAccepted kube u t
  unfolding poll
  poll-Refusals zero s t h = absurd (ground (arith, h))
  poll-Refusals (suc k) s t h =
      let s' = (kube.create_broker s).1 in
      elim (attempt_cases s t (kube.create_broker s).0 s' (kube.get_broker s').0 refl refl) [
        | inl r ↦
            let (n, u, small, path, last) =
              poll-Refusals k s' t (sym (poll-refused k s s' r) ∙ h) in
            (suc n, u, omega (arith, small), refusal_then r path, last)
        | inr a ↦ (
          0,
          s,
          omega arith,
          no_refusal,
          subst (λ x. IsAccepted kube s x) (ap (λ p. p.1) (sym (poll-accepted k s s' a) ∙ h)) a,
        )
      ]

  Refusals-poll :
      (k n : ℕ) (s u t : S)
      → n < k
      → Refusals kube n s u
      → IsAccepted kube u t
      → poll kube words k s ≡ (none, t)
  Refusals-poll zero n s u t small path last = absurd (omega (arith, small))
  Refusals-poll (suc k) _ s _ t small no_refusal last = poll-accepted k s t last
  Refusals-poll (suc k) _ s u t small (refusal_then {n = n} {s' = s'} r path) last =
      poll-refused k s s' r ∙ Refusals-poll k n s' u t (omega (arith, small)) path last

  deletion_iff :
      (t : S) (e : Option Failure) (s' : S)
      → let r : Option Failure × S = (e, s') in
        let d : Option Error × S = (deletion kube words e, s') in
        (d ≡ (none, t)) ↔ ((r ≡ (none, t)) ⊎ (r ≡ (some absent, t)))
  deletion_iff t none s' = (λ h. inl (ap (λ p. (none, p.1)) h), λ h. ground (arith, h))
  deletion_iff t (some absent) s' =
      (λ h. inr (ap (λ p. (some absent, p.1)) h), λ h. ground (arith, h))
  deletion_iff t (some present) s' =
      (λ h. absurd (ground (arith, h)), λ h. absurd (ground (arith, h)))
  deletion_iff t (some conflict) s' =
      (λ h. absurd (ground (arith, h)), λ h. absurd (ground (arith, h)))
  deletion_iff t (some (other e)) s' =
      (λ h. absurd (ground (arith, h)), λ h. absurd (ground (arith, h)))

  settle_iff :
      (attempts : ℕ) (registered needed : Bool) (s t : S)
      → (settle kube words attempts registered needed s ≡ (none, t))
        ↔ IsReconciled kube attempts registered needed s t
  unfolding settle create delete IsReconciled
  settle_iff attempts true true s t = (λ h. sym (ap (λ p. p.1) h), λ h. ap (λ x. (none, x)) (sym h))
  settle_iff attempts false false s t =
      (λ h. sym (ap (λ p. p.1) h), λ h. ap (λ x. (none, x)) (sym h))
  settle_iff attempts true false s t =
      deletion_iff t (kube.delete_broker s).0 (kube.delete_broker s).1
  settle_iff attempts false true s t = (
    poll-Refusals attempts s t,
    λ (n, u, small, path, last). Refusals-poll attempts n s u t small path last,
  )

  any_instance-exists :
      (instances : List (Option String)) (classes : List ServiceClass) (s : S)
      → kube.list_instances s ≡ ok instances
      → kube.list_classes s ≡ ok classes
      → any_instance kube words s ≡ ok (exists_in (refers_to words.broker_name classes) instances)
  unfolding any_instance exists_in
  any_instance-exists [] classes s p q = rw (any_instance, p) refl
  any_instance-exists (none ∷ is) classes s p q = rw (any_instance, p, q) refl
  any_instance-exists (some i ∷ is) classes s p q = rw (any_instance, p, q) refl

  exist-present :
      (registered : Bool) (s : S)
      → (kube.get_broker s).0 ≡ (if registered then none else some absent)
      → exist kube words s ≡ ok registered
  unfolding exist
  exist-present true s h = rw (exist, h) refl
  exist-present false s h = rw (exist, h) refl

  reconcile_broker-settle :
      (attempts m : ℕ) (registered b : Bool) (s : S)
      → exist kube words s ≡ ok registered
      → kube.list_configurations s ≡ ok m
      → any_instance kube words s ≡ ok b
      → reconcile_broker kube words attempts s
        ≡ settle kube words attempts registered (positive m || b) s
  unfolding reconcile_broker
  reconcile_broker-settle attempts m registered b s g c i = rw (reconcile_broker, g, c, i) refl

  -- Where the broker is registered or not found, and its configurations, instances and service classes are listed:
  -- `Reconcile` returns no error exactly if the broker was as needed and nothing was changed, or it was registered
  -- and not needed and `Delete` was taken or found none, or it was needed and not registered and an attempt to
  -- create it, after fewer failed ones than are allowed, was taken or met the broker. It is needed if there are
  -- configurations, or an instance that refers to a class of the broker.
  pub reconcile_broker_iff :
      (attempts m : ℕ) (registered : Bool) (instances : List (Option String))
      (classes : List ServiceClass) (s t : S)
      → (kube.get_broker s).0 ≡ (if registered then none else some absent)
      → kube.list_configurations s ≡ ok m
      → kube.list_instances s ≡ ok instances
      → kube.list_classes s ≡ ok classes
      → (reconcile_broker kube words attempts s ≡ (none, t))
        ↔ IsReconciled kube attempts registered
            (ltb 0 m || exists_in (refers_to words.broker_name classes) instances)
            s
            t
  reconcile_broker_iff attempts m registered instances classes s t g c i k =
      let b = exists_in (refers_to words.broker_name classes) instances in
      let settled =
        reconcile_broker-settle attempts m registered b s (exist-present registered s g) c
          (any_instance-exists instances classes s i k) in
      rw (settled, positive-ltb m) (settle_iff attempts registered (ltb 0 m || b) s t)
