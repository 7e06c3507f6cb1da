-- ===== src/Controller/Registration/Sync/Relist.antt =====
-- What a `Sync` without an error has done.
use helm_broker.Common.{
  ℕ, zero, suc, ◌+◌, ◌<◌, ◌≡◌, refl, sym, ap, Option, none, some, Error, ◌⊎◌, inl, inr, arith, ◌↔◌,
}
use helm_broker.Controller.Registration.{Failure, absent, present, conflict, other, Kube}
use helm_broker.Controller.Registration.Sync.{
  Words, sync_attempts, after_get, after_update, sync, cluster_sync,
}

module _ {S : Type 0} (kube : Kube S) where
  -- An attempt whose update meets a conflict leads from a state to another.
  pub data Conflicts : ℕ → S → S → Type 0 where
    no_conflict : {s : S} → Conflicts 0 s s
    conflict_then :
        {n : ℕ} {s s' t : S}
        → (kube.get_broker s).0 ≡ none
        → kube.update_broker ((kube.get_broker s).1 + 1) s ≡ (some conflict, s')
        → Conflicts n s' t
        → Conflicts (suc n) s t

  -- The last attempt found no broker, or wrote it with one more request.
  unfoldable pub IsSettled : S → S → Type 0
  IsSettled u t =
      (((kube.get_broker u).0 ≡ some absent) × (t ≡ u))
      ⊎ (((kube.get_broker u).0 ≡ none)
          × (kube.update_broker ((kube.get_broker u).1 + 1) u ≡ (none, t)))

module _ {S : Type 0} (kube : Kube S) (words : Words) where
  attempt_cases :
      (n : ℕ) (s t : S) (rest : Option Error × S) (g u : Option Failure) (m : ℕ) (s' : S)
      → after_get kube words (after_update kube words rest (u, s')) s (g, m) ≡ (none, t)
      → (((g ≡ some absent) × (t ≡ s)) ⊎ ((g ≡ none) × (u ≡ none) × (s' ≡ t)))
        ⊎ ((g ≡ none) × (u ≡ some conflict) × (rest ≡ (none, t)))
  attempt_cases n s t rest none none m s' h = inl (inr (refl, refl, ap (λ p. p.1) h))
  attempt_cases n s t rest none (some conflict) m s' h = inr (refl, refl, h)
  attempt_cases n s t rest none (some absent) m s' h = absurd (ground arith)
  attempt_cases n s t rest none (some present) m s' h = absurd (ground arith)
  attempt_cases n s t rest none (some (other e)) m s' h = absurd (ground arith)
  attempt_cases n s t rest (some absent) u m s' h = inl (inl (refl, sym (ap (λ p. p.1) h)))
  attempt_cases n s t rest (some present) u m s' h = absurd (ground arith)
  attempt_cases n s t rest (some conflict) u m s' h = absurd (ground arith)
  attempt_cases n s t rest (some (other e)) u m s' h = absurd (ground arith)

  sync_attempts-IsSettled :
      (k : ℕ) (s t : S)
      → sync_attempts kube words k s ≡ (none, t)
      → (n : ℕ) × (u : S) × (n < k) × Conflicts kube n s u × IsSettled kube u t
  unfolding sync_attempts IsSettled
  sync_attempts-IsSettled zero s t h = absurd (ground arith)
  sync_attempts-IsSettled (suc k) s t h =
      let updated = kube.update_broker ((kube.get_broker s).1 + 1) s in
      elim (attempt_cases k s t (sync_attempts kube words k updated.1) (kube.get_broker s).0
        updated.0 (kube.get_broker s).1 updated.1 h) [
          | inl (inl (g, e)) ↦ (0, s, omega arith, no_conflict, inl (g, e))
          | inl (inr (g, u, e)) ↦ (0, s, omega arith, no_conflict, inr (g, ground arith))
          | inr (g, u, e) ↦
              let (n, v, small, path, settled) = sync_attempts-IsSettled k updated.1 t e in
              (suc n, v, omega (arith, small), conflict_then g (ground arith) path, settled)
        ]

  IsSettled-sync_attempts :
      (k n : ℕ) (s u t : S)
      → n < k
      → Conflicts kube n s u
      → IsSettled kube u t
      → sync_attempts kube words k s ≡ (none, t)
  unfolding sync_attempts IsSettled
  IsSettled-sync_attempts zero n s u t small path settled = absurd (omega (arith, small))
  IsSettled-sync_attempts (suc k) _ s _ t small no_conflict (inl (g, e)) = rw (g, e) refl
  IsSettled-sync_attempts (suc k) _ s _ t small no_conflict (inr (g, e)) = rw (g, e) refl
  IsSettled-sync_attempts (suc k) _ s u t small (conflict_then {n = n} {s' = s'} g e path) settled =
      rw (g, e) (IsSettled-sync_attempts k n s' u t (omega (arith, small)) path settled)

  sync_attempts_iff :
      (k : ℕ) (s t : S)
      → (sync_attempts kube words k s ≡ (none, t))
        ↔ ((n : ℕ) × (u : S) × (n < k) × Conflicts kube n s u × IsSettled kube u t)
  sync_attempts_iff k s t = (
    sync_attempts-IsSettled k s t,
    λ (n, u, small, path, settled). IsSettled-sync_attempts k n s u t small path settled,
  )

module _ {S : Type 0} (kube : Kube S) where
  -- Each of the two `Sync` returns without an error exactly if, after fewer than five updates that met a
  -- conflict, it finds no broker and changes nothing more, or its update of the broker with one more
  -- relist request than it read is taken.
  pub sync_iff :
      (s t : S)
      → ((sync kube s ≡ (none, t))
          ↔ ((n : ℕ) × (u : S) × (n < 5) × Conflicts kube n s u × IsSettled kube u t))
        × ((cluster_sync kube s ≡ (none, t))
            ↔ ((n : ℕ) × (u : S) × (n < 5) × Conflicts kube n s u × IsSettled kube u t))
  unfolding sync cluster_sync
  sync_iff s t = (sync_attempts_iff kube _ 5 s t, sync_attempts_iff kube _ 5 s t)
