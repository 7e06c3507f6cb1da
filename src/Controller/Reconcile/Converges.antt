-- ===== src/Controller/Reconcile/Converges.antt =====
-- internal/controller/common.go: what `OnAdd` leaves in the configuration, and the next `Reconcile`.
use mathlib.Core.Path.{subst}
use helm_broker.Common.{
  ℕ, String, ◌≡◌, refl, ap, sym, ◌∙◌, Bool, true, false, none, List, not, temporary, [], ◌∷◌, arith,
  Option-cases, inl, inr, ltb,
}
use helm_broker.Model.Configurations.{
  CommonAddon, Status, Phase, any_fetching_error, is_pending_phase, is_ready_for_initial_processing,
  is_ready_for_reprocessing, status_equals,
}
use helm_broker.Controller.Collection.{Collection, is_repositories_fetching_error}
use helm_broker.Common.Outcomes.{done-injective}
use helm_broker.Controller.Services.{Services, done, throw, wrapping, ◌>>=◌}
use helm_broker.Controller.Services.Inversion.{
  after_task, wrapping-eq-done, return-eq-done, either_task, throw-no_result,
}
use helm_broker.Controller.Reconcile.{reconcile}
use helm_broker.Controller.Reconcile.Updates.{update_addon_status, processed, with_status}
use helm_broker.Controller.Reconcile.Add.{
  on_add, on_failed, saving, loading, revise, on_ready, on_loaded, on_fetching_error, finish_add,
}
use helm_broker.Controller.Reconcile.Settled.{
  has_fetching_reason, any_fetching_error-snapshot, reasons-revise, reasons-save_addons,
  reasons-load_repositories,
}

-- A configuration that is processed: from `a`, at `a`'s generation, and with nothing to retry.
abbrev pub IsSettled : CommonAddon → CommonAddon → Type 0
IsSettled a a' =
    (a'.meta ≡ a.meta)
    × (a'.status.observed_generation ≡ a.meta.generation)
    × (any_fetching_error a'.status.repositories ≡ false)
    × (is_pending_phase a'.status.phase ≡ false)

module _ {S : Type 0} (c : Services S) where
  update_addon_status-eq-done :
      (a : CommonAddon) (s : S) {a' : CommonAddon} {t : S}
      → update_addon_status c a s ≡ (done a', t)
      → a' ≡ processed c a s
  unfolding update_addon_status
  update_addon_status-eq-done a s h =
      elim (Option-cases (c.update_configuration_status (processed c a s) s).0) [
        | inl e ↦ ground arith
        | inr (e, q) ↦ ground arith
      ]

  finish_add-eq-done :
      (a : CommonAddon) (saved : Bool) (deleted : List String) (list : List CommonAddon) (s : S)
      {a' : CommonAddon} {t : S}
      → finish_add c a saved deleted list s ≡ (done a', t)
      → a' ≡ a
  unfolding finish_add
  finish_add-eq-done a saved [] list s h =
      after_task _ _ s h λ _ s' _ k. sym (return-eq-done a s' k).0
  finish_add-eq-done a saved (key ∷ keys) list s h =
      after_task _ _ s h λ _ s1 _ k. after_task _ _ s1 k λ _ s2 _ l. sym (return-eq-done a s2 l).0

  IsSettled-update :
      (phase : Phase) (rs : Collection) (a : CommonAddon) (s : S) {a' : CommonAddon} {t : S}
      → update_addon_status c (with_status phase rs a) s ≡ (done a', t)
      → has_fetching_reason rs ≡ false
      → is_pending_phase phase ≡ false
      → IsSettled a a'
  IsSettled-update phase rs a s {a'} h q p =
      subst (IsSettled a) (sym (update_addon_status-eq-done (with_status phase rs a) s h))
        (refl, refl, any_fetching_error-snapshot rs q, p)

  on_failed-IsSettled :
      (a : CommonAddon) (last : Status) (rs : Collection) (list : List CommonAddon) (s : S)
      {a' : CommonAddon} {t : S}
      → on_failed c a last rs list s ≡ (done a', t)
      → has_fetching_reason rs ≡ false
      → IsSettled a a'
  unfolding on_failed
  on_failed-IsSettled a last rs list s h q = after_task _ _ s h λ a1 s1 k l.
      after_task _ _ s1 l λ deleted s2 _ m.
        subst (IsSettled a) (sym (finish_add-eq-done a1 false deleted list s2 m))
          (IsSettled-update Phase.failed rs a s (wrapping-eq-done _ _ s k) q refl)

  reasons-saving :
      (rs : Collection) (s : S) {x : Bool × Collection} {t : S}
      → saving c rs s ≡ (done x, t)
      → has_fetching_reason x.1 ≡ has_fetching_reason rs
  reasons-saving rs s h =
      ap (λ y. has_fetching_reason y.1) (sym (done-injective (ap (λ p. p.0) h)))
      ∙ reasons-save_addons c rs s

  on_ready-IsSettled :
      (a : CommonAddon) (last : Status) (rs : Collection) (list : List CommonAddon) (s : S)
      {a' : CommonAddon} {t : S}
      → on_ready c a last rs list s ≡ (done a', t)
      → has_fetching_reason rs ≡ false
      → IsSettled a a'
  unfolding on_ready
  on_ready-IsSettled a last rs list s h q = after_task _ _ s h λ x s1 k l.
      after_task _ _ s1 l λ a1 s2 m n. after_task _ _ s2 n λ deleted s3 _ o.
        subst (IsSettled a) (sym (finish_add-eq-done a1 x.0 deleted list s3 o)) (
          IsSettled-update Phase.ready x.1 a s1 (wrapping-eq-done _ _ s1 m)
            (reasons-saving rs s k ∙ q) refl)

  on_loaded-IsSettled :
      (a : CommonAddon) (last : Status) (rs : Collection) (s : S) {a' : CommonAddon} {t : S}
      → on_loaded c a last rs s ≡ (done a', t)
      → has_fetching_reason rs ≡ false
      → IsSettled a a'
  unfolding on_loaded
  on_loaded-IsSettled a last rs s h q = after_task _ _ s h λ list s1 _ k.
      let rs' = (revise list rs).1 in
      either_task (revise list rs).0 (on_failed c a last rs' list) (on_ready c a last rs' list) s1 k
        (λ _ l. on_failed-IsSettled a last rs' list s1 l (reasons-revise list rs ∙ q))
        (λ _ l. on_ready-IsSettled a last rs' list s1 l (reasons-revise list rs ∙ q))

  on_fetching_error-no_result :
      (a : CommonAddon) (last : Status) (rs : Collection) (s : S) {a' : CommonAddon} {t : S}
      → ¬ (on_fetching_error c a last rs s ≡ (done a', t))
  unfolding on_fetching_error
  on_fetching_error-no_result a last rs s h =
      let a1 = with_status Phase.failed rs a in
      let update = wrapping "while update addons configuration status" (update_addon_status c a1) in
      either_task (not (status_equals a1.status last)) (update >>= λ _. throw temporary)
        (throw temporary) s h (λ _ k. after_task update _ s k λ _ s1 _ l. throw-no_result l)
        (λ _ k. throw-no_result k)

  -- An `OnAdd` that returns leaves the configuration processed.
  pub on_add-IsSettled :
      (a : CommonAddon) (last : Status) (s : S) {a' : CommonAddon} {t : S}
      → on_add c a last s ≡ (done a', t)
      → IsSettled a a'
  unfolding on_add
  on_add-IsSettled a last s h = after_task (loading c a.spec.repositories) _ s h λ rs s1 k l.
      either_task (is_repositories_fetching_error rs) (on_fetching_error c a last rs)
        (on_loaded c a last rs) s1 l (λ _ m. absurd (on_fetching_error-no_result a last rs s1 m))
        (λ e m.
          on_loaded-IsSettled a last rs s1 m
            (reasons-load_repositories c a.spec.repositories s rs (ap (λ p. p.0) k) e))

  module _ (reprocess_duration : ℕ) (trace : String) where
    reconcile-settled :
        (a a' : CommonAddon) (u : S)
        → a.meta.is_deleted ≡ false
        → ltb 0 a.meta.generation ≡ true
        → IsSettled a a'
        → reconcile c reprocess_duration trace a' u
          ≡ (done (record { requeue_after = none; error = none }), u)
    unfolding reconcile is_ready_for_initial_processing is_ready_for_reprocessing
    reconcile-settled a a' u alive positive (m, g, f, p) =
        ground (arith, ap (λ x. x.is_deleted) m, ap (λ x. x.generation) m)

    -- Once `OnAdd` returned no error for a configuration that the cluster has given a generation and that
    -- is not deleted, a `Reconcile` of the configuration that it left, in any later state, returns no
    -- error, asks for no retry and changes nothing.
    pub on_add-reconcile :
        (a : CommonAddon) (last : Status) (s : S) (a' : CommonAddon) (t u : S)
        → on_add c a last s ≡ (done a', t)
        → a.meta.is_deleted ≡ false
        → ltb 0 a.meta.generation ≡ true
        → reconcile c reprocess_duration trace a' u
          ≡ (done (record { requeue_after = none; error = none }), u)
    on_add-reconcile a last s a' t u h alive positive =
        reconcile-settled a a' u alive positive (on_add-IsSettled a last s h)
