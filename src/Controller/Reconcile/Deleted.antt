-- ===== src/Controller/Reconcile/Deleted.antt =====
-- internal/controller/common.go: what `OnDelete` has done when it returns no error.
use Prim.Native.String.{◌++◌}
use mathlib.Core.Path.{subst}
use helm_broker.Common.{
  ◌∙◌, String, ◌≡◌, ap, Bool, true, false, ◌||◌, Option, List, [], ◌∷◌, Error, if◌then◌else◌, Every,
  Every-map, Result-cases, inl, inr, arith, exists_in, ◌==◌, ◌&&◌, not,
}
use helm_broker.Model.Configurations.{CommonAddon, StatusAddon, is_ready_phase}
use helm_broker.Controller.Protection.{remove_finalizer, remove_finalizer-others}
use helm_broker.Controller.Services.{Services, done, return, wrapping, call}
use helm_broker.Controller.Services.Inversion.{after_task, return-eq-done, wrapping-eq-done}
use helm_broker.Controller.Removal.{status_addons}
use helm_broker.Controller.Removal.Laws.{
  Shrinks, IsShrinking, IsConsistent, IsForgetful, IsConsistent-Shrinks, then-IsShrinking,
  return-IsShrinking, if-IsShrinking, wrapping-IsShrinking,
}
use helm_broker.Controller.Removal.Gone.{remove_if_present-IsShrinking}
use helm_broker.Controller.Removal.Loops.{IsRemoved, IsRemoved-Shrinks, after_removal}
use helm_broker.Controller.Reconcile.Updates.{
  list_existing_configurations, write_finalizers, update_configuration,
}
use helm_broker.Controller.Reconcile.Delete.{
  on_delete, delete_ready, remove_all, removal_message, unblock,
}

module _ {S : Type 0} (c : Services S) (laws : IsForgetful c) where
  -- The state that a task ends in, where the task shrinks what the storage returns.
  ends-Shrinks :
      {A : Type 0} (m : S → A × S) {s t : S} {a : A}
      → IsShrinking c m
      → m s ≡ (a, t)
      → Shrinks c s t
  ends-Shrinks m {s} h e = subst (Shrinks c s) (ap (λ p. p.1) e) (h s)

  call-IsShrinking : (f : S → Option Error × S) → IsShrinking c f → IsShrinking c (call f)
  call-IsShrinking f h s = h s

  list-IsShrinking : (name : String) → IsShrinking c (list_existing_configurations c name)
  unfolding list_existing_configurations
  list-IsShrinking name s = elim (Result-cases (c.list_configurations s)) [
    | inl (x, e) ↦ rw (e, list_existing_configurations) (λ n v b k. k)
    | inr (x, e) ↦ rw (e, list_existing_configurations) (λ n v b k. k)
  ]

  unblock-IsShrinking : (ads : List CommonAddon) → IsShrinking c (unblock c ads)
  unfolding unblock
  unblock-IsShrinking [] = return-IsShrinking c tt
  unblock-IsShrinking (ad ∷ ads) =
      let rest = unblock-IsShrinking ads in
      if-IsShrinking c _ _ _
        (then-IsShrinking c _ _
          (wrapping-IsShrinking c _ _ (
            call-IsShrinking (c.request_reprocess ad.meta.name)
              (laws.request_shrinks ad.meta.name)))
          (λ _. rest))
        rest

  remove_all-IsShrinking : (ads : List StatusAddon) → IsShrinking c (remove_all c ads)
  unfolding remove_all
  remove_all-IsShrinking [] = return-IsShrinking c false
  remove_all-IsShrinking (ad ∷ ads) =
      then-IsShrinking c _ _ (remove_if_present-IsShrinking c laws (removal_message ad) ad)
        λ removed.
          then-IsShrinking c _ _ (remove_all-IsShrinking ads)
            λ rest. return-IsShrinking c (removed || rest)

  remove_all-IsRemoved :
      (ads : List StatusAddon) (s : S) {any : Bool} {t : S}
      → remove_all c ads s ≡ (done any, t)
      → IsConsistent c s
      → Every (IsRemoved c t) ads
  unfolding remove_all Every
  remove_all-IsRemoved [] s h k = tt
  remove_all-IsRemoved (ad ∷ ads) s h k = after_task _ _ s h λ _ s1 p l.
      after_task _ _ s1 l λ rest s2 q m.
        let here = after_removal c laws (removal_message ad) ad s p k in
        subst (λ u. IsRemoved c u ad × Every (IsRemoved c u) ads) (return-eq-done _ s2 m).1
          (
            IsRemoved-Shrinks c (ends-Shrinks (remove_all c ads) (remove_all-IsShrinking ads) q) ad
                here.0,
            remove_all-IsRemoved ads s1 q here.1,
          )

  delete_ready-IsRemoved :
      (a : CommonAddon) (s : S) {t : S}
      → delete_ready c a s ≡ (done tt, t)
      → IsConsistent c s
      → Every (IsRemoved c t) (status_addons a.status.repositories)
  unfolding delete_ready
  delete_ready-IsRemoved a s h k =
      let listing =
        wrapping "while listing addons configurations"
          (list_existing_configurations c a.meta.name) in
      let syncing =
        wrapping ("while syncing broker for addon " ++ a.meta.name) (call c.sync_broker) in
      after_task listing _ s h λ adds s1 p l. after_task _ _ s1 l λ _ s2 q m.
        after_task _ _ s2 m λ any s3 r n.
          let listed =
            ends-Shrinks listing (wrapping-IsShrinking c _ _ (list-IsShrinking a.meta.name)) p in
          let unblocked = ends-Shrinks (unblock c adds) (unblock-IsShrinking adds) q in
          let synced =
            ends-Shrinks (if any then syncing else return tt)
              (if-IsShrinking c any syncing (return tt)
                (wrapping-IsShrinking c _ _ (call-IsShrinking c.sync_broker laws.sync_shrinks))
                (return-IsShrinking c tt))
              n in
          Every-map _ _ _
            (remove_all-IsRemoved _ s2 r
              (IsConsistent-Shrinks c unblocked (IsConsistent-Shrinks c listed k)))
            (IsRemoved-Shrinks c synced)

  abbrev unprotected : CommonAddon → CommonAddon
  unprotected a = record a {
    meta = record (a.meta) { finalizers = remove_finalizer a.meta.finalizers };
  }

  write_finalizers-state :
      (a : CommonAddon) (s : S) {a' : CommonAddon} {t : S}
      → write_finalizers c remove_finalizer a s ≡ (done a', t)
      → (c.update_configuration (unprotected a) s).1 ≡ t
  unfolding write_finalizers update_configuration
  write_finalizers-state a s h = elim (Result-cases (c.update_configuration (unprotected a) s).0) [
    | inl (x, e) ↦ ground arith
    | inr (x, e) ↦ ground arith
  ]

  -- Over a storage that forgets what it removes and holds under a version that parses only addons of that version, `OnDelete`
  -- of a ready configuration that returns no error has as its last write this configuration, changed in its
  -- finalizers alone, of which one is gone and the others are kept, in a state where none of the
  -- configuration's addons is to be read.
  pub on_delete-IsRemoved :
      (a : CommonAddon) (s t : S)
      → on_delete c a s ≡ (done tt, t)
      → is_ready_phase a.status.phase ≡ true
      → IsConsistent c s
      → (s' : S) × Every (IsRemoved c s') (status_addons a.status.repositories)
        × (kept : List String) × ((name : String)
            → exists_in (λ f. f == name) kept ≡ (
                exists_in (λ f. f == name) a.meta.finalizers
                && not (name == "addons.kyma-project.io")))
        × ((c.update_configuration (record a { meta = record (a.meta) { finalizers = kept } }) s').1
            ≡ t)
  unfolding on_delete
  on_delete-IsRemoved a s t h ready k =
      after_task (if is_ready_phase a.status.phase then delete_ready c a else return tt) _ s h
        λ _ s1 p l. after_task _ _ s1 l λ a' s2 q m. (
          s1,
          delete_ready-IsRemoved a s
              (subst (λ b. (if b then delete_ready c a else return tt) s ≡ (done tt, s1)) ready p)
              k,
          remove_finalizer a.meta.finalizers,
          λ name. remove_finalizer-others name a.meta.finalizers,
          write_finalizers-state a s1 (wrapping-eq-done _ _ s1 q) ∙ (return-eq-done tt s2 m).1,
        )
