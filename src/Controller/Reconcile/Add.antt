-- ===== src/Controller/Reconcile/Add.antt =====
-- internal/controller/common.go: `OnAdd` and what it calls.
use Prim.Native.String.{◌++◌}
use helm_broker.Common.{
  String, Bool, false, not, ◌||◌, ◌&&◌, ◌==◌, List, [], ◌∷◌, wrap, temporary, ok, err,
  if◌then◌else◌,
}
use helm_broker.Model.Configurations.{
  CommonAddon, Status, StatusAddon, StatusRepository, SpecRepository, Phase, is_ready_phase,
  is_ready_repository, status_equals, addon_key,
}
use helm_broker.Controller.Collection.{
  Collection, is_repositories_failed, is_repositories_fetching_error,
  revise_addon_duplication_in_repository, revise_addon_duplication_in_storage,
}
use helm_broker.Controller.Services.{
  Services, done, failed_with, Task, NoResult, return, throw, wrapping, call, ◌>>=◌, ◌>>◌,
}
use helm_broker.Controller.Loading.{load_repositories}
use helm_broker.Controller.Saving.{save_addons}
use helm_broker.Controller.Removal.{delete_previous_addons, delete_orphan_addons}
use helm_broker.Controller.Reconcile.Updates.{
  status_snapshot, with_status, update_addon_status, list_existing_configurations,
}

-- The loops of `isConfigurationInConflict`.
abbrev has_key : String → List StatusAddon → Bool
has_key key [] = false
has_key key (a ∷ as') = addon_key a == key || has_key key as'

abbrev conflicting_repository : String → List StatusRepository → Bool
conflicting_repository key [] = false
conflicting_repository key (r ∷ rs) =
    (not (is_ready_repository r.status) && has_key key r.addons) || conflicting_repository key rs

-- `isConfigurationInConflict`
unfoldable pub is_configuration_in_conflict : String → Status → Bool
is_configuration_in_conflict key status =
    not (is_ready_phase status.phase) && conflicting_repository key status.repositories

-- The checks of `OnAdd` on the repositories: whether any failed, and the repositories so marked.
unfoldable pub revise : List CommonAddon → Collection → Bool × Collection
unfolding revise_addon_duplication_in_repository revise_addon_duplication_in_storage
    is_repositories_failed
revise list rs =
    is_repositories_failed
      (revise_addon_duplication_in_storage list (revise_addon_duplication_in_repository rs))

module _ {S : Type 0} (c : Services S) where
  -- `ensureBroker`
  ensure_broker : Task S NoResult
  ensure_broker s = elim (c.broker_exist s) [
    | err e ↦ (failed_with (wrap "while checking if Broker exist" e), s)
    | ok exist ↦
        if exist then wrapping "while syncing Broker" (call c.sync_broker) s else return tt s
  ]

  -- The loops of `reprocessConfigurationsInConflict`.
  request_reprocess : String → Task S NoResult
  request_reprocess name =
      wrapping ("while reprocessing conflicting addons configuration `" ++ (name ++ "`"))
        (call (c.request_reprocess name))

  reprocess_for_key : String → List CommonAddon → Task S NoResult
  unfolding request_reprocess is_configuration_in_conflict
  reprocess_for_key key [] = return tt
  reprocess_for_key key (cfg ∷ cfgs) =
      let rest = reprocess_for_key key cfgs in
      if is_configuration_in_conflict key cfg.status
      then request_reprocess cfg.meta.name >> rest
      else rest

  -- `reprocessConfigurationsInConflict`
  reprocess_configurations_in_conflict : List String → List CommonAddon → Task S NoResult
  unfolding reprocess_for_key
  reprocess_configurations_in_conflict [] list = return tt
  reprocess_configurations_in_conflict (key ∷ keys) list =
      reprocess_for_key key list >> reprocess_configurations_in_conflict keys list

  -- `OnAdd` where a repository could not be fetched.
  unfoldable pub on_fetching_error : CommonAddon → Status → Collection → Task S CommonAddon
  unfolding update_addon_status status_equals status_snapshot
  on_fetching_error a last rs =
      let a' = with_status Phase.failed rs a in
      if not (status_equals a'.status last)
      then (do
        a'' ← wrapping "while update addons configuration status" (update_addon_status c a')
        throw temporary)
      else throw temporary

  -- The end of `OnAdd`, by whether addons were stored, and the keys of those removed.
  unfoldable pub finish_add :
      CommonAddon → Bool → List String → List CommonAddon → Task S CommonAddon
  unfolding ensure_broker reprocess_configurations_in_conflict
  finish_add a saved [] list = do
    (if saved then wrapping "while ensuring broker" ensure_broker else return tt)
    return a
  finish_add a saved (key ∷ keys) list = do
    wrapping "while ensuring broker" ensure_broker
    wrapping "while reprocessing configurations in conflict"
        (reprocess_configurations_in_conflict (key ∷ keys) list)
    return a

  -- The case of a configuration that failed.
  unfoldable pub on_failed :
      CommonAddon → Status → Collection → List CommonAddon → Task S CommonAddon
  unfolding update_addon_status status_snapshot finish_add delete_previous_addons
  on_failed a last rs list = do
    a' ←
        wrapping "while update addons configuration status"
          (update_addon_status c (with_status Phase.failed rs a))
    deleted ←
        if is_ready_phase last.phase
        then wrapping "while deleting previous addons from storage"
            (delete_previous_addons c last.repositories)
        else return []
    finish_add a' false deleted list

  abbrev pub saving : Collection → Task S (Bool × Collection)
  saving rs s = let (r, s') = save_addons c rs s in (done r, s')

  -- The case of a configuration that is ready.
  unfoldable pub on_ready :
      CommonAddon → Status → Collection → List CommonAddon → Task S CommonAddon
  unfolding update_addon_status status_snapshot finish_add delete_orphan_addons save_addons
  on_ready a last rs list = do
    (saved, rs') ← saving rs
    a' ←
        wrapping "while update addons configuration status"
          (update_addon_status c (with_status Phase.ready rs' a))
    deleted ←
        if is_ready_phase last.phase
        then wrapping "while deleting orphan addons from storage"
            (delete_orphan_addons c a'.status.repositories last.repositories)
        else return []
    finish_add a' saved deleted list

  -- `OnAdd` from the checks for conflicts on.
  unfoldable pub on_loaded : CommonAddon → Status → Collection → Task S CommonAddon
  unfolding list_existing_configurations on_failed on_ready revise
  on_loaded a last rs = do
    list ←
        wrapping "while fetching addons configurations list"
          (list_existing_configurations c a.meta.name)
    let revised = revise list rs
    if revised.0 then on_failed a last revised.1 list else on_ready a last revised.1 list

  abbrev pub loading : List SpecRepository → Task S Collection
  loading specs s = (load_repositories c specs s, s)

  -- `OnAdd`
  unfoldable pub on_add : CommonAddon → Status → Task S CommonAddon
  unfolding on_fetching_error on_loaded load_repositories is_repositories_fetching_error
  on_add a last = do
    rs ← loading a.spec.repositories
    if is_repositories_fetching_error rs then on_fetching_error a last rs else on_loaded a last rs
