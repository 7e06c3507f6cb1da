-- ===== src/Controller/Reconcile.antt =====
-- internal/controller/common.go: `Reconcile`, over `OnAdd` and `OnDelete`.
pub mod Updates
pub mod Add
pub mod Delete
pub mod Settled
pub mod Converges
pub mod Deleted
use Prim.Native.String.{◌++◌}
use helm_broker.Common.{
  ℕ, String, Bool, true, false, not, ◌||◌, ◌&&◌, ◌==◌, Option, none, some, List, [], ◌∷◌,
  ◌++◌ as ◌+++◌, Error, plain, wrap, temporary, is_temporary, is_not_found, Result, ok, err,
  if◌then◌else◌, is_empty,
}
use helm_broker.Model.Configurations.{
  CommonAddon, Status, StatusAddon, StatusRepository, SpecRepository, Phase, is_ready_phase,
  is_ready_repository, is_ready_for_initial_processing, is_ready_for_reprocessing, status_equals,
  addon_key,
}
use helm_broker.Controller.Entry.{Entry}
use helm_broker.Controller.Collection.{
  Repository, Collection, is_repositories_failed, is_repositories_fetching_error,
  revise_addon_duplication_in_repository, revise_addon_duplication_in_storage,
}
use helm_broker.Controller.Protection.{add_finalizer, remove_finalizer}
use helm_broker.Controller.Services.{
  Services, Outcome, done, failed_with, panicked, Task, NoResult, return, throw, outcome_of,
  wrapping, call, ◌>>=◌, ◌>>◌,
}
use helm_broker.Controller.Loading.{load_repositories}
use helm_broker.Controller.Saving.{save_addons}
use helm_broker.Controller.Removal.{
  status_addons, remove_if_present, delete_previous_addons, delete_orphan_addons,
}
use helm_broker.Controller.Reconcile.Updates.{
  snapshot_entry, snapshot_entries, status_snapshot, with_status, other_configurations, processed,
  update_addon_status, write_finalizers, prepare_for_processing, list_existing_configurations,
}
use helm_broker.Controller.Reconcile.Add.{on_add}
use helm_broker.Controller.Reconcile.Delete.{on_delete}

-- `reconcile.Result` with its error, and a panic.
pub record Reply : Type 0 where
  pub requeue_after : Option ℕ
  pub error : Option Error

abbrev pub Reconciled : Type 0
Reconciled = Outcome Reply

module _ {S : Type 0} (c : Services S) where
  abbrev replied : {A : Type 0} → (Error → Reply) → Outcome A → Reconciled
  replied on_error (done a) = done (record { requeue_after = none; error = none })
  replied on_error (failed_with e) = done (on_error e)
  replied on_error panicked = panicked

  -- The replies to an error of `OnAdd`, by the word for an error that is not temporary.
  abbrev add_failed : ℕ → String → String → Error → Reply
  add_failed reprocess_duration trace word e =
      if is_temporary e
      then record {
        requeue_after = some reprocess_duration;
        error = some (wrap ("while updating " ++ trace) e);
      }
      else record { requeue_after = none; error = some (wrap (word ++ trace) e) }

  module _ (reprocess_duration : ℕ) (trace : String) where
    reconcile_deleted : CommonAddon → S → Reconciled × S
    unfolding on_delete
    reconcile_deleted a s =
        let (r, s') = on_delete c a s in
        (
          replied
              (λ e. record {
                requeue_after = some 15;
                error = some (wrap ("while deleting " ++ trace) e);
              })
              r,
          s',
        )

    -- `OnAdd` of a configuration that is prepared, or whose preparation failed.
    after_preparation : Outcome CommonAddon → S → Reconciled × S
    unfolding on_add
    after_preparation panicked s = (panicked, s)
    after_preparation (failed_with e) s = (
      done (record {
        requeue_after = none;
        error = some (wrap ("while preparing " ++ (trace ++ " for processing")) e);
      }),
      s,
    )
    after_preparation (done a) s =
        let (r, s') = on_add c a a.status s in
        (replied (add_failed reprocess_duration trace "while creating ") r, s')

    reconcile_initial : CommonAddon → S → Reconciled × S
    unfolding prepare_for_processing after_preparation
    reconcile_initial a s = let (r, s') = prepare_for_processing c a s in after_preparation r s'

    abbrev without_status : CommonAddon → CommonAddon
    without_status a = record a {
      status = record {
        phase = Phase.unset;
        last_processed_time = none;
        observed_generation = 0;
        repositories = [];
      };
    }

    reconcile_again : CommonAddon → S → Reconciled × S
    unfolding on_add
    reconcile_again a s =
        let (r, s') = on_add c (without_status a) a.status s in
        (replied (add_failed reprocess_duration trace "while updating ") r, s')

    -- `Reconcile`; a period of time stands in seconds.
    unfoldable pub reconcile : CommonAddon → S → Reconciled × S
    unfolding ◌>>=◌ reconcile_deleted reconcile_initial reconcile_again
        is_ready_for_initial_processing is_ready_for_reprocessing
    reconcile a s =
        if a.meta.is_deleted
        then reconcile_deleted a s
        else if is_ready_for_initial_processing a
        then reconcile_initial a s
        else if is_ready_for_reprocessing a
        then reconcile_again a s
        else (done (record { requeue_after = none; error = none }), s)
