-- ===== src/Controller/Reconcile/Delete.antt =====
-- internal/controller/common.go: `OnDelete` and what it calls.
use Prim.Native.String.{◌++◌}
use helm_broker.Common.{String, Bool, false, not, ◌||◌, List, [], ◌∷◌, if◌then◌else◌}
use helm_broker.Model.Configurations.{CommonAddon, StatusAddon, is_ready_phase}
use helm_broker.Controller.Protection.{remove_finalizer}
use helm_broker.Controller.Services.{Services, Task, NoResult, return, wrapping, call, ◌>>=◌, ◌>>◌}
use helm_broker.Controller.Removal.{status_addons, remove_if_present}
use helm_broker.Controller.Reconcile.Updates.{write_finalizers, list_existing_configurations}

abbrev pub removal_message : StatusAddon → String
removal_message ad = "while deleting addon with charts for addon " ++ ad.name

module _ {S : Type 0} (c : Services S) where
  -- The loop over the configurations that a deletion may unblock.
  unfoldable pub unblock : List CommonAddon → Task S NoResult
  unblock [] = return tt
  unblock (ad ∷ ads) =
      let rest = unblock ads in
      if not (is_ready_phase ad.status.phase)
      then wrapping ("while requesting reprocess addons configuration " ++ ad.meta.name)
          (call (c.request_reprocess ad.meta.name))
        >> rest
      else rest

  -- The loop over the addons of a configuration that is deleted: whether any was removed.
  unfoldable pub remove_all : List StatusAddon → Task S Bool
  unfolding remove_if_present
  remove_all [] = return false
  remove_all (ad ∷ ads) = do
    removed ← remove_if_present c (removal_message ad) ad
    rest ← remove_all ads
    return (removed || rest)

  -- `OnDelete` for a configuration that is ready.
  unfoldable pub delete_ready : CommonAddon → Task S NoResult
  unfolding list_existing_configurations unblock remove_all status_addons
  delete_ready a = do
    adds ←
        wrapping "while listing addons configurations" (list_existing_configurations c a.meta.name)
    unblock adds
    any ← remove_all (status_addons a.status.repositories)
    if any
        then wrapping ("while syncing broker for addon " ++ a.meta.name) (call c.sync_broker)
        else return tt

  -- `OnDelete`
  unfoldable pub on_delete : CommonAddon → Task S NoResult
  unfolding delete_ready write_finalizers remove_finalizer
  on_delete a = do
    (if is_ready_phase a.status.phase then delete_ready a else return tt)
    a' ←
        wrapping ("while deleting finalizer from addons configuration " ++ a.meta.name)
          (write_finalizers c remove_finalizer a)
    return tt
