-- ===== src/Controller/Tests.antt =====
-- Runs of the controller over the in-memory storage, with a repository that provides one addon.
use helm_broker.Common.{
  suc, ℕ, String, ◌≡◌, refl, Bool, true, false, Option, none, some, List, [], ◌∷◌, Result, ok, err,
  plain, ◌==◌, if◌then◌else◌, arith, count_if, exists_in, ◌≤◌, Every, ◌||◌, ◌⊎◌, ap, sym, ◌∙◌,
  is_empty, ◌&&◌, not,
}
use helm_broker.Model.Addons.{Addon, Version}
use helm_broker.Model.Configurations.{CommonAddon, Phase, is_ready_phase}
use helm_broker.Storage.Addons.Forget.{get-IsIndexed}
use helm_broker.Storage.Addons.Reads.{find_addon}
use helm_broker.Controller.Entry.{Entry, new_repository_entry}
use helm_broker.Controller.Collection.{
  Repository, Collection, new_addons_repository, all_entries,
  revise_addon_duplication_in_repository, revise_addon_duplication_in_storage,
}
use helm_broker.Controller.Collection.Ids.{
  is_ready_with, revise_addon_duplication_in_repository_unique,
}
use helm_broker.Controller.Collection.Registered.{
  is_clash, revise_addon_duplication_in_storage-no_clash,
}
use helm_broker.Controller.Services.{Services, Getter, Outcome, done, failed_with, panicked, ◌>>=◌}
use helm_broker.Controller.Memory.{Outside, Stored, in_memory}
use helm_broker.Controller.Memory.Forgetful.{in_memory-IsForgetful}
use helm_broker.Controller.Removal.{delete_orphan_addons, status_addons, stays}
use helm_broker.Controller.Removal.Laws.{IsConsistent}
use helm_broker.Controller.Removal.Loops.{IsRemoved, delete_orphan_addons-IsRemoved}
use helm_broker.Controller.Reconcile.{reconcile}
use helm_broker.Controller.Reconcile.Add.{on_add}
use helm_broker.Controller.Reconcile.Delete.{on_delete}
use helm_broker.Controller.Reconcile.Converges.{on_add-reconcile}
use helm_broker.Controller.Reconcile.Deleted.{on_delete-IsRemoved}

abbrev one : Version
one = record { original = "1.0"; canonical = "1.0.0" }

abbrev redis : Addon
redis = record ((new_repository_entry "redis" one "https://charts").addon) { id = "redis-id" }

abbrev getter : Getter
getter = record {
  get_index =
      ok
        (record { name = "redis"; display_name = "Redis"; description = ""; version = "1.0" } ∷ []);
  get_complete_addon = λ entry. ok (record { addon = redis; charts = [] });
}

-- The writes of the cluster are counted.
abbrev outside : Outside ℕ
outside = record {
  ensure_asset_group = λ b n. (none, n);
  ensure_asset_group_removed = λ i n. (none, n);
  broker_exist = λ n. ok true;
  sync_broker = λ n. (none, suc n);
  list_configurations = λ n. ok [];
  update_configuration = λ a n. (ok a.meta.generation, suc n);
  update_configuration_status = λ a n. (none, suc n);
  request_reprocess = λ name n. (none, suc n);
  template_url = λ spec n. ok spec.url;
  new_getter =
      λ url n. if url == "https://charts" then ok getter else err (plain "no such repository");
  parse_version = λ text. if text == "1.0" then some one else none;
  plan_order = λ plans. plans;
  now = λ n. n;
}

abbrev services : Services (Stored ℕ)
services = in_memory "cluster-wide" outside

abbrev empty : Stored ℕ
empty = record { addons = record { key_to_id = []; storage = [] }; charts = []; outside = 0 }

abbrev configuration : CommonAddon
configuration = record {
  meta = record { name = "addons"; generation = 1; is_deleted = false; finalizers = [] };
  spec = record {
    reprocess_request = 0;
    repositories = record { url = "https://charts"; secret_ref = none } ∷ [];
  };
  status = record {
    phase = Phase.pending;
    last_processed_time = none;
    observed_generation = 1;
    repositories = [];
  };
}

abbrev result : Outcome CommonAddon → CommonAddon
result (done a) = a
result (failed_with e) = configuration
result panicked = configuration

-- The configuration after `OnAdd`, and the state.
abbrev added : CommonAddon
unfolding on_add ◌>>=◌
added = result (on_add services configuration configuration.status empty).0

abbrev stored : Stored ℕ
unfolding on_add ◌>>=◌
stored = (on_add services configuration configuration.status empty).1

added-IsReady : (added.status.phase ≡ Phase.ready) × (stored.outside ≡ 2)
unfolding added stored new_addons_repository helm_broker.Dict.lookup
    helm_broker.Storage.Addons.upsert new_repository_entry
added-IsReady = (refl, refl)

added-eq : on_add services configuration configuration.status empty ≡ (done added, stored)
unfolding added stored new_addons_repository helm_broker.Dict.lookup
    helm_broker.Storage.Addons.upsert new_repository_entry
added-eq = refl

on_add-reconcile_example :
    reconcile services 60 "addons" added stored
    ≡ (done (record { requeue_after = none; error = none }), stored)
on_add-reconcile_example =
    on_add-reconcile services 60 "addons" configuration configuration.status empty added stored
      stored added-eq refl refl

stored-one :
    (i : String) (b : Addon) → find_addon "cluster-wide" i stored.addons ≡ some b → b.version ≡ one
unfolding stored new_addons_repository helm_broker.Dict.lookup helm_broker.Storage.Addons.upsert
    new_repository_entry helm_broker.Dict.insert
stored-one i b h = ground arith

parsed_one :
    (text : String) (version : Version) → services.parse_version text ≡ some version → version ≡ one
parsed_one text version h = ground arith

stored-IsConsistent : IsConsistent services stored
stored-IsConsistent name text version b parsed h =
    let (i, e, q) = get-IsIndexed "cluster-wide" name version stored.addons b h in
    let same = stored-one i b q in
    (
      ap (λ v. v.canonical) (same ∙ sym (parsed_one text version parsed)),
      ap (λ v. is_empty v.original) same,
    )

abbrev deleted : Stored ℕ
unfolding on_delete ◌>>=◌ stored added
deleted = (on_delete services added stored).1

deleted-eq : on_delete services added stored ≡ (done tt, deleted)
unfolding deleted new_addons_repository helm_broker.Dict.lookup helm_broker.Storage.Addons.upsert
    new_repository_entry helm_broker.Storage.Addons.get helm_broker.Dict.insert
    helm_broker.Common.Keys.key_text helm_broker.Storage.Addons.remove helm_broker.Dict.values
deleted-eq = refl

on_delete-IsRemoved_example :
    (s' : Stored ℕ) × Every (IsRemoved services s') (status_addons added.status.repositories)
    × (kept : List String) × ((name : String)
        → exists_in (λ f. f == name) kept ≡ (
            exists_in (λ f. f == name) added.meta.finalizers
            && not (name == "addons.kyma-project.io")))
    × ((services.update_configuration
          (record added { meta = record (added.meta) { finalizers = kept } })
          s').1
        ≡ deleted)
on_delete-IsRemoved_example =
    on_delete-IsRemoved services (in_memory-IsForgetful "cluster-wide" outside) added stored deleted
      deleted-eq (ap is_ready_phase added-IsReady.0) stored-IsConsistent

abbrev without_orphans : Stored ℕ
unfolding delete_orphan_addons ◌>>=◌ stored added
without_orphans = (delete_orphan_addons services [] added.status.repositories stored).1

without_orphans-eq :
    delete_orphan_addons services [] added.status.repositories stored
    ≡ (done ("redis/1.0" ∷ []), without_orphans)
unfolding without_orphans new_addons_repository helm_broker.Dict.lookup
    helm_broker.Storage.Addons.upsert new_repository_entry helm_broker.Storage.Addons.get
    helm_broker.Dict.insert helm_broker.Common.Keys.key_text helm_broker.Storage.Addons.remove
    helm_broker.Dict.values
without_orphans-eq = refl

delete_orphan_addons-IsRemoved_example :
    Every
      (λ ad. (stays (status_addons []) ad ≡ true) ⊎ IsRemoved services without_orphans ad)
      (status_addons added.status.repositories)
delete_orphan_addons-IsRemoved_example =
    delete_orphan_addons-IsRemoved services (in_memory-IsForgetful "cluster-wide" outside) []
      added.status.repositories stored ("redis/1.0" ∷ []) without_orphans without_orphans-eq
      stored-IsConsistent

-- Two repositories with the same addon.
abbrev entry : Entry
entry = record (new_repository_entry "redis" one "https://charts") {
  id = "redis-id";
  addon = redis;
}

abbrev repository : String → Repository
repository url = record (new_addons_repository url) { entries = entry ∷ [] }

abbrev twice : Collection
twice = repository "https://charts" ∷ repository "https://mirror" ∷ []

revise_addon_duplication_in_repository_unique_example :
    count_if (is_ready_with "redis-id") (all_entries (revise_addon_duplication_in_repository twice))
    ≤ 1
revise_addon_duplication_in_repository_unique_example =
    revise_addon_duplication_in_repository_unique "redis-id" twice

abbrev others : List CommonAddon
others = added ∷ []

revise_addon_duplication_in_storage-no_clash_example :
    exists_in (is_clash others) (all_entries (revise_addon_duplication_in_storage others twice))
    ≡ false
revise_addon_duplication_in_storage-no_clash_example =
    revise_addon_duplication_in_storage-no_clash others twice
