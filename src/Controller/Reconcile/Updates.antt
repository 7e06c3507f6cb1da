-- ===== src/Controller/Reconcile/Updates.antt =====
-- internal/controller/common.go: the status of a configuration, its finalizers, and the writes of both.
use helm_broker.Common.{String, not, ◌==◌, none, some, List, [], ◌∷◌, wrap, ok, err, if◌then◌else◌}
use helm_broker.Model.Configurations.{CommonAddon, StatusAddon, StatusRepository, Phase}
use helm_broker.Controller.Entry.{Entry}
use helm_broker.Controller.Collection.{Collection}
use helm_broker.Controller.Protection.{add_finalizer}
use helm_broker.Controller.Services.{Services, done, failed_with, Task, wrapping, ◌>>=◌}

-- An entry, as the status shows it.
abbrev pub snapshot_entry : Entry → StatusAddon
snapshot_entry e = record {
  name = e.addon.name;
  version = e.addon.version.original;
  status = e.addon.status;
  reason = e.addon.reason;
  message = e.addon.message;
}

unfoldable pub snapshot_entries : List Entry → List StatusAddon
snapshot_entries [] = []
snapshot_entries (e ∷ es) = snapshot_entry e ∷ snapshot_entries es

-- `statusSnapshot`, the repositories that it sets.
unfoldable pub status_snapshot : Collection → List StatusRepository
unfolding snapshot_entries
status_snapshot [] = []
status_snapshot (r ∷ rs) =
    record (r.repository) { addons = snapshot_entries r.entries } ∷ status_snapshot rs

abbrev pub with_status : Phase → Collection → CommonAddon → CommonAddon
with_status phase rs a = record a {
  status = record (a.status) { phase = phase; repositories = status_snapshot rs };
}

-- The filter of `listExistingConfigurations`.
unfoldable pub other_configurations : String → List CommonAddon → List CommonAddon
other_configurations name [] = []
other_configurations name (c ∷ cs) =
    let rest = other_configurations name cs in if not (c.meta.name == name) then c ∷ rest else rest

module _ {S : Type 0} (c : Services S) where
  -- `UpdateConfiguration`, which writes the generation into the configuration.
  unfoldable pub update_configuration : CommonAddon → Task S CommonAddon
  update_configuration a s =
      let (r, s') = c.update_configuration a s in
      elim r [
        | err e ↦ (failed_with e, s')
        | ok generation ↦
            (done (record a { meta = record (a.meta) { generation = generation } }), s')
      ]

  abbrev pub processed : CommonAddon → S → CommonAddon
  processed a s = record a {
    status = record (a.status) {
      observed_generation = a.meta.generation;
      last_processed_time = some (c.now s);
    };
  }

  -- `updateAddonStatus`
  unfoldable pub update_addon_status : CommonAddon → Task S CommonAddon
  update_addon_status a s =
      let (e, s') = c.update_configuration_status (processed a s) s in
      elim e [ some e' ↦ (failed_with e', s') | none ↦ (done (processed a s), s') ]

  -- `addFinalizer` and `deleteFinalizer`
  unfoldable pub write_finalizers : (List String → List String) → CommonAddon → Task S CommonAddon
  unfolding update_configuration
  write_finalizers f a =
      update_configuration
        (record a { meta = record (a.meta) { finalizers = f a.meta.finalizers } })

  -- `PrepareForProcessing`
  unfoldable pub prepare_for_processing : CommonAddon → Task S CommonAddon
  unfolding write_finalizers update_addon_status add_finalizer
  prepare_for_processing a = do
    a' ← wrapping "while adding finalizer" (write_finalizers add_finalizer a)
    wrapping "while updating status"
        (update_addon_status (record a' { status = record (a'.status) { phase = Phase.pending } }))

  -- `listExistingConfigurations`
  unfoldable pub list_existing_configurations : String → Task S (List CommonAddon)
  unfolding other_configurations
  list_existing_configurations name s = elim (c.list_configurations s) [
    | err e ↦ (failed_with (wrap "while listing addons configurations" e), s)
    | ok cfgs ↦ (done (other_configurations name cfgs), s)
  ]
