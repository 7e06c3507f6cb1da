-- ===== src/Storage/Tests.antt =====
-- Runs of the in-memory stores.
use helm_broker.Common.{
  ◌≡◌, ◌≢◌, refl, true, false, none, some, [], ok, arith, count_if, exists_in, eq_iff,
  already_exists,
}
use helm_broker.Common.Keys.{key_text}
use helm_broker.Dict.{lookup, insert as set, values}
use helm_broker.Dict.Nested.{find}
use helm_broker.Model.Addons.{Addon, ready, no_reason}
use helm_broker.Model.Operations.{InstanceOperation, BindOperation, create, in_progress}
use helm_broker.Storage.Operations
use helm_broker.Storage.Operations.{InstanceOperations}
use helm_broker.Storage.Operations.Invariant.{IsValid, empty-IsValid, insert-IsValid}
use helm_broker.Storage.Operations.Views.{insert-find}
use helm_broker.Storage.BindOperations.Exclusive.{IsExclusive}
use helm_broker.Storage.Addons
use helm_broker.Storage.Addons.{AddonStore}
use helm_broker.Storage.Addons.Reads.{get-upsert_other_id}

abbrev creation : InstanceOperation
creation = record {
  instance_id = "i";
  operation_id = "op-1";
  type = create;
  state = in_progress;
  state_description = none;
  provisioning_parameters = none;
  created_at = 0;
}

abbrev one_operation : InstanceOperations
one_operation = (Operations.insert 7 (some creation) []).1

one_operation-IsValid : IsValid one_operation
one_operation-IsValid = insert-IsValid 7 (some creation) empty-IsValid

-- The second insertion is refused.
insert-IsValid_example :
    IsValid (Operations.insert 8 (some (record creation { operation_id = "op-2" })) one_operation).1
insert-IsValid_example =
    insert-IsValid 8 (some (record creation { operation_id = "op-2" })) one_operation-IsValid

-- The second insertion of the operation is refused, as its ids are taken.
insert-find_example :
    ((Operations.insert 8 (some creation) one_operation).0 ≡ some already_exists)
    × (find "i" "op-1" (Operations.insert 8 (some creation) one_operation).1
        ≡ some (record creation { created_at = 7 }))
unfolding lookup exists_in values Operations.insert set
insert-find_example = insert-find 8 creation one_operation "i" "op-1"

abbrev binding : BindOperation
binding = record {
  instance_id = "i";
  binding_id = "b";
  operation_id = "op-1";
  type = create;
  state = in_progress;
  state_description = none;
  created_at = 0;
}

no_operations-IsExclusive : IsExclusive []
unfolding lookup values count_if
no_operations-IsExclusive i = omega arith

abbrev redis : Addon
redis = record {
  id = "addon-1";
  name = "redis";
  version = record { original = "1.0.0"; canonical = "1.0.0" };
  description = "";
  plans = [];
  metadata = record {
    display_name = "";
    provider_display_name = "";
    long_description = "";
    documentation_url = "";
    support_url = "";
    provision_only_once = false;
    image_url = "";
    labels = none;
  };
  repository_url = "";
  tags = [];
  requires = [];
  bindable = true;
  bindings_retrievable = true;
  plan_updatable = none;
  docs = [];
  status = ready;
  reason = no_reason;
  message = "";
}

abbrev no_addons : AddonStore
no_addons = record { key_to_id = []; storage = [] }

-- A second addon with the name and the version of the first.
abbrev renamed : Addon
renamed = record redis { id = "addon-2" }

abbrev one_addon : AddonStore
one_addon = (Addons.upsert "ns" (some redis) no_addons).1

other_id : renamed.id ≢ redis.id
other_id e = ground (arith, eq_iff "addon-2" "addon-1")

get-upsert_other_id_example :
    ((Addons.upsert "ns" (some renamed) one_addon).0 ≡ ok true)
    × ((Addons.get "ns" "redis" redis.version (Addons.upsert "ns" (some renamed) one_addon).1).0
        ≡ ok redis)
unfolding Addons.upsert Addons.key_from_addon Addons.key lookup set key_text
get-upsert_other_id_example =
    get-upsert_other_id "ns" renamed "addon-1" one_addon refl refl other_id
