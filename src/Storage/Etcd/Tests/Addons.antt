-- ===== src/Storage/Etcd/Tests/Addons.antt =====
-- Addons in a key-value store in memory, with an encoding that knows one addon.
use helm_broker.Common.{
  String, ◌≡◌, refl, true, false, none, some, [], ◌∷◌, ok, err, plain, found, exists_in, Every,
  if◌then◌else◌, ◌==◌,
}
use helm_broker.Common.Outcomes.{done}
use helm_broker.Dict.{Dict, lookup, values}
use helm_broker.Model.Addons.{Addon, AddonPlan, Version, ready, no_reason}
use helm_broker.Storage.Etcd.{IsEncoded}
use helm_broker.Storage.Etcd.Addons.{upsert, get, get_by_id, find_all, id_key}
use helm_broker.Storage.Etcd.Addons.Dso.{AddonDso, Encoding, new_addon_dso, decode_addon}
use helm_broker.Storage.Etcd.Addons.RoundTrip.{
  persisted_plans, persisted, ParsesVersions, IsRestored, get-upsert-persisted,
}
use helm_broker.Storage.Etcd.Addons.Prefixes.{has_id, find_all-longer}
use helm_broker.Storage.Etcd.Tests.{with_prefix, kv, reliable, reads}

abbrev version_1 : Version
version_1 = record { original = "1.0"; canonical = "1.0.0" }

abbrev micro : AddonPlan
micro = record {
  id = "micro-id";
  name = "micro";
  description = "";
  schemas = [];
  chart_ref = record { name = "redis"; version = version_1 };
  chart_values = none;
  display_name = "Micro";
  bindable = none;
  free = some true;
  bind_template = none;
}

abbrev redis : Addon
redis = record {
  id = "redis-id";
  name = "redis";
  version = version_1;
  description = "";
  plans = ("micro-id", micro) ∷ [];
  metadata = record {
    display_name = "Redis";
    provider_display_name = "";
    long_description = "";
    documentation_url = "";
    support_url = "";
    provision_only_once = false;
    image_url = "";
    labels = none;
  };
  repository_url = "https://addons";
  tags = [];
  requires = "volume" ∷ [];
  bindable = true;
  bindings_retrievable = true;
  plan_updatable = some true;
  docs = [];
  status = ready;
  reason = no_reason;
  message = "";
}

abbrev redis_dso : AddonDso
redis_dso = record {
  id = "redis-id";
  name = "redis";
  version = "1.0.0";
  description = "";
  plans =
      (
        "micro-id",
        record {
          id = "micro-id";
          name = "micro";
          description = "";
          schemas = [];
          chart_ref = record { name = "redis"; version = "1.0.0" };
          chart_values = "null";
          display_name = "Micro";
          bind_template = none;
          bindable = none;
          free = none;
        },
      )
      ∷ [];
  metadata = redis.metadata;
  tags = [];
  requires = [];
  bindable = true;
  bindings_retrievable = false;
  plan_updatable = none;
  repository_url = "https://addons";
}

abbrev pub encoding : Encoding
encoding = record {
  values = record { encode = λ v. ok "null"; decode = λ t. ok none };
  new_version = λ t.
      if t == "1.0.0"
      then ok (record { original = "1.0.0"; canonical = "1.0.0" })
      else err (plain "Invalid Semantic Version");
  gob = record { encode = λ d. ok "redis"; decode = λ t. ok redis_dso };
}

redis-ParsesVersions : ParsesVersions encoding redis
unfolding ParsesVersions values Every
redis-ParsesVersions = (refl, (refl, tt))

gob_restores : (dso : AddonDso) → new_addon_dso encoding redis ≡ ok dso → IsEncoded encoding.gob dso
unfolding new_addon_dso
gob_restores dso h = ("redis", refl, h)

values_restore : IsEncoded encoding.values micro.chart_values
values_restore = ("null", refl, refl)

redis-IsRestored : IsRestored encoding redis
unfolding values Every
redis-IsRestored = record { values_restored = (values_restore, tt); gob_restored = gob_restores }

abbrev empty : Dict String
empty = []

get-upsert-persisted_example :
    let r = upsert kv encoding "dev" (some redis) empty in
    (r.0 ≡ ok (found (lookup (id_key "dev" "redis-id") empty)))
    × (get_by_id kv encoding "dev" "redis-id" r.1 ≡ done (persisted redis))
    × (get kv encoding "dev" "redis" version_1 r.1 ≡ done (persisted redis))
get-upsert-persisted_example =
    get-upsert-persisted kv encoding reliable "dev" redis empty redis-ParsesVersions
      redis-IsRestored refl refl

-- The namespace dev-2 has an addon, and dev has none.
abbrev in_dev_2 : Dict String
in_dev_2 = ("id/ns/dev-2/redis-id", "redis") ∷ []

stored : lookup (id_key "dev-2" "redis-id") in_dev_2 ≡ some "redis"
unfolding lookup id_key
stored = refl

decoded : decode_addon encoding "redis" ≡ done (persisted redis)
unfolding decode_addon persisted_plans
decoded = refl

all_found : find_all kv encoding "dev" in_dev_2 ≡ done (persisted redis ∷ [])
unfolding find_all persisted_plans with_prefix
all_found = refl

find_all-longer_example : exists_in (has_id "redis-id") (persisted redis ∷ []) ≡ true
find_all-longer_example =
    find_all-longer kv encoding reliable reads "dev" "-2" (persisted redis) "redis" in_dev_2
      (persisted redis ∷ []) refl stored decoded all_found
