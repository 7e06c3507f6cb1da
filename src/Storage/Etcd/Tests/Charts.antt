-- ===== src/Storage/Etcd/Tests/Charts.antt =====
-- A chart whose version is not in canonical form, in a key-value store in memory.
use helm_broker.Common.{String, ◌≡◌, ◌≢◌, refl, some, none, [], ok, arith, eq_iff}
use helm_broker.Common.Outcomes.{done}
use helm_broker.Dict.{Dict}
use helm_broker.Model.Addons.{Version, ChartRef}
use helm_broker.Model.Charts.{ChartMetadata}
use helm_broker.Storage.Etcd.Addons.Dso.{gob_encode, gob_decode}
use helm_broker.Storage.Etcd.Tests.Addons.{encoding as addons_encoding}
use helm_broker.Storage.Etcd.Charts.{ChartEncoding, upsert, get}
use helm_broker.Storage.Etcd.Charts.Trees.{
  ChartTree, chart, no_dependencies, dependency, to_dto, written,
}
use helm_broker.Storage.Etcd.Charts.References.{
  IsStorable, get-upsert_chart, get-upsert_persisted_ref,
}
use helm_broker.Storage.Etcd.Tests.{kv, reliable}

abbrev redis_metadata : ChartMetadata
redis_metadata = record { name = "redis"; version = "v1.0.0" }

abbrev common : ChartTree
common = chart (record { metadata = none; content = "common" }) no_dependencies

abbrev redis : ChartTree
redis =
    chart (record { metadata = some redis_metadata; content = "redis" })
      (dependency common no_dependencies)

abbrev version_1 : Version
version_1 = record { original = "v1.0.0"; canonical = "1.0.0" }

abbrev encoding : ChartEncoding
unfolding to_dto written
encoding = record {
  new_version = λ t. ok version_1;
  json = record { encode = λ d. ok "redis"; decode = λ t. ok (written (to_dto redis)) };
}

redis-IsStorable : IsStorable encoding redis redis_metadata version_1
unfolding encoding
redis-IsStorable = record {
  has_metadata = refl;
  named = refl;
  versioned = refl;
  parsed = refl;
  original = refl;
  text = "redis";
  encoded = refl;
  decoded = refl;
}

abbrev empty : Dict String
empty = []

get-upsert_chart_example :
    get encoding kv "dev" "redis" version_1 (upsert encoding kv "dev" (some redis) empty).1
    ≡ done redis
get-upsert_chart_example =
    get-upsert_chart encoding redis redis_metadata version_1 redis-IsStorable kv reliable "dev"
      empty

texts_differ : version_1.original ≢ version_1.canonical
texts_differ h = ground (arith, eq_iff "v1.0.0" "1.0.0")

-- The reference as it is read back, by the parser of the addons' store.
abbrev read_ref : ChartRef
read_ref = record { name = "redis"; version = record { original = "1.0.0"; canonical = "1.0.0" } }

is_read :
    gob_decode addons_encoding (gob_encode (record { name = "redis"; version = version_1 }))
    ≡ done read_ref
unfolding gob_decode
is_read = refl

get-upsert_persisted_ref_example :
    get encoding kv "dev" read_ref.name read_ref.version
      (upsert encoding kv "dev" (some redis) empty).1
    ≡ get encoding kv "dev" read_ref.name read_ref.version empty
get-upsert_persisted_ref_example =
    get-upsert_persisted_ref encoding redis redis_metadata version_1 redis-IsStorable kv reliable
      addons_encoding read_ref "dev" empty refl texts_differ is_read
