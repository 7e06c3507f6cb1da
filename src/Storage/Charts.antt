-- ===== src/Storage/Charts.antt =====
-- internal/storage/driver/memory/entity_chart.go: charts by namespace, name and version.
use helm_broker.Common.{
  String, Bool, Option, none, some, if◌then◌else◌, is_empty, found, Error, plain, not_found, Result,
  ok, err, not, ◌||◌,
}
use helm_broker.Dict.{Dict, lookup, insert as set, delete}
use helm_broker.Common.Keys.{key_text}
use helm_broker.Model.Addons.{Namespace, Version}
use helm_broker.Model.Charts.{Chart}

abbrev pub Charts : Type 0
Charts = Dict Chart

-- `createKey`: the three texts with `|` between them.
abbrev create_key : Namespace → String → String → String
create_key = key_text

-- `keyFromChart`
unfoldable pub key_from_chart : Namespace → Option Chart → Result String
key_from_chart namespace none = err (plain "entity may not be nil")
key_from_chart namespace (some c) = elim c.metadata [
  | none ↦ err (plain "entity metadata may not be nil")
  | some m ↦
      if is_empty m.name || is_empty m.version
      then err (plain "both name and version must be set")
      else ok (create_key namespace m.name m.version)
]

-- `key`
unfoldable pub key : Namespace → String → Version → Result String
key namespace name ver =
    if is_empty name || is_empty ver.original
    then err (plain "both name and version must be set")
    else ok (create_key namespace name ver.original)

-- `Upsert`
unfoldable pub upsert : Namespace → Option Chart → Charts → Result Bool × Charts
upsert namespace none s = (err (plain "entity may not be nil"), s)
upsert namespace (some c) s = elim (key_from_chart namespace (some c)) [
  | err e ↦ (err e, s)
  | ok nvk ↦ (ok (found (lookup nvk s)), set nvk c s)
]

-- `Get`
unfoldable pub get : Namespace → String → Version → Charts → Result Chart
get namespace name ver s = elim (key namespace name ver) [
  | err e ↦ err e
  | ok nvk ↦ elim (lookup nvk s) [ none ↦ err not_found | some c ↦ ok c ]
]

-- `Remove`
unfoldable pub remove : Namespace → String → Version → Charts → Option Error × Charts
remove namespace name ver s = elim (key namespace name ver) [
  | err e ↦ (some e, s)
  | ok nvk ↦ if not (found (lookup nvk s)) then (some not_found, s) else (none, delete nvk s)
]
