-- ===== src/Storage/Etcd/Charts.antt =====
-- internal/storage/driver/etcd/entity_chart.go: charts with their dependencies, by namespace, name and version.
pub mod Trees
pub mod References
use Prim.Native.String.{◌++◌}
use helm_broker.Common.{
  ℕ, String, Bool, true, false, Option, none, some, List, [], ◌∷◌, ◌||◌, if◌then◌else◌, is_empty,
  Error, plain, wrap, not_found, Result, ok, err, wrap_result,
}
use helm_broker.Common.Outcomes.{Outcome, failed_with, wrap_outcome}
use helm_broker.Model.Addons.{Namespace, Version}
use helm_broker.Model.Charts.{Chart, ChartMetadata}
use helm_broker.Storage.Etcd.{Kv, Codec, deletion_error}
use helm_broker.Storage.Etcd.Charts.Trees.{ChartTree, top, Dto, to_dto, from_dto, has_no_main}

-- `key`; the empty namespace is that of the cluster.
unfoldable pub key : Namespace → String → String
key namespace nv = (if is_empty namespace then "cluster" else "ns|" ++ namespace) ++ ("|" ++ nv)

abbrev pub name_version_error : Error
name_version_error = plain "both name and version must be set"

-- `nameVersion`, with the text of the version as it was read
unfoldable pub name_version : String → Version → Result String
name_version name ver =
    if is_empty name || is_empty ver.original
    then err name_version_error
    else ok (name ++ ("|" ++ ver.original))

-- `semver.NewVersion`, and JSON of charts with their dependencies beside them.
pub record ChartEncoding : Type 0 where
  pub new_version : String → Result Version
  pub json : Codec Dto

module _ (e : ChartEncoding) where
  unfoldable pub name_version_of : ChartMetadata → Result String
  unfolding name_version
  name_version_of m =
      if is_empty m.name || is_empty m.version
      then err name_version_error
      else elim (wrap_result "while parsing version" (e.new_version m.version)) [
        | err x ↦ err x
        | ok ver ↦ name_version m.name ver
      ]

  -- `nameVersionFromChart`
  unfoldable pub name_version_from_chart : Option ChartTree → Result String
  unfolding name_version_of
  name_version_from_chart none = err (plain "entity may not be nil")
  name_version_from_chart (some c) = elim (top c).metadata [
    | none ↦ err (plain "entity metadata may not be nil")
    | some m ↦ name_version_of m
  ]

  -- `encodeChart`
  unfoldable pub encode_chart : ChartTree → Result String
  unfolding to_dto
  encode_chart c = wrap_result "while encoding entity" (e.json.encode (to_dto c))

  -- `decodeChart`
  unfoldable pub decode_chart : String → Outcome ChartTree
  unfolding from_dto
  decode_chart raw = elim (e.json.decode raw) [
    | err x ↦ failed_with x
    | ok obj ↦ if has_no_main obj then failed_with (plain "chart cannot be nil") else from_dto obj
  ]

  module _ {S : Type 0} (kv : Kv S) where
    -- `Upsert`
    unfoldable pub upsert : Namespace → Option ChartTree → S → Result Bool × S
    unfolding name_version_from_chart encode_chart key
    upsert namespace none s = (err (plain "entity may not be nil"), s)
    upsert namespace (some c) s = elim (name_version_from_chart (some c)) [
      | err x ↦ (err x, s)
      | ok nv ↦ elim (wrap_result "while encoding chart" (encode_chart c)) [
        | err x ↦ (err x, s)
        | ok encoded ↦
            let (r, s') = kv.put (key namespace nv) encoded s in
            (wrap_result "while calling database" r, s')
      ]
    ]

    -- The read of `Get`.
    unfoldable pub decoded_chart : Result (List String) → Outcome ChartTree
    unfolding decode_chart
    decoded_chart (err x) = failed_with (wrap "while calling database" x)
    decoded_chart (ok []) = failed_with not_found
    decoded_chart (ok (v ∷ [])) = wrap_outcome "while decoding single DSO" (decode_chart v)
    decoded_chart (ok (v ∷ w ∷ vs)) =
        failed_with (plain "more than one element matching requested id, should never happen")

    -- `Get`
    unfoldable pub get : Namespace → String → Version → S → Outcome ChartTree
    unfolding name_version key decoded_chart
    get namespace name ver s = elim (name_version name ver) [
      | err x ↦ failed_with x
      | ok nv ↦ decoded_chart (kv.get (key namespace nv) s)
    ]

    -- `Remove`
    unfoldable pub remove : Namespace → String → Version → S → Option Error × S
    unfolding name_version key
    remove namespace name ver s =
        elim (wrap_result "while getting nameVersion from deleted entity" (name_version name ver)) [
          | err x ↦ (some x, s)
          | ok nv ↦ let (r, s') = kv.delete (key namespace nv) s in (deletion_error r, s')
        ]
