-- ===== src/Storage/Etcd/Charts/References.antt =====
-- What a chart's reference finds after the chart was stored: the reference as it was loaded, and as a stored
-- addon has it.
use Prim.Native.String.{◌++◌}
use mathlib.Core.Path.{subst}
use text.Mathlib.TextLemmas.{append_cancel_left}
use helm_broker.Common.{
  String, ◌≡◌, ◌≢◌, refl, false, some, ◌==◌, ok, arith, is_empty, Bool-cases, inl, inr, eq_iff,
  eq_refl, if◌then◌else◌,
}
use helm_broker.Common.Keys.{append-not_empty}
use helm_broker.Common.Outcomes.{done}
use helm_broker.Model.Addons.{Namespace, Version, ChartRef}
use helm_broker.Model.Charts.{ChartMetadata}
use helm_broker.Storage.Etcd.{Kv, IsReliable}
use helm_broker.Storage.Etcd.Addons.Dso.{Encoding, gob_encode, gob_decode}
use helm_broker.Storage.Etcd.Addons.RoundTrip.{reparsed, Parses}
use helm_broker.Storage.Etcd.Charts.{
  ChartEncoding, key, name_version, name_version_of, name_version_from_chart, encode_chart,
  decode_chart, upsert, get, decoded_chart,
}
use helm_broker.Storage.Etcd.Charts.Trees.{
  ChartTree, top, to_dto, written, has_no_main, from_dto-to_dto,
}

-- The chart has a name and a version that parses, and JSON restores what it keeps of the chart.
pub record IsStorable (e : ChartEncoding) (c : ChartTree) (m : ChartMetadata) (ver : Version)
    : Type 0 where
  pub has_metadata : (top c).metadata ≡ some m
  pub named : is_empty m.name ≡ false
  pub versioned : is_empty m.version ≡ false
  pub parsed : e.new_version m.version ≡ ok ver
  pub original : ver.original ≡ m.version
  pub text : String
  pub encoded : e.json.encode (to_dto c) ≡ ok text
  pub decoded : e.json.decode text ≡ ok (written (to_dto c))

key-not_empty : (namespace : Namespace) (nv : String) → is_empty (key namespace nv) ≡ false
unfolding key
key-not_empty namespace nv = elim (Bool-cases (is_empty namespace)) [
  | inl h ↦ rw h (append-not_empty "cluster" ("|" ++ nv) refl)
  | inr h ↦
      rw h
        (append-not_empty ("ns|" ++ namespace) ("|" ++ nv) (append-not_empty "ns|" namespace refl))
]

module _ (e : ChartEncoding) (c : ChartTree) (m : ChartMetadata) (ver : Version)
    (h : IsStorable e c m ver) where
  name_version-set : name_version m.name ver ≡ ok (m.name ++ ("|" ++ ver.original))
  unfolding name_version
  name_version-set = ground (arith, h.named, h.versioned, h.original)

  chart-name_version : name_version_from_chart e (some c) ≡ ok (m.name ++ ("|" ++ ver.original))
  unfolding name_version_from_chart name_version_of
  chart-name_version =
      ground (arith, h.has_metadata, h.named, h.versioned, h.parsed, name_version-set)

  has_main : (d : ChartTree) → has_no_main (written (to_dto d)) ≡ false
  unfolding written to_dto
  has_main (ChartTree.chart x deps) = refl

  chart-restored : decode_chart e h.text ≡ done c
  unfolding decode_chart
  chart-restored = ground (arith, h.decoded, has_main c, from_dto-to_dto c)

  -- What a written reference to the chart is read as.
  decoded_ref :
      (addons : Encoding) (ref : ChartRef)
      → Parses addons ver
      → gob_decode addons (gob_encode (record { name = m.name; version = ver })) ≡ done ref
      → let read : ChartRef = record { name = m.name; version = reparsed ver } in read ≡ ref
  unfolding gob_decode
  decoded_ref addons ref p r = ground (arith, p, r)

  module _ {S : Type 0} (kv : Kv S) (reliable : IsReliable kv) where
    upsert-put :
        (namespace : Namespace) (s : S)
        → (upsert e kv namespace (some c) s).1
          ≡ (kv.put (key namespace (m.name ++ ("|" ++ ver.original))) h.text s).1
    unfolding upsert encode_chart
    upsert-put namespace s = ground (arith, h.encoded, chart-name_version)

    -- Over a cluster that is reached: after `Upsert` of a chart that JSON restores, `Get` by its name and its version,
    -- with the text that the chart has, returns the chart with all its dependencies.
    pub get-upsert_chart :
        (namespace : Namespace) (s : S)
        → get e kv namespace m.name ver (upsert e kv namespace (some c) s).1 ≡ done c
    unfolding get decoded_chart
    get-upsert_chart namespace s =
        let k = key namespace (m.name ++ ("|" ++ ver.original)) in
        let k_set = key-not_empty namespace (m.name ++ ("|" ++ ver.original)) in
        rw (upsert-put namespace s) (
          ground (
            arith,
            name_version-set,
            reliable.get_value k (kv.put k h.text s).1 k_set,
            reliable.put_value k h.text s k k_set,
            eq_refl k,
            chart-restored,
          ))

    other_key :
        (namespace : Namespace)
        → ver.original ≢ ver.canonical
        → (key namespace (m.name ++ ("|" ++ ver.original))
            == key namespace (m.name ++ ("|" ++ ver.canonical)))
          ≡ false
    unfolding key
    other_key namespace d =
        elim (Bool-cases (
          key namespace (m.name ++ ("|" ++ ver.original))
          == key namespace (m.name ++ ("|" ++ ver.canonical)))) [
            | inr q ↦ q
            | inl q ↦ absurd (
                d (
                  append_cancel_left "|" _ _ (
                    append_cancel_left m.name _ _ (
                      append_cancel_left "|" _ _ (
                        append_cancel_left
                          (if is_empty namespace then "cluster" else "ns|" ++ namespace) _ _
                          ((eq_iff _ _).0 q))))))
          ]

    other_version :
        (namespace : Namespace) (s : S)
        → ver.original ≢ ver.canonical
        → get e kv namespace m.name (reparsed ver) (upsert e kv namespace (some c) s).1
          ≡ get e kv namespace m.name (reparsed ver) s
    unfolding get name_version
    other_version namespace s d =
        let k = key namespace (m.name ++ ("|" ++ ver.original)) in
        let j = key namespace (m.name ++ ("|" ++ ver.canonical)) in
        let k_set = key-not_empty namespace (m.name ++ ("|" ++ ver.original)) in
        let j_set = key-not_empty namespace (m.name ++ ("|" ++ ver.canonical)) in
        rw (upsert-put namespace s) (
          ground (
            arith,
            reliable.get_value j (kv.put k h.text s).1 j_set,
            reliable.get_value j s j_set,
            reliable.put_value k h.text s j k_set,
            other_key namespace d,
          ))

    -- Over a cluster that is reached, for a chart whose version's text is not the canonical form that the version
    -- prints and is parsed from again: a reference to the chart that is written by `GobEncode` and read by
    -- `GobDecode`, as those of a stored addon are, finds after `Upsert` of the chart what it found before.
    pub get-upsert_persisted_ref :
        (addons : Encoding) (ref : ChartRef) (namespace : Namespace) (s : S)
        → Parses addons ver
        → ver.original ≢ ver.canonical
        → gob_decode addons (gob_encode (record { name = m.name; version = ver })) ≡ done ref
        → get e kv namespace ref.name ref.version (upsert e kv namespace (some c) s).1
          ≡ get e kv namespace ref.name ref.version s
    unfolding gob_decode
    get-upsert_persisted_ref addons ref namespace s p d r =
        subst
          (λ x.
            get e kv namespace x.name x.version (upsert e kv namespace (some c) s).1
            ≡ get e kv namespace x.name x.version s)
          (decoded_ref addons ref p r) (other_version namespace s d)
