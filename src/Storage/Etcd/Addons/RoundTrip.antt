-- ===== src/Storage/Etcd/Addons/RoundTrip.antt =====
-- What the etcd store gives back of an addon that was stored.
use Prim.Native.String.{◌++◌}
use helm_broker.Common.{
  String, ◌≡◌, refl, false, none, some, [], ◌∷◌, ok, arith, is_empty, found, Every, Bool-cases, inl,
  inr, eq_refl, ◌∙◌,
}
use helm_broker.Common.Keys.{append-not_empty}
use helm_broker.Common.Outcomes.{done}
use helm_broker.Dict.{Dict, values}
use helm_broker.Model.Addons.{Addon, AddonPlan, Namespace, Version, unset, no_reason}
use helm_broker.Storage.Etcd.{Kv, IsReliable, IsEncoded}
use helm_broker.Storage.Etcd.Addons.{
  upsert, get, get_by_id, id_key, name_version_key, name_version, name_version_from_addon,
  put_name_version, handle_get_resp,
}
use helm_broker.Storage.Etcd.Addons.Dso.{
  AddonPlanDso, AddonDso, Encoding, gob_decode, new_addon_plan_dso, plan_dsos, new_addon_dso,
  dso_of, encode_addon, plan_to_model, decode_refs, plan_models, new_model, decode_addon,
}

-- A version that was printed in its canonical form and parsed.
abbrev pub reparsed : Version → Version
reparsed ver = record { original = ver.canonical; canonical = ver.canonical }

-- What is left of a plan, and of an addon, in the store: `Free`, `Requires`, `BindingsRetrievable`,
-- `PlanUpdatable`, the documentation and the original texts of versions are lost.
abbrev pub persisted_plan : AddonPlan → AddonPlan
persisted_plan plan = record plan {
  chart_ref = record { name = plan.chart_ref.name; version = reparsed plan.chart_ref.version };
  free = none;
}

unfoldable pub persisted_plans : Dict AddonPlan → Dict AddonPlan
persisted_plans [] = []
persisted_plans ((k, plan) ∷ rest) = (k, persisted_plan plan) ∷ persisted_plans rest

abbrev pub persisted : Addon → Addon
persisted a = record a {
  version = reparsed a.version;
  plans = persisted_plans a.plans;
  requires = [];
  bindings_retrievable = false;
  plan_updatable = none;
  docs = [];
  status = unset;
  reason = no_reason;
  message = "";
}

-- `semver.NewVersion` parses what `String()` prints of the version.
abbrev pub Parses : Encoding → Version → Type 0
Parses e ver = e.new_version ver.canonical ≡ ok (reparsed ver)

-- The version of the addon, and those of its plans' charts, are parsed again from what is printed of them.
unfoldable pub ParsesVersions : Encoding → Addon → Type 0
ParsesVersions e a =
    Parses e a.version × Every (λ plan. Parses e plan.chart_ref.version) (values a.plans)

-- JSON restores the chart values of the addon's plans, and gob what is written of the addon.
pub record IsRestored (e : Encoding) (a : Addon) : Type 0 where
  pub values_restored : Every (λ plan. IsEncoded e.values plan.chart_values) (values a.plans)
  pub gob_restored : (dso : AddonDso) → new_addon_dso e a ≡ ok dso → IsEncoded e.gob dso

module _ (e : Encoding) where
  plan-restored :
      (plan : AddonPlan)
      → Parses e plan.chart_ref.version
      → IsEncoded e.values plan.chart_values
      → (dso : AddonPlanDso) × (new_addon_plan_dso e plan ≡ ok dso)
        × (gob_decode e dso.chart_ref ≡ done (persisted_plan plan).chart_ref)
        × (plan_to_model e dso (persisted_plan plan).chart_ref ≡ done (persisted_plan plan))
  unfolding new_addon_plan_dso gob_decode plan_to_model
  plan-restored plan parsed (t, enc, dec) = (
    record {
      id = plan.id;
      name = plan.name;
      description = plan.description;
      schemas = plan.schemas;
      chart_ref = record { name = plan.chart_ref.name; version = plan.chart_ref.version.canonical };
      chart_values = t;
      display_name = plan.display_name;
      bind_template = plan.bind_template;
      bindable = plan.bindable;
      free = none;
    },
    ground arith,
    ground (arith, parsed),
    ground arith,
  )

  plans-restored :
      (plans : Dict AddonPlan)
      → Every (λ plan. Parses e plan.chart_ref.version) (values plans)
      → Every (λ plan. IsEncoded e.values plan.chart_values) (values plans)
      → (dsos : Dict AddonPlanDso) × (plan_dsos e plans ≡ ok dsos)
        × (decoded : Dict _) × (decode_refs e dsos ≡ done decoded)
        × (plan_models e decoded ≡ done (persisted_plans plans))
  unfolding plan_dsos decode_refs plan_models persisted_plans Every values
  plans-restored [] ps h = ([], refl, [], refl, refl)
  plans-restored ((k, plan) ∷ rest) (parsed, all_parsed) (h, hs) =
      let (dso, p, q, r) = plan-restored plan parsed h in
      let (dsos, ps, decoded, qs, rs) = plans-restored rest all_parsed hs in
      (
        (k, dso) ∷ dsos,
        ground arith,
        (k, (dso, (persisted_plan plan).chart_ref)) ∷ decoded,
        ground arith,
        ground arith,
      )

  -- An addon that is written and read is the persisted addon.
  addon-restored :
      (a : Addon)
      → ParsesVersions e a
      → IsRestored e a
      → (t : String) × (encode_addon e a ≡ ok t) × (decode_addon e t ≡ done (persisted a))
  unfolding encode_addon new_addon_dso decode_addon new_model ParsesVersions
  addon-restored a (parsed, all_parsed) h =
      let (dsos, p, decoded, q, r) = plans-restored a.plans all_parsed h.values_restored in
      let (t, enc, dec) = h.gob_restored (dso_of e a dsos) (ground arith) in
      (t, ground arith, ground (arith, parsed))

id_key-not_empty : (namespace : Namespace) (i : String) → is_empty (id_key namespace i) ≡ false
unfolding id_key
id_key-not_empty namespace i = elim (Bool-cases (is_empty namespace)) [
  | inl h ↦ rw h (append-not_empty "id/cluster" ("/" ++ i) refl)
  | inr h ↦ rw h (
      append-not_empty ("id/ns/" ++ namespace) ("/" ++ i)
        (append-not_empty "id/ns/" namespace refl))
]

name_version_key-not_empty :
    (namespace : Namespace) (nv : String) → is_empty (name_version_key namespace nv) ≡ false
unfolding name_version_key
name_version_key-not_empty namespace nv = elim (Bool-cases (is_empty namespace)) [
  | inl h ↦ rw h (append-not_empty "nv/cluster/" nv refl)
  | inr h ↦ rw h (append-not_empty "nv/ns/" (namespace ++ ("/" ++ nv)) refl)
]

module _ {S : Type 0} (kv : Kv S) (e : Encoding) (reliable : IsReliable kv) where
  -- A key that has one value is read as that value.
  read-one :
      (k v : String) (s : S)
      → is_empty k ≡ false
      → reliable.value_of s k ≡ some v
      → handle_get_resp kv e (kv.get k s) ≡ decode_addon e v
  unfolding handle_get_resp
  read-one k v s h q = rw (reliable.get_value k s h, q) refl

  -- The two writes of `Upsert`.
  put_twice :
      (i nv v : String) (s : S)
      → is_empty i ≡ false
      → is_empty nv ≡ false
      → let r = put_name_version kv e nv v (kv.put i v s) in
        (r.0 ≡ ok (found (reliable.value_of s i)))
        × (reliable.value_of r.1 i ≡ some v)
        × (reliable.value_of r.1 nv ≡ some v)
  unfolding put_name_version
  put_twice i nv v s hi hn = ground (
    arith,
    reliable.put_result i v s hi,
    reliable.put_result nv v (kv.put i v s).1 hn,
    reliable.put_value i v s i hi,
    reliable.put_value nv v (kv.put i v s).1 i hn,
    reliable.put_value nv v (kv.put i v s).1 nv hn,
    eq_refl i,
    eq_refl nv,
  )

  -- `Upsert` of an addon that is encoded does its two writes.
  upsert-writes :
      (namespace : Namespace) (a : Addon) (t : String) (s : S)
      → encode_addon e a ≡ ok t
      → is_empty a.name ≡ false
      → is_empty a.version.original ≡ false
      → upsert kv e namespace (some a) s
        ≡ put_name_version kv e
            (name_version_key namespace (a.name ++ ("|" ++ a.version.canonical)))
            t
            (kv.put (id_key namespace a.id) t s)
  unfolding upsert name_version_from_addon name_version
  upsert-writes namespace a t s enc named versioned = ground arith

  get-read :
      (namespace : Namespace) (a : Addon) (s : S)
      → is_empty a.name ≡ false
      → is_empty a.version.original ≡ false
      → get kv e namespace a.name a.version s
        ≡ handle_get_resp kv e
            (kv.get (name_version_key namespace (a.name ++ ("|" ++ a.version.canonical))) s)
  unfolding get name_version
  get-read namespace a s named versioned = ground arith

  -- Over a cluster that is reached, for an addon with a name and a version that the encodings restore, where its
  -- version and those of its plans' charts are parsed again from their canonical form: `Upsert` reports whether
  -- its id was known, and both `GetByID` and `Get` by name and version then return the addon without `Free` of its
  -- plans, `Requires`, `BindingsRetrievable`, `PlanUpdatable`, its documentation and its status, and with versions
  -- in their canonical form only.
  pub get-upsert-persisted :
      (namespace : Namespace) (a : Addon) (s : S)
      → ParsesVersions e a
      → IsRestored e a
      → is_empty a.name ≡ false
      → is_empty a.version.original ≡ false
      → let r = upsert kv e namespace (some a) s in
        (r.0 ≡ ok (found (reliable.value_of s (id_key namespace a.id))))
        × (get_by_id kv e namespace a.id r.1 ≡ done (persisted a))
        × (get kv e namespace a.name a.version r.1 ≡ done (persisted a))
  unfolding get_by_id
  get-upsert-persisted namespace a s parses h named versioned =
      let (t, enc, dec) = addon-restored e a parses h in
      let i = id_key namespace a.id in
      let nv = name_version_key namespace (a.name ++ ("|" ++ a.version.canonical)) in
      let i_set = id_key-not_empty namespace a.id in
      let nv_set = name_version_key-not_empty namespace (a.name ++ ("|" ++ a.version.canonical)) in
      let (r, by_id, by_name) = put_twice i nv t s i_set nv_set in
      let s' = (put_name_version kv e nv t (kv.put i t s)).1 in
      rw (upsert-writes namespace a t s enc named versioned) (
        r,
        read-one i t s' i_set by_id ∙ dec,
        get-read namespace a s' named versioned ∙ read-one nv t s' nv_set by_name ∙ dec,
      )
