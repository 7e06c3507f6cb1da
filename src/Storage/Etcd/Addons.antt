-- ===== src/Storage/Etcd/Addons.antt =====
-- internal/storage/driver/etcd/entity_addon.go: addons by namespace and id, and by namespace, name and version.
pub mod Dso
pub mod RoundTrip
pub mod Prefixes
use Prim.Native.String.{◌++◌}
use helm_broker.Common.{
  String, Bool, true, false, Option, none, some, List, [], ◌∷◌, ◌||◌, if◌then◌else◌, is_empty,
  found, Error, plain, wrap, not_found, Result, ok, err, wrap_result,
}
use helm_broker.Common.Outcomes.{Outcome, done, failed_with, panicked, wrap_outcome, and_then}
use helm_broker.Model.Addons.{Addon, AddonId, AddonName, Namespace, Version}
use helm_broker.Storage.Etcd.{Kv}
use helm_broker.Storage.Etcd.Addons.Dso.{Encoding, encode_addon, decode_addon}

-- `idPrefixForNamespace`; the empty namespace is that of the cluster.
unfoldable pub id_prefix_for_namespace : Namespace → String
id_prefix_for_namespace namespace =
    if is_empty namespace then "id/cluster" else "id/ns/" ++ namespace

-- `idKey`
unfoldable pub id_key : Namespace → AddonId → String
unfolding id_prefix_for_namespace
id_key namespace id = id_prefix_for_namespace namespace ++ ("/" ++ id)

-- `nameVersionKey`
unfoldable pub name_version_key : Namespace → String → String
name_version_key namespace nv =
    if is_empty namespace then "nv/cluster/" ++ nv else "nv/ns/" ++ (namespace ++ ("/" ++ nv))

abbrev pub name_version_error : Error
name_version_error = plain "both name and version must be set"

-- `nameVersion`
unfoldable pub name_version : AddonName → Version → Result String
name_version name ver =
    if is_empty name || is_empty ver.original
    then err name_version_error
    else ok (name ++ ("|" ++ ver.canonical))

-- `nameVersionFromAddon`
unfoldable pub name_version_from_addon : Option Addon → Result String
unfolding name_version
name_version_from_addon none = err (plain "entity may not be nil")
name_version_from_addon (some b) =
    if is_empty b.name || is_empty b.version.original
    then err name_version_error
    else name_version b.name b.version

abbrev pub too_many_error : Error
too_many_error = plain "more than one element matching requested id, should never happen"

module _ {S : Type 0} (kv : Kv S) (e : Encoding) where
  -- The second write of `Upsert`, after the result of the first.
  unfoldable pub put_name_version : String → String → Result Bool × S → Result Bool × S
  put_name_version nv_key dso (err x, s) = (err (wrap "while calling database in ID space" x), s)
  put_name_version nv_key dso (ok replaced, s) =
      let (r, s') = kv.put nv_key dso s in
      elim r [
        | err x ↦ (err (wrap "while calling database in NameVersion space" x), s')
        | ok other ↦ (ok replaced, s')
      ]

  -- `Upsert`: whether the id was known, or an error.
  unfoldable pub upsert : Namespace → Option Addon → S → Result Bool × S
  unfolding name_version_from_addon encode_addon id_key name_version_key put_name_version
  upsert namespace none s = (err (plain "entity may not be nil"), s)
  upsert namespace (some b) s = elim (name_version_from_addon (some b)) [
    | err x ↦ (err x, s)
    | ok nv ↦ elim (encode_addon e b) [
      | err x ↦ (err x, s)
      | ok dso ↦
          put_name_version (name_version_key namespace nv) dso
            (kv.put (id_key namespace b.id) dso s)
    ]
  ]

  -- The error of the read, and `handleGetResp`.
  unfoldable pub handle_get_resp : Result (List String) → Outcome Addon
  unfolding decode_addon
  handle_get_resp (err x) = failed_with (wrap "while calling database" x)
  handle_get_resp (ok []) = failed_with not_found
  handle_get_resp (ok (v ∷ [])) = decode_addon e v
  handle_get_resp (ok (v ∷ w ∷ vs)) = failed_with too_many_error

  -- `Get`
  unfoldable pub get : Namespace → AddonName → Version → S → Outcome Addon
  unfolding name_version name_version_key handle_get_resp
  get namespace name ver s = elim (name_version name ver) [
    | err x ↦ failed_with x
    | ok nv ↦ handle_get_resp (kv.get (name_version_key namespace nv) s)
  ]

  -- `GetByID`
  unfoldable pub get_by_id : Namespace → AddonId → S → Outcome Addon
  unfolding id_key handle_get_resp
  get_by_id namespace id s = handle_get_resp (kv.get (id_key namespace id) s)

  -- The loop of `FindAll`.
  unfoldable pub decode_each : List String → Outcome (List Addon)
  unfolding decode_addon
  decode_each [] = done []
  decode_each (v ∷ vs) =
      let later = decode_each vs in
      and_then (wrap_outcome "while decoding returned entities" (decode_addon e v))
        (λ a. and_then later (λ out. done (a ∷ out)))

  -- `FindAll`
  unfoldable pub find_all : Namespace → S → Outcome (List Addon)
  unfolding id_prefix_for_namespace decode_each
  find_all namespace s = elim (kv.get_prefix (id_prefix_for_namespace namespace) s) [
    | err x ↦ failed_with (wrap "while calling database" x)
    | ok vs ↦ decode_each vs
  ]

  -- The error of the deletion, and `handleDeleteResp`.
  unfoldable pub handle_delete_resp : String → Result (List String) → Outcome Addon
  unfolding decode_addon
  handle_delete_resp message (err x) = failed_with (wrap message x)
  handle_delete_resp message (ok []) = failed_with not_found
  handle_delete_resp message (ok (v ∷ [])) = decode_addon e v
  handle_delete_resp message (ok (v ∷ w ∷ vs)) = failed_with too_many_error

  -- The second deletion of `Remove` and of `RemoveByID`, whose count is not looked at.
  unfoldable pub delete_other : String → String → S → Outcome (Unit {0}) × S
  delete_other message key s =
      let (r, s') = kv.delete key s in
      elim r [ err x ↦ (failed_with (wrap message x), s') | ok n ↦ (done tt, s') ]

  abbrev pub after_delete :
      Outcome Addon × S → (Addon → S → Outcome (Unit {0}) × S) → Outcome (Unit {0}) × S
  after_delete (done b, s) f = f b s
  after_delete (failed_with x, s) f = (failed_with x, s)
  after_delete (panicked, s) f = (panicked, s)

  -- `Remove`
  unfoldable pub remove : Namespace → AddonName → Version → S → Outcome (Unit {0}) × S
  unfolding name_version name_version_key id_key handle_delete_resp delete_other
  remove namespace name ver s =
      elim (wrap_result "while getting nameVersion from deleted entity" (name_version name ver)) [
        | err x ↦ (failed_with x, s)
        | ok nv ↦
            let (r, s') = kv.delete_prev (name_version_key namespace nv) s in
            after_delete (handle_delete_resp "while calling database on NV namespace" r, s')
              (λ b. delete_other "while calling database on ID namespace" (id_key namespace b.id))
      ]

  -- `RemoveByID`
  unfoldable pub remove_by_id : Namespace → AddonId → S → Outcome (Unit {0}) × S
  unfolding name_version_from_addon name_version_key id_key handle_delete_resp delete_other
  remove_by_id namespace id s =
      let (r, s') = kv.delete_prev (id_key namespace id) s in
      after_delete (handle_delete_resp "while calling database on ID namespace" r, s')
        (λ b t.
          elim (wrap_result "while getting nameVersion from deleted entity"
            (name_version_from_addon (some b))) [
              | err x ↦ (failed_with x, t)
              | ok nv ↦
                  delete_other "while calling database on NV namespace"
                    (name_version_key namespace nv) t
            ])

  -- The loop of `RemoveAll`, which stops at the first error.
  unfoldable pub remove_each : Namespace → List Addon → S → Outcome (Unit {0}) × S
  remove_each namespace [] s = (done tt, s)
  remove_each namespace (b ∷ bs) s =
      let (r, s') = remove_by_id namespace b.id s in
      let later = remove_each namespace bs s' in
      elim (wrap_outcome "while removing addon with ID" r) [
        | done u ↦ later
        | failed_with x ↦ (failed_with x, s')
        | panicked ↦ (panicked, s')
      ]

  -- `RemoveAll`
  unfoldable pub remove_all : Namespace → S → Outcome (Unit {0}) × S
  unfolding find_all remove_each
  remove_all namespace s = elim (wrap_outcome "while getting addons" (find_all namespace s)) [
    | done bs ↦ remove_each namespace bs s
    | failed_with x ↦ (failed_with x, s)
    | panicked ↦ (panicked, s)
  ]
