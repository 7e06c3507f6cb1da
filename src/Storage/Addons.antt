-- ===== src/Storage/Addons.antt =====
-- internal/storage/driver/memory/entity_addon.go: addons by namespace and id, with an index from
-- namespace, name and version to the id.
pub mod Reads
pub mod Forget
use helm_broker.Common.{
  String, Bool, true, false, Option, none, some, List, [], ◌∷◌, if◌then◌else◌, is_empty, found, not,
  ◌||◌, Error, plain, wrap, not_found, Result, ok, err,
}
use helm_broker.Common.Keys.{key_text}
use helm_broker.Dict.{Dict, lookup, insert as set, delete, values, is_empty_dict}
use helm_broker.Dict.Nested.{inner}
use helm_broker.Model.Addons.{Addon, AddonId, AddonName, Namespace, Version}

pub record AddonStore : Type 0 where
  -- `ketToID`
  pub key_to_id : Dict AddonId
  pub storage : Dict (Dict Addon)

abbrev pub addons_of : Namespace → AddonStore → Dict Addon
addons_of namespace s = inner namespace s.storage

-- `key`
unfoldable pub key : Namespace → AddonName → Version → Result String
key namespace name ver =
    if is_empty name || is_empty ver.original
    then err (plain "both name and version must be set")
    else ok (key_text namespace name ver.canonical)

-- `keyFromAddon`
unfoldable pub key_from_addon : Namespace → Option Addon → Result String
unfolding key
key_from_addon namespace none = err (plain "entity may not be nil")
key_from_addon namespace (some b) =
    if is_empty b.name || is_empty b.version.original
    then err (plain "both name and version must be set")
    else key namespace b.name b.version

-- The writes of `Upsert`, at the addon's key.
store_addon : Namespace → String → Addon → AddonStore → AddonStore
store_addon namespace nvk addon s = record {
  key_to_id = if found (lookup nvk s.key_to_id) then s.key_to_id else set nvk addon.id s.key_to_id;
  storage = set namespace (set addon.id addon (addons_of namespace s)) s.storage;
}

-- `Upsert`: whether the key was known, or an error, and the new store.
unfoldable pub upsert : Namespace → Option Addon → AddonStore → Result Bool × AddonStore
unfolding store_addon key_from_addon
upsert namespace none s = (err (plain "entity may not be nil"), s)
upsert namespace (some addon) s = elim (key_from_addon namespace (some addon)) [
  | err e ↦ (err e, s)
  | ok nvk ↦ (ok (found (lookup nvk s.key_to_id)), store_addon namespace nvk addon s)
]

-- `id`
unfoldable pub id : Namespace → AddonName → Version → AddonStore → Result AddonId
unfolding key
id namespace name ver s = elim (key namespace name ver) [
  | err e ↦ err e
  | ok nvk ↦ elim (lookup nvk s.key_to_id) [ none ↦ err not_found | some i ↦ ok i ]
]

-- The second half of `Get`: an id that is in the index alone is taken out of the index.
get_indexed : Namespace → AddonName → Version → AddonId → AddonStore → Result Addon × AddonStore
unfolding key
get_indexed namespace name ver i s = elim (lookup namespace s.storage) [
  | none ↦ (err not_found, s)
  | some ns_storage ↦ elim (lookup i ns_storage) [
    | some b ↦ (ok b, s)
    | none ↦ elim (key namespace name ver) [
      | ok nvk ↦ (err not_found, record s { key_to_id = delete nvk s.key_to_id })
      | err e ↦ (err not_found, s)
    ]
  ]
]

-- `Get`
unfoldable pub get : Namespace → AddonName → Version → AddonStore → Result Addon × AddonStore
unfolding id get_indexed
get namespace name ver s = elim (id namespace name ver s) [
  | err e ↦ (err e, s)
  | ok i ↦ get_indexed namespace name ver i s
]

-- `GetByID`
unfoldable pub get_by_id : Namespace → AddonId → AddonStore → Result Addon
get_by_id namespace i s = elim (lookup namespace s.storage) [
  | none ↦ err not_found
  | some ns_storage ↦ elim (lookup i ns_storage) [ none ↦ err not_found | some b ↦ ok b ]
]

-- `FindAll`; `order` is the order in which `range` visits the map.
unfoldable pub find_all : (List Addon → List Addon) → Namespace → AddonStore → Result (List Addon)
find_all order namespace s = elim (lookup namespace s.storage) [
  | none ↦ ok []
  | some ns_storage ↦ ok (order (values ns_storage))
]

-- `removeByID`, which is `RemoveByID` too
unfoldable pub remove_by_id : Namespace → AddonId → AddonStore → Option Error × AddonStore
remove_by_id namespace i s =
    if not (found (lookup namespace s.storage))
    then (some not_found, s)
    else if not (found (lookup i (addons_of namespace s)))
    then (some not_found, s)
    else let ns_storage = delete i (addons_of namespace s) in
      (
        none,
        record s {
          storage =
              if is_empty_dict ns_storage
              then delete namespace s.storage
              else set namespace ns_storage s.storage;
        },
      )

-- `Remove`
unfoldable pub remove : Namespace → AddonName → Version → AddonStore → Option Error × AddonStore
unfolding id remove_by_id
remove namespace name ver s = elim (id namespace name ver s) [
  | err e ↦ (some e, s)
  | ok i ↦ remove_by_id namespace i s
]

-- The loop of `RemoveAll`, which stops at the first error.
remove_each : Namespace → List Addon → AddonStore → Option Error × AddonStore
remove_each namespace [] s = (none, s)
remove_each namespace (addon ∷ addons) s =
    let (e, s') = remove_by_id namespace addon.id s in
    let rest = remove_each namespace addons s' in
    elim e [ none ↦ rest | some e' ↦ (some (wrap "while removing addon" e'), s') ]

-- `RemoveAll`
unfoldable pub remove_all :
    (List Addon → List Addon) → Namespace → AddonStore → Option Error × AddonStore
unfolding find_all remove_each
remove_all order namespace s = elim (find_all order namespace s) [
  | err e ↦ (some (wrap "while getting addons" e), s)
  | ok addons ↦ remove_each namespace addons s
]
