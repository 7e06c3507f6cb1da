-- ===== src/Storage/Addons/Reads.antt =====
-- What the reads of the store of addons return after an addon was stored or removed.
use helm_broker.Common.{
  Bool, true, ◌≡◌, ◌≢◌, Option, none, some, ◌==◌, ◌&&◌, ◌||◌, not, if◌then◌else◌, is_empty, found,
  not_found, Result, ok, err, arith, eq_iff, Bool-cases, Option-cases, inl, inr, eq_refl, ◌∙◌,
}
use helm_broker.Common.Keys.{key_text}
use helm_broker.Dict.{lookup, delete, lookup-insert}
use helm_broker.Dict.Nested.{find, find-insert, find-drop, inner-drop}
use helm_broker.Model.Addons.{Addon, AddonId, AddonName, Namespace, Version}
use helm_broker.Storage.Addons.{
  AddonStore, addons_of, key, upsert, id, get, get_by_id, remove_by_id,
}

-- The addon that stands under a namespace and an id.
abbrev pub find_addon : Namespace → AddonId → AddonStore → Option Addon
find_addon namespace i s = find namespace i s.storage

abbrev pub found_addon : Option Addon → Result Addon
found_addon none = err not_found
found_addon (some b) = ok b

-- Name and version of the addon are set.
abbrev pub is_named : Addon → Bool
is_named b = not (is_empty b.name || is_empty b.version.original)

-- The id that the index has for an addon's namespace, name and version.
abbrev pub indexed : Namespace → Addon → AddonStore → Option AddonId
indexed namespace b s = lookup (key_text namespace b.name b.version.canonical) s.key_to_id

pub get_by_id-find :
    (namespace : Namespace) (i : AddonId) (s : AddonStore)
    → get_by_id namespace i s ≡ found_addon (find_addon namespace i s)
unfolding get_by_id lookup
get_by_id-find namespace i s = ground arith

-- `Upsert` of an addon with a name and a version stores it under its id, whatever the index says.
pub find-upsert :
    (namespace n : Namespace) (b : Addon) (i : AddonId) (s : AddonStore)
    → find_addon n i (upsert namespace (some b) s).1
      ≡ (if is_named b && ((namespace == n) && (b.id == i)) then some b else find_addon n i s)
unfolding upsert key
find-upsert namespace n b i s = ground (arith, find-insert namespace n b.id i b s.storage)

-- `Get` by name and version goes through the index.
pub get-id :
    (namespace : Namespace) (name : AddonName) (ver : Version) (s : AddonStore)
    → (get namespace name ver s).0 ≡ elim (id namespace name ver s) [
      | err e ↦ err e
      | ok i ↦ found_addon (find_addon namespace i s)
    ]
unfolding get lookup
get-id namespace name ver s = ground arith

-- The index after `Upsert` of an addon with a name and a version: its key keeps the id that it had.
id-upsert :
    (namespace : Namespace) (b : Addon) (s : AddonStore)
    → is_named b ≡ true
    → id namespace b.name b.version (upsert namespace (some b) s).1
      ≡ ok (elim (indexed namespace b s) [ none ↦ b.id | some i ↦ i ])
unfolding id upsert
id-upsert namespace b s h =
    let k = key_text namespace b.name b.version.canonical in
    ground (arith, lookup-insert k k b.id s.key_to_id, eq_refl k)

-- `Get` by name and version, after `Upsert` of an addon that has both, returns the addon that stands under
-- the id that the index had before, or the new addon if the index had none.
get-upsert :
    (namespace : Namespace) (b : Addon) (s : AddonStore)
    → is_named b ≡ true
    → (get namespace b.name b.version (upsert namespace (some b) s).1).0
      ≡ found_addon (elim (indexed namespace b s) [
        | none ↦ some b
        | some i ↦ if b.id == i then some b else find_addon namespace i s
      ])
get-upsert namespace b s h =
    rw (get-id, id-upsert namespace b s h)
      (elim (Option-cases (indexed namespace b s)) [
        | inl e ↦ rw e (
            ground
              (arith, find-upsert namespace namespace b b.id s, eq_refl namespace, eq_refl b.id))
        | inr (i, e) ↦
            rw e (ground (arith, find-upsert namespace namespace b i s, eq_refl namespace))
      ])

-- If the index has another id for an addon's name and version, `Upsert` of the addon reports a replacement,
-- and `Get` by that name and version then returns what stood under the other id.
pub get-upsert_other_id :
    (namespace : Namespace) (b : Addon) (i : AddonId) (s : AddonStore)
    → is_named b ≡ true
    → indexed namespace b s ≡ some i
    → b.id ≢ i
    → ((upsert namespace (some b) s).0 ≡ ok true)
      × ((get namespace b.name b.version (upsert namespace (some b) s).1).0
          ≡ found_addon (find_addon namespace i s))
unfolding upsert key
get-upsert_other_id namespace b i s h e ne =
    (ground arith, get-upsert namespace b s h ∙ rw e (ground (arith, eq_iff b.id i)))

-- `RemoveByID` takes away the addon under the namespace and the id, and no other.
pub find-remove_by_id :
    (namespace n : Namespace) (i j : AddonId) (s : AddonStore)
    → find_addon n j (remove_by_id namespace i s).1
      ≡ (if (namespace == n) && (i == j) then none else find_addon n j s)
unfolding remove_by_id lookup
find-remove_by_id namespace n i j s = elim (Bool-cases (found (lookup namespace s.storage))) [
  | inr e ↦ rw e (ground (arith, eq_iff namespace n, eq_iff i j))
  | inl e ↦ elim (Bool-cases (found (find_addon namespace i s))) [
    | inr q ↦ rw (e, q) (ground (arith, eq_iff namespace n, eq_iff i j))
    | inl q ↦
        rw (e, q, inner-drop namespace n (delete i (addons_of namespace s)) s.storage)
          (find-drop namespace n i j s.storage)
  ]
]
