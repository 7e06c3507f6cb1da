-- ===== src/Storage/Addons/Forget.antt =====
-- What `Get` and `Remove` leave in the store of addons: nothing that was not there, and not what was removed.
use mathlib.Core.Path.{subst}
use helm_broker.Common.{
  String, ◌≡◌, refl, true, false, none, some, Error, is_not_found, is_empty, ok, ◌⊎◌, Option-cases,
  Result-cases, inl, inr, arith, ap, sym, ◌∙◌, eq_iff, eq_refl,
}
use helm_broker.Common.Keys.{key_text}
use helm_broker.Dict.{lookup, delete, lookup-delete}
use helm_broker.Model.Addons.{Addon, AddonName, AddonId, Namespace, Version}
use helm_broker.Storage.Addons.{AddonStore, key, id, get, get_indexed, remove, remove_by_id}
use helm_broker.Storage.Addons.Reads.{find_addon, get-id, find-remove_by_id}

module _ (namespace : Namespace) where
  -- The store after `Get`: as it was, or with a key less in the index.
  get_indexed-state :
      (name : AddonName) (v : Version) (i : AddonId) (s : AddonStore)
      → ((get_indexed namespace name v i s).1 ≡ s)
        ⊎ ((k : String) × ((get_indexed namespace name v i s).1
              ≡ record s { key_to_id = delete k s.key_to_id }))
  unfolding get_indexed
  get_indexed-state name v i s = elim (Option-cases (lookup namespace s.storage)) [
    | inl e ↦ inl (rw (e, get_indexed) refl)
    | inr (ns, e) ↦ elim (Option-cases (lookup i ns)) [
      | inr (b, q) ↦ inl (rw (e, q, get_indexed) refl)
      | inl q ↦ elim (Result-cases (key namespace name v)) [
        | inl (x, r) ↦ inl (rw (e, q, r, get_indexed) refl)
        | inr (k, r) ↦ inr (k, rw (e, q, r, get_indexed) refl)
      ]
    ]
  ]

  get-state :
      (name : AddonName) (v : Version) (s : AddonStore)
      → ((get namespace name v s).1 ≡ s)
        ⊎ ((k : String) × ((get namespace name v s).1
              ≡ record s { key_to_id = delete k s.key_to_id }))
  unfolding get
  get-state name v s = elim (Result-cases (id namespace name v s)) [
    | inl (x, e) ↦ inl (rw (e, get) refl)
    | inr (i, e) ↦ rw (e, get) (get_indexed-state name v i s)
  ]

  -- `Get` returns what stands under the id of the index.
  abbrev pub IsIndexed : AddonName → Version → Addon → AddonStore → Type 0
  IsIndexed n w b s =
      (i : AddonId) × (id namespace n w s ≡ ok i) × (find_addon namespace i s ≡ some b)

  pub get-IsIndexed :
      (n : AddonName) (w : Version) (s : AddonStore) (b : Addon)
      → (get namespace n w s).0 ≡ ok b
      → IsIndexed n w b s
  get-IsIndexed n w s b h = elim (Result-cases (id namespace n w s)) [
    | inl (x, e) ↦ absurd (ground (arith, get-id namespace n w s))
    | inr (i, e) ↦ elim (Option-cases (find_addon namespace i s)) [
      | inl q ↦ absurd (ground (arith, get-id namespace n w s))
      | inr (b', q) ↦ (i, e, ground (arith, get-id namespace n w s))
    ]
  ]

  IsIndexed-get :
      (n : AddonName) (w : Version) (s : AddonStore) (b : Addon)
      → IsIndexed n w b s
      → (get namespace n w s).0 ≡ ok b
  IsIndexed-get n w s b (i, e, q) = get-id namespace n w s ∙ rw (e, q) refl

  -- With a key less in the index, nothing new is read.
  id-delete_key :
      (k : String) (n : AddonName) (w : Version) (s : AddonStore) (i : AddonId)
      → id namespace n w (record s { key_to_id = delete k s.key_to_id }) ≡ ok i
      → id namespace n w s ≡ ok i
  unfolding id
  id-delete_key k n w s i h =
      ground (arith, lookup-delete k (key_text namespace n w.canonical) s.key_to_id)

  get-delete_key :
      (k : String) (n : AddonName) (w : Version) (s : AddonStore) (b : Addon)
      → (get namespace n w (record s { key_to_id = delete k s.key_to_id })).0 ≡ ok b
      → (get namespace n w s).0 ≡ ok b
  get-delete_key k n w s b h =
      let (i, e, q) = get-IsIndexed n w (record s { key_to_id = delete k s.key_to_id }) b h in
      IsIndexed-get n w s b (i, id-delete_key k n w s i e, q)

  -- Nothing is read after a `Get` that was not read before.
  pub get-get :
      (name n : AddonName) (v w : Version) (s : AddonStore) (b : Addon)
      → (get namespace n w (get namespace name v s).1).0 ≡ ok b
      → (get namespace n w s).0 ≡ ok b
  get-get name n v w s b h = elim (get-state name v s) [
    | inl e ↦ subst (λ t. (get namespace n w t).0 ≡ ok b) e h
    | inr (k, e) ↦ get-delete_key k n w s b (subst (λ t. (get namespace n w t).0 ≡ ok b) e h)
  ]

  index-remove_by_id :
      (i : AddonId) (s : AddonStore) → (remove_by_id namespace i s).1.key_to_id ≡ s.key_to_id
  unfolding remove_by_id
  index-remove_by_id i s = ground arith

  id-remove_by_id :
      (i : AddonId) (n : AddonName) (w : Version) (s : AddonStore)
      → id namespace n w (remove_by_id namespace i s).1 ≡ id namespace n w s
  unfolding id
  id-remove_by_id i n w s =
      ground (arith, ap (lookup (key_text namespace n w.canonical)) (index-remove_by_id i s))

  get-remove_by_id :
      (i : AddonId) (n : AddonName) (w : Version) (s : AddonStore) (b : Addon)
      → (get namespace n w (remove_by_id namespace i s).1).0 ≡ ok b
      → (get namespace n w s).0 ≡ ok b
  get-remove_by_id i n w s b h =
      let (j, e, q) = get-IsIndexed n w (remove_by_id namespace i s).1 b h in
      IsIndexed-get n w s b (
        j,
        sym (id-remove_by_id i n w s) ∙ e,
        ground (arith, find-remove_by_id namespace namespace i j s),
      )

  -- Nothing is read after a `Remove` that was not read before.
  pub get-remove :
      (name n : AddonName) (v w : Version) (s : AddonStore) (b : Addon)
      → (get namespace n w (remove namespace name v s).1).0 ≡ ok b
      → (get namespace n w s).0 ≡ ok b
  unfolding remove
  get-remove name n v w s b h = elim (Result-cases (id namespace name v s)) [
    | inl (x, e) ↦ ground arith
    | inr (i, e) ↦ get-remove_by_id i n w s b (ground arith)
  ]

  -- What `Remove` has removed is not read.
  pub get-removed :
      (name : AddonName) (v : Version) (s : AddonStore) (b : Addon)
      → (remove namespace name v s).0 ≡ none
      → ¬ ((get namespace name v (remove namespace name v s).1).0 ≡ ok b)
  unfolding remove
  get-removed name v s b h r = elim (Result-cases (id namespace name v s)) [
    | inl (x, e) ↦ absurd (ground arith)
    | inr (i, e) ↦
        let (j, q, p) = get-IsIndexed name v (remove_by_id namespace i s).1 b (ground arith) in
        let same : i ≡ j = ground (arith, id-remove_by_id i name v s) in
        ground (arith, find-remove_by_id namespace namespace i j s, eq_refl namespace, eq_iff i j)
  ]

  remove_by_id-found :
      (i : AddonId) (s : AddonStore) (b : Addon)
      → find_addon namespace i s ≡ some b
      → (remove_by_id namespace i s).0 ≡ none
  unfolding remove_by_id lookup
  remove_by_id-found i s b h = ground arith

  -- What `Remove` does not find is not read.
  pub get-missing :
      (name : AddonName) (v : Version) (s : AddonStore) (e : Error) (b : Addon)
      → (remove namespace name v s).0 ≡ some e
      → is_not_found e ≡ true
      → ¬ ((get namespace name v s).0 ≡ ok b)
  unfolding remove remove_by_id
  get-missing name v s e b h m r =
      let (i, q, p) = get-IsIndexed name v s b r in
      let removes : (remove namespace name v s).0 ≡ none =
        rw (q, remove) (remove_by_id-found i s b p) in
      ground arith

  -- Versions with the same canonical text are the same to `Get`.
  pub get-same_version :
      (name : AddonName) (v w : Version) (s : AddonStore) (b : Addon)
      → v.canonical ≡ w.canonical
      → is_empty w.original ≡ false
      → (get namespace name v s).0 ≡ ok b
      → (get namespace name w s).0 ≡ ok b
  unfolding id key
  get-same_version name v w s b e q r =
      let (i, p, f) = get-IsIndexed name v s b r in
      IsIndexed-get name w s b
        (i, ground (arith, ap (λ x. lookup (key_text namespace name x) s.key_to_id) e), f)
