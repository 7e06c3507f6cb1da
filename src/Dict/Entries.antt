-- ===== src/Dict/Entries.antt =====
-- Properties of all entries of a map, and maps whose keys are distinct.
use helm_broker.Common.{
  String, ◌≡◌, ◌≢◌, refl, Bool, true, none, some, [], ◌∷◌, arith, ◌==◌, eq_iff, exists_in, eq_refl,
  ◌⊎◌, inl, inr, Bool-cases,
}
use mathlib.Core.Path.{subst₂}
use helm_broker.Dict.{Dict, lookup, insert, delete, values, lookup-insert, lookup-delete}

-- `P` holds of every entry that a lookup finds.
abbrev pub Entries {ℓ κ} : {V : Type ℓ} → (String → V → Type κ) → Dict V → Type (ℓ ⊔ κ)
Entries {V} P m = (k : String) (v : V) → lookup k m ≡ some v → P k v

-- The list stands for a map: no key has two entries.
abbrev pub HasDistinctKeys {ℓ} : {V : Type ℓ} → Dict V → Type ℓ
HasDistinctKeys [] = Unit
HasDistinctKeys ((k, v) ∷ m) = (lookup k m ≡ none) × HasDistinctKeys m

module _ {ℓ} {V : Type ℓ} where
  pub insert-HasDistinctKeys :
      (k : String) (v : V) (m : Dict V) → HasDistinctKeys m → HasDistinctKeys (insert k v m)
  unfolding insert lookup
  insert-HasDistinctKeys k v [] h = (refl, tt)
  insert-HasDistinctKeys k v ((j, w) ∷ m) h = elim (Bool-cases (j == k)) [
    | inl e ↦ rw e (rw (← (eq_iff j k).0 e) h.0, h.1)
    | inr e ↦ rw e (
      ground (arith, lookup-insert k j v m, eq_iff j k, eq_iff k j),
      insert-HasDistinctKeys k v m h.1,
    )
  ]

  pub delete-HasDistinctKeys :
      (k : String) (m : Dict V) → HasDistinctKeys m → HasDistinctKeys (delete k m)
  unfolding delete lookup
  delete-HasDistinctKeys k [] h = h
  delete-HasDistinctKeys k ((j, w) ∷ m) h = elim (Bool-cases (j == k)) [
    | inl e ↦ rw e (delete-HasDistinctKeys k m h.1)
    | inr e ↦ rw e (ground (arith, lookup-delete k j m), delete-HasDistinctKeys k m h.1)
  ]

module _ {ℓ} {V : Type ℓ} where
  -- Where an entry of the written map comes from.
  pub lookup-insert-cases :
      (k j : String) (v w : V) (m : Dict V)
      → lookup j (insert k v m) ≡ some w
      → ((k ≡ j) × (v ≡ w)) ⊎ (lookup j m ≡ some w)
  lookup-insert-cases k j v w m e = ground (arith, lookup-insert k j v m, eq_iff k j)

  pub lookup-delete-cases :
      (k j : String) (w : V) (m : Dict V)
      → lookup j (delete k m) ≡ some w
      → (k ≢ j) × (lookup j m ≡ some w)
  lookup-delete-cases k j w m e = ground (arith, lookup-delete k j m, eq_iff k j)

module _ {ℓ κ} {V : Type ℓ} (P : String → V → Type κ) where
  pub Entries-insert :
      (k : String) (v : V) (m : Dict V) → P k v → Entries P m → Entries P (insert k v m)
  Entries-insert k v m p h j w e = elim (lookup-insert-cases k j v w m e) [
    | inl q ↦ subst₂ P q.0 q.1 p
    | inr q ↦ h j w q
  ]

  pub Entries-delete : (k : String) (m : Dict V) → Entries P m → Entries P (delete k m)
  Entries-delete k m h j w e = h j w (lookup-delete-cases k j w m e).1

module _ {ℓ} {V : Type ℓ} (p : V → Bool) where
  -- A value that the loop over a map meets is found by a lookup.
  pub exists-lookup :
      (m : Dict V)
      → HasDistinctKeys m
      → exists_in p (values m) ≡ true
      → (k : String) × (v : V) × (lookup k m ≡ some v) × (p v ≡ true)
  unfolding exists_in values lookup
  exists-lookup [] d h = cc
  exists-lookup ((j, w) ∷ m) d h = elim (Bool-cases (p w)) [
    | inl q ↦ (j, w, rw (eq_refl j) refl, q)
    | inr q ↦
        let (k, v, found, good) = exists-lookup m d.1 (ground arith) in
        (k, v, ground (arith, eq_iff j k), good)
  ]

  pub lookup-exists :
      (k : String) (v : V) (m : Dict V)
      → lookup k m ≡ some v
      → p v ≡ true
      → exists_in p (values m) ≡ true
  unfolding exists_in values lookup
  lookup-exists k v [] e q = cc
  lookup-exists k v ((j, w) ∷ m) e q = ground (arith, lookup-exists k v m)
