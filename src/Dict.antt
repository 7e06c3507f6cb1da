-- ===== src/Dict.antt =====
-- Go's maps with text keys, as association lists. `range` gives their entries in an order that
-- the language leaves open; the order is a parameter of the operations that range over a map.
pub mod Entries
pub mod Counting
pub mod Nested
use helm_broker.Common.{
  String, ◌≡◌, refl, Bool, true, false, Option, none, some, List, [], ◌∷◌, arith, ◌==◌, eq_iff,
  if◌then◌else◌,
}

abbrev pub Dict {ℓ} : Type ℓ → Type ℓ
Dict V = List (String × V)

module _ {ℓ} {V : Type ℓ} where
  -- `v, found := m[key]`
  unfoldable pub lookup : String → Dict V → Option V
  lookup key [] = none
  lookup key ((other, value) ∷ rest) = if other == key then some value else lookup key rest

  -- `for _, v := range m`
  unfoldable pub values : Dict V → List V
  values [] = []
  values ((key, value) ∷ rest) = value ∷ values rest

  -- `m[key] = new`
  unfoldable pub insert : String → V → Dict V → Dict V
  insert key new [] = (key, new) ∷ []
  insert key new ((other, old) ∷ rest) =
      if other == key then (key, new) ∷ rest else (other, old) ∷ insert key new rest

  -- `delete(m, key)`
  unfoldable pub delete : String → Dict V → Dict V
  delete key [] = []
  delete key ((other, value) ∷ rest) =
      let kept = delete key rest in if other == key then kept else (other, value) ∷ kept

  -- `len(m) == 0`
  abbrev pub is_empty_dict : Dict V → Bool
  is_empty_dict [] = true
  is_empty_dict (e ∷ m) = false

  pub lookup-insert :
      (key asked : String) (new : V) (entries : Dict V)
      → lookup asked (insert key new entries)
        ≡ (if key == asked then some new else lookup asked entries)
  unfolding insert lookup
  lookup-insert key asked new [] = refl
  lookup-insert key asked new ((other, old) ∷ rest) = ground (
    arith,
    lookup-insert key asked new rest,
    eq_iff other asked,
    eq_iff other key,
    eq_iff key asked,
  )

  pub lookup-delete :
      (key asked : String) (entries : Dict V)
      → lookup asked (delete key entries) ≡ (if key == asked then none else lookup asked entries)
  unfolding delete lookup
  lookup-delete key asked [] = ground arith
  lookup-delete key asked ((other, old) ∷ rest) =
      ground (
        arith,
        lookup-delete key asked rest,
        eq_iff other asked,
        eq_iff other key,
        eq_iff key asked,
      )
