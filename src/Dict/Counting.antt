-- ===== src/Dict/Counting.antt =====
-- How many entries of a map pass a test, before and after a write.
use helm_broker.Common.{
  ℕ, ◌+◌, ◌≤◌, String, ◌≡◌, Bool, Option, none, some, [], ◌∷◌, arith, if◌then◌else◌, count_if,
}
use helm_broker.Dict.{Dict, lookup, insert, delete, values}

abbrev pub indicator : Bool → ℕ
indicator b = if b then 1 else 0

-- A nil map, or a missing key, counts for nothing.
abbrev pub weigh {ℓ} : {V : Type ℓ} → (V → Bool) → Option V → ℕ
weigh p none = 0
weigh p (some v) = indicator (p v)

module _ {ℓ} {V : Type ℓ} (p : V → Bool) where
  -- A write exchanges what its key counted for.
  pub count-insert :
      (k : String) (v : V) (m : Dict V)
      → count_if p (values (insert k v m)) + weigh p (lookup k m)
        ≡ count_if p (values m) + indicator (p v)
  unfolding insert lookup values count_if
  count-insert k v [] = omega arith
  count-insert k v ((j, w) ∷ m) = ground (arith, count-insert k v m)

  pub count-delete-le :
      (k : String) (m : Dict V) → count_if p (values (delete k m)) ≤ count_if p (values m)
  unfolding delete values count_if
  count-delete-le k [] = omega arith
  count-delete-le k ((j, w) ∷ m) = ground (arith, count-delete-le k m)

  -- What a lookup finds is counted.
  pub weigh-lookup-le : (k : String) (m : Dict V) → weigh p (lookup k m) ≤ count_if p (values m)
  unfolding lookup values count_if
  weigh-lookup-le k [] = omega arith
  weigh-lookup-le k ((j, w) ∷ m) = ground (arith, weigh-lookup-le k m)
