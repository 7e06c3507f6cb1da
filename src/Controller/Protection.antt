-- ===== src/Controller/Protection.antt =====
-- internal/controller/protection.go: the finalizer of a configuration.
use helm_broker.Common.{
  ◌≡◌, refl, arith, String, Bool, true, false, List, [], ◌∷◌, ◌++◌, ◌==◌, not, if◌then◌else◌,
  exists_in, ◌&&◌, eq_iff, Bool-cases, inl, inr, sym, ◌∙◌,
}

abbrev pub finalizer : String
finalizer = "addons.kyma-project.io"

-- `hasFinalizer`
unfoldable pub has_finalizer : List String → Bool
has_finalizer [] = false
has_finalizer (item ∷ slice) =
    let rest = has_finalizer slice in if item == finalizer then true else rest

-- `addFinalizer`
unfoldable pub add_finalizer : List String → List String
unfolding has_finalizer
add_finalizer slice = if has_finalizer slice then slice else slice ++ (finalizer ∷ [])

-- The loop of `removeFinalizer`.
without_finalizer : List String → List String
without_finalizer [] = []
without_finalizer (item ∷ slice) =
    let rest = without_finalizer slice in if item == finalizer then rest else item ∷ rest

-- `removeFinalizer`
unfoldable pub remove_finalizer : List String → List String
unfolding has_finalizer without_finalizer
remove_finalizer slice = if not (has_finalizer slice) then slice else without_finalizer slice

has_finalizer-without : (slice : List String) → has_finalizer (without_finalizer slice) ≡ false
unfolding has_finalizer without_finalizer
has_finalizer-without [] = refl
has_finalizer-without (item ∷ slice) = ground (arith, has_finalizer-without slice)

has_finalizer-append : (slice : List String) → has_finalizer (slice ++ (finalizer ∷ [])) ≡ true
unfolding has_finalizer
has_finalizer-append [] = refl
has_finalizer-append (item ∷ slice) = ground (arith, has_finalizer-append slice)

without_finalizer-append :
    (slice : List String)
    → has_finalizer slice ≡ false
    → without_finalizer (slice ++ (finalizer ∷ [])) ≡ slice
unfolding has_finalizer without_finalizer
without_finalizer-append [] h = refl
without_finalizer-append (item ∷ slice) h = ground (arith, without_finalizer-append slice)

-- After `removeFinalizer` the finalizer is gone.
pub has_finalizer-remove : (slice : List String) → has_finalizer (remove_finalizer slice) ≡ false
unfolding remove_finalizer has_finalizer
has_finalizer-remove slice = ground (arith, has_finalizer-without slice)

-- `addFinalizer` sets the finalizer, and where it was not set, `removeFinalizer` then restores the list.
remove_finalizer-add :
    (slice : List String)
    → has_finalizer slice ≡ false
    → (has_finalizer (add_finalizer slice) ≡ true)
      × (remove_finalizer (add_finalizer slice) ≡ slice)
unfolding add_finalizer remove_finalizer
remove_finalizer-add slice h =
    ground (arith, has_finalizer-append slice, without_finalizer-append slice h)

without_finalizer-others :
    (name : String) (slice : List String)
    → exists_in (λ f. f == name) (without_finalizer slice)
      ≡ (exists_in (λ f. f == name) slice && not (name == "addons.kyma-project.io"))
unfolding without_finalizer exists_in
without_finalizer-others name [] = refl
without_finalizer-others name (item ∷ slice) = ground (
  arith,
  without_finalizer-others name slice,
  eq_iff item name,
  eq_iff item finalizer,
  eq_iff name finalizer,
)

has_finalizer-eq :
    (slice : List String) → has_finalizer slice ≡ exists_in (λ f. f == finalizer) slice
unfolding has_finalizer exists_in
has_finalizer-eq [] = refl
has_finalizer-eq (item ∷ slice) = ground (arith, has_finalizer-eq slice)

exists_in-none :
    (name : String) (slice : List String)
    → exists_in (λ f. f == finalizer) slice ≡ false
    → exists_in (λ f. f == name) slice
      ≡ (exists_in (λ f. f == name) slice && not (name == finalizer))
exists_in-none name slice h = elim (Bool-cases (name == finalizer)) [
  | inl e ↦ rw (e, (eq_iff name finalizer).0 e, h) refl
  | inr e ↦ rw e (ground arith)
]

-- `removeFinalizer` takes the finalizer away and keeps the others.
pub remove_finalizer-others :
    (name : String) (slice : List String)
    → exists_in (λ f. f == name) (remove_finalizer slice)
      ≡ (exists_in (λ f. f == name) slice && not (name == "addons.kyma-project.io"))
unfolding remove_finalizer
remove_finalizer-others name slice = elim (Bool-cases (has_finalizer slice)) [
  | inl e ↦ rw (e, remove_finalizer) (without_finalizer-others name slice)
  | inr e ↦ rw (e, remove_finalizer) (exists_in-none name slice (sym (has_finalizer-eq slice) ∙ e))
]
