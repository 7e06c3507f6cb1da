-- ===== src/Common/Lists.antt =====
-- Lists with native lengths, and the tests on their elements that the loops of the program make.
use Prim.Native.Nat.{ℕ, suc, ◌+◌, ◌≤◌}
use mathlib.Core.Bool.{Bool, true, false, ◌||◌, Bool-set}
use mathlib.Core.List.{List, [], ◌∷◌, Perm, Permᴰ}
use mathlib.Core.Logic.{∥∥₁_elim}
use mathlib.Core.Path.{◌≡◌, refl, ◌∙◌, ap₂}
use native.Mathlib.Nat.{ℕ_set}
use native.Mathlib.Omega.{arith}
use helm_broker.Common.Tests.{if◌then◌else◌}

module _ {ℓ} {A : Type ℓ} where
  abbrev pub length : List A → ℕ
  length [] = 0
  length (x ∷ xs) = suc (length xs)

  -- Some element passes the test.
  unfoldable pub exists_in : (A → Bool) → List A → Bool
  exists_in p [] = false
  exists_in p (x ∷ xs) = p x || exists_in p xs

  -- Each element has the property.
  unfoldable pub Every : (A → Type 0) → List A → Type 0
  Every P [] = Unit {0}
  Every P (x ∷ xs) = P x × Every P xs

  pub Every-map : (P Q : A → Type 0) (xs : List A) → Every P xs → ((x : A) → P x → Q x) → Every Q xs
  unfolding Every
  Every-map P Q [] h f = tt
  Every-map P Q (x ∷ xs) (p, h) f = (f x p, Every-map P Q xs h f)

  -- How many elements pass the test.
  unfoldable pub count_if : (A → Bool) → List A → ℕ
  count_if p [] = 0
  count_if p (x ∷ xs) = (if p x then 1 else 0) + count_if p xs

  pub count-eq-zero : (p : A → Bool) (xs : List A) → exists_in p xs ≡ false → count_if p xs ≡ 0
  unfolding exists_in count_if
  count-eq-zero p [] h = refl
  count-eq-zero p (x ∷ xs) h = ground (arith, count-eq-zero p xs)

  -- The tests do not depend on the order.
  exists_in-permᴰ : (p : A → Bool) {xs ys : List A} → Permᴰ xs ys → exists_in p xs ≡ exists_in p ys
  unfolding exists_in
  exists_in-permᴰ p Permᴰ.nil = refl
  exists_in-permᴰ p (Permᴰ.cons e h) = ap₂ (λ a b. p a || b) e (exists_in-permᴰ p h)
  exists_in-permᴰ p (Permᴰ.swap {l = l} e f) = rw (e, f) (ground arith)
  exists_in-permᴰ p (Permᴰ.trans h k) = exists_in-permᴰ p h ∙ exists_in-permᴰ p k

  pub exists_in-perm :
      (p : A → Bool) {xs ys : List A} → Perm xs ys → exists_in p xs ≡ exists_in p ys
  exists_in-perm p h = ∥∥₁_elim h (Bool-set _ _) (exists_in-permᴰ p)

  count_if-permᴰ : (p : A → Bool) {xs ys : List A} → Permᴰ xs ys → count_if p xs ≡ count_if p ys
  unfolding count_if
  count_if-permᴰ p Permᴰ.nil = refl
  count_if-permᴰ p (Permᴰ.cons e h) = ap₂ (λ a b. (if p a then 1 else 0) + b) e (count_if-permᴰ p h)
  count_if-permᴰ p (Permᴰ.swap e f) = rw (e, f) (omega arith)
  count_if-permᴰ p (Permᴰ.trans h k) = count_if-permᴰ p h ∙ count_if-permᴰ p k

  pub count_if-perm : (p : A → Bool) {xs ys : List A} → Perm xs ys → count_if p xs ≡ count_if p ys
  count_if-perm p h = ∥∥₁_elim h (ℕ_set _ _) (count_if-permᴰ p)

  -- A weaker test passes at least as often.
  pub count_if_mono :
      (p q : A → Bool) (xs : List A)
      → ((x : A) → p x ≡ true → q x ≡ true)
      → count_if p xs ≤ count_if q xs
  unfolding count_if
  count_if_mono p q [] h = omega arith
  count_if_mono p q (x ∷ xs) h = ground (arith, h x, count_if_mono p q xs h)
