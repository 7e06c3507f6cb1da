-- ===== src/Common/Keys.antt =====
-- Keys that are built from texts with `|` between them, as `fmt.Sprintf("%s|%s|%s", …)` does.
use Prim.Native.Char.{Char, code}
use Prim.Native.String.append
use Prim.Native.String.{String, [], ◌∷◌, ◌++◌}
use mathlib.Core.Bool.{false, false≢true}
use mathlib.Core.Logic.{◌≢◌, inl, inr}
use mathlib.Core.Path.{◌≡◌, refl, sym, ap, ◌∙◌}
use text.Mathlib.TextEquality.{eq_iff}
use text.Mathlib.TextLemmas.{append-eq-nil_iff}
use helm_broker.Common.Tests.{is_empty, Bool-cases}

abbrev pub bar : String
bar = "|"

unfoldable pub key_text : String → String → String → String
key_text namespace name ver = namespace ++ (bar ++ (name ++ (bar ++ ver)))

-- The text has no `|`.
abbrev HasNoBar : String → Type 0
HasNoBar [] = Unit
HasNoBar (c ∷ s) = (code c ≢ 124) × HasNoBar s

tail_path : {c d : Char} {s t : String} → (c ∷ s) ≡ (d ∷ t) → (c ≡ d) × (s ≡ t)
tail_path h = (cc, cc)

abbrev bar_char : Char
bar_char = "|"

bar_append : (x : String) → bar ++ x ≡ bar_char ∷ x
bar_append x = append.cons bar_char [] x ∙ ap (◌∷◌ bar_char) (append.nil x)

-- The first bar ends the first text.
split_at_bar :
    (a b x y : String)
    → HasNoBar a
    → HasNoBar b
    → a ++ (bar ++ x) ≡ b ++ (bar ++ y)
    → (a ≡ b) × (x ≡ y)
split_at_bar [] [] x y ha hb e = (
  refl,
  (tail_path (
      sym (bar_append x)
      ∙ (sym (append.nil (bar ++ x)) ∙ e ∙ append.nil (bar ++ y))
      ∙ bar_append y)).1,
)
split_at_bar [] (d ∷ b) x y ha hb e = absurd (
    hb.0 (
      ap code (
        sym
          (tail_path (
            sym (bar_append x)
            ∙ (sym (append.nil (bar ++ x)) ∙ e)
            ∙ append.cons d b (bar ++ y))).0)))
split_at_bar (c ∷ a) [] x y ha hb e = absurd (
    ha.0 (
      ap code
        (tail_path
          (sym (append.cons c a (bar ++ x)) ∙ (e ∙ append.nil (bar ++ y)) ∙ bar_append y)).0))
split_at_bar (c ∷ a) (d ∷ b) x y ha hb e =
    let (p, q) = tail_path (sym (append.cons c a (bar ++ x)) ∙ e ∙ append.cons d b (bar ++ y)) in
    let (r, s) = split_at_bar a b x y ha.1 hb.1 q in (cc, s)

-- Two triples with the same key are the same, if their namespaces and names have no `|`.
key_text_injective :
    (n n' a a' v v' : String)
    → HasNoBar n
    → HasNoBar n'
    → HasNoBar a
    → HasNoBar a'
    → key_text n a v ≡ key_text n' a' v'
    → (n ≡ n') × (a ≡ a') × (v ≡ v')
unfolding key_text
key_text_injective n n' a a' v v' hn hn' ha ha' e =
    let (p, q) = split_at_bar n n' (a ++ (bar ++ v)) (a' ++ (bar ++ v')) hn hn' e in
    let (r, s) = split_at_bar a a' v v' ha ha' q in (p, r, s)

-- A text with a part in front that is not empty is not empty.
pub append-not_empty : (p q : String) → is_empty p ≡ false → is_empty (p ++ q) ≡ false
append-not_empty p q h = elim (Bool-cases (is_empty (p ++ q))) [
  | inr e ↦ e
  | inl e ↦ absurd (
      false≢true (
        sym h
        ∙ (eq_iff p "").1 ((append-eq-nil_iff {p = p} {q = q}).0 ((eq_iff (p ++ q) "").0 e)).0))
]

-- Nor is one with such a part at the end.
pub append-not_empty_end : (p q : String) → is_empty q ≡ false → is_empty (p ++ q) ≡ false
append-not_empty_end p q h = elim (Bool-cases (is_empty (p ++ q))) [
  | inr e ↦ e
  | inl e ↦ absurd (
      false≢true (
        sym h
        ∙ (eq_iff q "").1 ((append-eq-nil_iff {p = p} {q = q}).0 ((eq_iff (p ++ q) "").0 e)).1))
]
