-- ===== src/Addon/Provider/Scheme.antt =====
-- internal/addon/provider/factory.go: `getSchemaAndSrc`, with the regular expression ^([A-Za-z0-9]+)::(.+)$.
use Prim.Native.Char.{Char, code}
use Prim.Native.String.append
use Prim.Native.String.{[], ◌∷◌, ◌++◌}
use helm_broker.Common.{
  String, ◌≡◌, refl, ap, ◌∙◌, Bool, true, false, ◌&&◌, ◌||◌, Option, none, some, leb, nat_eq,
  is_empty, if◌then◌else◌, arith,
}

-- `url.URL`, by its scheme and its text
pub record Url : Type 0 where
  pub scheme : String
  pub text : String

-- A byte of the class [A-Za-z0-9].
abbrev pub is_alphanumeric : Char → Bool
is_alphanumeric c =
    (leb 48 (code c) && leb (code c) 57)
    || ((leb 65 (code c) && leb (code c) 90) || (leb 97 (code c) && leb (code c) 122))

-- A dot matches every byte but a newline.
unfoldable pub has_newline : String → Bool
has_newline [] = false
has_newline (c ∷ s) = nat_eq (code c) 10 || has_newline s

-- What stands after the two colons that a text begins with.
after_colons : String → Option String
after_colons (c ∷ d ∷ s) = if nat_eq (code c) 58 && nat_eq (code d) 58 then some s else none
after_colons (c ∷ []) = none
after_colons [] = none

-- The longest prefix of the class, and the rest.
split_scheme : String → String × String
split_scheme [] = ([], [])
split_scheme (c ∷ s) =
    let rest = split_scheme s in if is_alphanumeric c then (c ∷ rest.0, rest.1) else ([], c ∷ s)

-- The two groups of a match of the expression.
abbrev source_match : String → Option String → Option (String × String)
unfolding has_newline
source_match scheme none = none
source_match scheme (some src) =
    if is_empty scheme || (is_empty src || has_newline src) then none else some (scheme, src)

unfoldable pub find_forced : String → Option (String × String)
unfolding after_colons split_scheme has_newline
find_forced text = let (scheme, rest) = split_scheme text in source_match scheme (after_colons rest)

-- `getSchemaAndSrc`
unfoldable pub get_schema_and_src : Url → String × String
unfolding find_forced
get_schema_and_src url = elim (find_forced url.text) [ some m ↦ m | none ↦ (url.scheme, url.text) ]

-- Every byte is of the class.
unfoldable pub all_alphanumeric : String → Bool
all_alphanumeric [] = true
all_alphanumeric (c ∷ s) = is_alphanumeric c && all_alphanumeric s

abbrev colon : Char
colon = ":"

split_scheme-colon :
    (scheme rest : String)
    → all_alphanumeric scheme ≡ true
    → split_scheme (scheme ++ (colon ∷ rest)) ≡ (scheme, colon ∷ rest)
unfolding split_scheme all_alphanumeric
split_scheme-colon [] rest h = rw (append.nil (colon ∷ rest)) refl
split_scheme-colon (c ∷ s) rest h =
    rw (append.cons c s (colon ∷ rest), split_scheme-colon s rest (ground arith)) (ground arith)

colons-append : (src : String) → "::" ++ src ≡ colon ∷ (colon ∷ src)
colons-append src =
    append.cons colon ":" src
    ∙ ap (◌∷◌ colon) (append.cons colon [] src ∙ ap (◌∷◌ colon) (append.nil src))

find_forced-forced :
    (scheme src : String)
    → is_empty scheme ≡ false
    → all_alphanumeric scheme ≡ true
    → is_empty src ≡ false
    → has_newline src ≡ false
    → find_forced (scheme ++ ("::" ++ src)) ≡ some (scheme, src)
unfolding find_forced after_colons
find_forced-forced scheme src h a k n =
    rw (colons-append src, find_forced, split_scheme-colon scheme (colon ∷ src) a, h, k, n) refl

-- An address with a scheme, two colons and a source is cut at these colons, whatever the scheme is
-- that the parser of URLs finds: for a scheme of letters and digits that is not empty, and a source that is not
-- empty and has no newline.
pub get_schema_and_src-forced :
    (scheme src parsed : String)
    → is_empty scheme ≡ false
    → all_alphanumeric scheme ≡ true
    → is_empty src ≡ false
    → has_newline src ≡ false
    → get_schema_and_src (record { scheme = parsed; text = scheme ++ ("::" ++ src) })
      ≡ (scheme, src)
unfolding get_schema_and_src
get_schema_and_src-forced scheme src parsed h a k n =
    rw (get_schema_and_src, find_forced-forced scheme src h a k n) refl
