-- ===== src/Addon/Provider/Urls.antt =====
-- internal/addon/provider/https.go: `baseOfURL`, with `path.Base` and `strings.TrimRight`, which takes a set of
-- bytes to trim. A text stands for Go's bytes, one character for each.
use Prim.Native.Char.{Char, code}
use Prim.Native.String.append
use Prim.Native.String.{[], ◌∷◌, ◌++◌}
use helm_broker.Common.{
  String, ◌≡◌, refl, ap, ◌∙◌, Bool, true, false, ◌&&◌, ◌||◌, arith, nat_eq, is_empty, if◌then◌else◌,
}
use helm_broker.Common.Keys.{append-not_empty_end}

-- `strings.IndexByte(s, c) >= 0`
unfoldable pub has_char : Char → String → Bool
has_char c [] = false
has_char c (d ∷ s) = nat_eq (code d) (code c) || has_char c s

-- `strings.TrimRight`
unfoldable pub trim_right : String → String → String
unfolding has_char
trim_right cutset [] = []
trim_right cutset (c ∷ s) =
    let rest = trim_right cutset s in if is_empty rest && has_char c cutset then [] else c ∷ rest

abbrev pub slash : Char
slash = "/"

-- What stands after the last slash.
last_element : String → String
unfolding has_char
last_element [] = []
last_element (c ∷ s) =
    let rest = last_element s in
    if has_char slash s then rest else if nat_eq (code c) (code slash) then s else c ∷ s

-- `path.Base`
unfoldable pub base : String → String
unfolding trim_right last_element
base path =
    let last = last_element (trim_right "/" path) in
    if is_empty path then "." else if is_empty last then "/" else last

-- `baseOfURL`
unfoldable pub base_of_url : String → String
unfolding base trim_right
base_of_url full_url = trim_right (base full_url) full_url

slash_append : (s : String) → "/" ++ s ≡ slash ∷ s
slash_append s = append.cons slash [] s ∙ ap (◌∷◌ slash) (append.nil s)

has_char-slash : (x y : String) → has_char slash (x ++ (slash ∷ y)) ≡ true
unfolding has_char
has_char-slash [] y = rw (append.nil (slash ∷ y)) refl
has_char-slash (c ∷ x) y = rw (append.cons c x (slash ∷ y), has_char-slash x y) (ground arith)

last_element-slash : (x y : String) → has_char slash y ≡ false → last_element (x ++ (slash ∷ y)) ≡ y
unfolding last_element has_char
last_element-slash [] y h = rw (append.nil (slash ∷ y), h) refl
last_element-slash (c ∷ x) y h =
    rw (append.cons c x (slash ∷ y), has_char-slash x y) (last_element-slash x y h)

-- What is trimmed at the right does not depend on what stands before it.
trim_right-kept :
    (cutset x y : String)
    → is_empty (trim_right cutset y) ≡ false
    → trim_right cutset (x ++ y) ≡ x ++ trim_right cutset y
unfolding trim_right
trim_right-kept cutset [] y h = rw (append.nil y, append.nil (trim_right cutset y)) refl
trim_right-kept cutset (c ∷ x) y h =
    rw
      (
        append.cons c x y,
        append.cons c x (trim_right cutset y),
        trim_right-kept cutset x y h,
        append-not_empty_end x (trim_right cutset y) h,
      )
      refl

trim_right-gone :
    (cutset x y : String)
    → trim_right cutset y ≡ ""
    → trim_right cutset (x ++ y) ≡ trim_right cutset x
unfolding trim_right
trim_right-gone cutset [] y h = rw (append.nil y) h
trim_right-gone cutset (c ∷ x) y h = rw (append.cons c x y, trim_right-gone cutset x y h) refl

trim_right-other : (s : String) → has_char slash s ≡ false → trim_right "/" s ≡ s
unfolding trim_right has_char
trim_right-other [] h = refl
trim_right-other (c ∷ s) h = rw (trim_right-other s (ground arith)) (ground arith)

trim_right-all :
    (cutset s : String)
    → ((c : Char) → has_char c s ≡ true → has_char c cutset ≡ true)
    → trim_right cutset s ≡ ""
unfolding trim_right has_char
trim_right-all cutset [] h = refl
trim_right-all cutset (c ∷ s) h =
    rw (trim_right-all cutset s (λ d e. h d (ground arith)), h c (ground arith)) refl

trimmed_file :
    (dir file : String)
    → is_empty file ≡ false
    → has_char slash file ≡ false
    → trim_right "/" (dir ++ ("/" ++ file)) ≡ dir ++ ("/" ++ file)
trimmed_file dir file h k =
    let q = trim_right-other file k in
    let kept = trim_right-kept "/" "/" file (rw q h) ∙ ap (λ s. "/" ++ s) q in
    trim_right-kept "/" dir ("/" ++ file) (rw kept (append-not_empty_end "/" file h))
    ∙ ap (λ s. dir ++ s) kept

-- The base of a file in a directory is its name, and trimming its bytes leaves the directory.
pub base-file :
    (dir file : String)
    → is_empty file ≡ false
    → has_char slash file ≡ false
    → base (dir ++ ("/" ++ file)) ≡ file
unfolding base
base-file dir file h k =
    rw
      (
        append-not_empty_end dir ("/" ++ file) (append-not_empty_end "/" file h),
        trimmed_file dir file h k,
        slash_append file,
        last_element-slash dir file k,
        h,
      )
      refl

slash-stays : (file : String) → has_char slash file ≡ false → trim_right file ("/" ++ file) ≡ "/"
unfolding trim_right
slash-stays file k = trim_right-gone file "/" file (trim_right-all file file (λ c e. e)) ∙ rw k refl

pub base_of_url-file :
    (dir file : String)
    → is_empty file ≡ false
    → has_char slash file ≡ false
    → base_of_url (dir ++ ("/" ++ file)) ≡ dir ++ "/"
unfolding base_of_url
base_of_url-file dir file h k = rw (base-file dir file h k) (
    trim_right-kept file dir ("/" ++ file) (rw (slash-stays file k) refl)
    ∙ ap (λ s. dir ++ s) (slash-stays file k))
