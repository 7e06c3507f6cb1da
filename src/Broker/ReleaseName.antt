-- ===== src/Broker/ReleaseName.antt =====
-- `createReleaseName` and `normalize` of internal/broker/provision.go. A text stands for Go's bytes,
-- one character for each.
use Prim.Native.Char.{Char, code}
use Prim.Native.String.append
use Prim.Native.String.{[], ◌∷◌, ◌++◌}
use helm_broker.Common.{
  ℕ, zero, suc, ◌+◌, ◌≤◌, String, ◌≡◌, refl, Bool, false, ◌&&◌, arith, ltb, nat_eq, is_empty,
  if◌then◌else◌, Bool-cases, inl, inr,
}

-- `len(s)`
unfoldable pub byte_length : String → ℕ
byte_length [] = 0
byte_length (c ∷ s) = suc (byte_length s)

-- `s[:n]`, for an `n` that is not above the length
unfoldable pub byte_prefix : ℕ → String → String
byte_prefix zero s = []
byte_prefix (suc n) [] = []
byte_prefix (suc n) (c ∷ s) = c ∷ byte_prefix n s

abbrev pub is_dash : Char → Bool
is_dash c = nat_eq (code c) 45

trim_left : String → String
trim_left [] = []
trim_left (c ∷ s) = let rest = trim_left s in if is_dash c then rest else c ∷ s

trim_right : String → String
trim_right [] = []
trim_right (c ∷ s) = let rest = trim_right s in if is_empty rest && is_dash c then [] else c ∷ rest

abbrev pub max_len : ℕ
max_len = 6

-- `normalize`, with `strings.Trim(name, "-")`
unfoldable pub normalize : String → String
unfolding byte_length byte_prefix trim_left trim_right
normalize name =
    trim_right
      (trim_left (if ltb max_len (byte_length name) then byte_prefix max_len name else name))

unfoldable pub create_release_name : String → String → String → String
unfolding normalize
create_release_name name plan_name i =
    "hb-" ++ (normalize name ++ ("-" ++ (normalize plan_name ++ ("-" ++ i))))

byte_length-append : (s t : String) → byte_length (s ++ t) ≡ byte_length s + byte_length t
unfolding byte_length
byte_length-append [] t = rw (append.nil t) (omega arith)
byte_length-append (c ∷ s) t = rw (append.cons c s t) (omega (arith, byte_length-append s t))

byte_length-prefix-le : (n : ℕ) (s : String) → byte_length (byte_prefix n s) ≤ n
unfolding byte_length byte_prefix
byte_length-prefix-le zero s = omega arith
byte_length-prefix-le (suc n) [] = omega arith
byte_length-prefix-le (suc n) (c ∷ s) = omega (arith, byte_length-prefix-le n s)

trim_left-le : (s : String) → byte_length (trim_left s) ≤ byte_length s
unfolding byte_length trim_left
trim_left-le [] = omega arith
trim_left-le (c ∷ s) = ground (arith, trim_left-le s)

trim_right-le : (s : String) → byte_length (trim_right s) ≤ byte_length s
unfolding byte_length trim_right
trim_right-le [] = omega arith
trim_right-le (c ∷ s) = elim (Bool-cases (is_empty (trim_right s) && is_dash c)) [
  | inl e ↦ rw e (omega arith)
  | inr e ↦ rw e (omega (arith, trim_right-le s))
]

cut-le :
    (name : String)
    → byte_length (if ltb max_len (byte_length name) then byte_prefix max_len name else name) ≤ 6
cut-le name = elim (Bool-cases (ltb max_len (byte_length name))) [
  | inl e ↦ rw e (byte_length-prefix-le 6 name)
  | inr e ↦ rw e (ground arith)
]

-- `normalize` leaves at most six bytes.
pub byte_length-normalize-le : (name : String) → byte_length (normalize name) ≤ max_len
unfolding normalize
byte_length-normalize-le name =
    let cut = if ltb max_len (byte_length name) then byte_prefix max_len name else name in
    omega (arith, trim_right-le (trim_left cut), trim_left-le cut, cut-le name)

release_name_parts :
    (name plan_name i : String)
    → byte_length (create_release_name name plan_name i)
      ≡ 3
        + (byte_length (normalize name)
            + (1 + (byte_length (normalize plan_name) + (1 + byte_length i))))
unfolding create_release_name byte_length
release_name_parts name plan_name i = rw (byte_length-append "hb-") (
    rw (byte_length-append (normalize name)) (
      rw (byte_length-append "-" (normalize plan_name ++ ("-" ++ i)))
        (rw (byte_length-append (normalize plan_name)) (rw (byte_length-append "-" i) refl))))

-- A release name is at most 17 bytes longer than the instance id.
pub byte_length-create_release_name-le :
    (name plan_name i : String)
    → byte_length (create_release_name name plan_name i) ≤ byte_length i + 17
byte_length-create_release_name-le name plan_name i = omega (
  arith,
  release_name_parts name plan_name i,
  byte_length-normalize-le name,
  byte_length-normalize-le plan_name,
)

abbrev pub starts_with_dash : String → Bool
starts_with_dash [] = false
starts_with_dash (c ∷ s) = is_dash c

unfoldable pub ends_with_dash : String → Bool
ends_with_dash [] = false
ends_with_dash (c ∷ s) = if is_empty s then is_dash c else ends_with_dash s

starts-trim_left : (s : String) → starts_with_dash (trim_left s) ≡ false
unfolding trim_left
starts-trim_left [] = refl
starts-trim_left (c ∷ s) = elim (Bool-cases (is_dash c)) [
  | inl e ↦ rw e (starts-trim_left s)
  | inr e ↦ rw e e
]

starts-trim_right :
    (s : String) → starts_with_dash s ≡ false → starts_with_dash (trim_right s) ≡ false
unfolding trim_right
starts-trim_right [] h = refl
starts-trim_right (c ∷ s) h = elim (Bool-cases (is_empty (trim_right s) && is_dash c)) [
  | inl e ↦ rw e refl
  | inr e ↦ rw e h
]

ends-trim_right : (s : String) → ends_with_dash (trim_right s) ≡ false
unfolding trim_right ends_with_dash
ends-trim_right [] = refl
ends-trim_right (c ∷ s) = elim (Bool-cases (is_empty (trim_right s))) [
  | inl e ↦ elim (Bool-cases (is_dash c)) [ inl d ↦ rw (e, d) refl | inr d ↦ rw (e, d) (rw e d) ]
  | inr e ↦ rw e (rw e (ends-trim_right s))
]

-- A normalized name neither begins nor ends with a dash.
normalize-trimmed :
    (name : String)
    → (starts_with_dash (normalize name) ≡ false) × (ends_with_dash (normalize name) ≡ false)
unfolding normalize
normalize-trimmed name =
    let cut = if ltb max_len (byte_length name) then byte_prefix max_len name else name in
    (starts-trim_right (trim_left cut) (starts-trim_left cut), ends-trim_right (trim_left cut))
