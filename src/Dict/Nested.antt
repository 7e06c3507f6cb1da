-- ===== src/Dict/Nested.antt =====
-- Maps of maps, `map[A]map[B]V`: the inner map under a key, and what writes do to its entries.
use helm_broker.Common.{
  String, ◌≡◌, refl, true, Option, none, some, [], ◌∷◌, arith, ◌==◌, ◌&&◌, eq_iff, if◌then◌else◌,
  Bool-cases, inl, inr, found,
}
use helm_broker.Dict.{Dict, lookup, insert, delete, is_empty_dict, lookup-insert, lookup-delete}

module _ {ℓ} {V : Type ℓ} where
  -- A missing key reads as the nil map, which has no entries.
  abbrev pub inner : String → Dict (Dict V) → Dict V
  inner i s = elim (lookup i s) [ none ↦ [] | some m ↦ m ]

  -- `v, found := s[i][k]`
  abbrev pub find : String → String → Dict (Dict V) → Option V
  find i k s = lookup k (inner i s)

  -- `if _, found := s[i]; !found { s[i] = make(…) }`
  unfoldable pub ensure : String → Dict (Dict V) → Dict (Dict V)
  ensure i s = if found (lookup i s) then s else insert i [] s

  pub inner-insert :
      (i j : String) (m : Dict V) (s : Dict (Dict V))
      → inner j (insert i m s) ≡ (if i == j then m else inner j s)
  inner-insert i j m s = ground (arith, lookup-insert i j m s)

  pub inner-ensure : (i j : String) (s : Dict (Dict V)) → inner j (ensure i s) ≡ inner j s
  unfolding ensure
  inner-ensure i j s = ground (arith, lookup-insert i j [] s, eq_iff i j)

  pub find-insert :
      (i j k p : String) (v : V) (s : Dict (Dict V))
      → find j p (insert i (insert k v (inner i s)) s)
        ≡ (if (i == j) && (k == p) then some v else find j p s)
  find-insert i j k p v s = elim (Bool-cases (i == j)) [
    | inl e ↦
        let here : i ≡ j = (eq_iff i j).0 e in
        rw (inner-insert, e, lookup-insert k p v (inner i s), here) refl
    | inr e ↦ rw (inner-insert, e) refl
  ]

  is_empty_dict-eq : (m : Dict V) → is_empty_dict m ≡ true → m ≡ []
  is_empty_dict-eq [] h = refl
  is_empty_dict-eq (e ∷ m) h = cc

  pub inner-delete :
      (i j : String) (s : Dict (Dict V)) → inner j (delete i s) ≡ (if i == j then [] else inner j s)
  inner-delete i j s = ground (arith, lookup-delete i j s)

  -- Whether or not an emptied inner map is dropped, the same entries are left.
  pub inner-drop :
      (i j : String) (m : Dict V) (s : Dict (Dict V))
      → inner j (if is_empty_dict m then delete i s else insert i m s)
        ≡ (if i == j then m else inner j s)
  inner-drop i j m s = elim (Bool-cases (is_empty_dict m)) [
    | inl e ↦ rw (e, is_empty_dict-eq m e) (inner-delete i j s)
    | inr e ↦ rw e (inner-insert i j m s)
  ]

  pub find-drop :
      (i j k p : String) (s : Dict (Dict V))
      → lookup p (if i == j then delete k (inner i s) else inner j s)
        ≡ (if (i == j) && (k == p) then none else find j p s)
  find-drop i j k p s = ground (arith, lookup-delete k p (inner i s), eq_iff i j)
