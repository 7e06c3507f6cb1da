-- ===== src/Controller/Collection/Ids.antt =====
-- After the check for duplicate ids, the addons that are still ready have different ids.
use helm_broker.Common.{
  ◌+◌, ◌≤◌, String, ◌≡◌, Bool, ◌&&◌, ◌==◌, eq_iff, List, [], ◌∷◌, ◌++◌ as ◌+++◌, arith, count_if,
  found, Bool-cases, Option-cases, inl, inr,
}
use helm_broker.Dict.{Dict, lookup, lookup-insert}
use helm_broker.Dict.Counting.{indicator}
use helm_broker.Controller.Entry.{Entry, is_ready, is_complete, fail_with}
use helm_broker.Controller.Collection.{
  Collection, IdConflictData, conflict_data, all_entries, revise_id, revise_ids,
  revise_repositories, revise_addon_duplication_in_repository,
}

-- The entry is ready, and has the id, which is not empty.
abbrev pub is_ready_with : String → Entry → Bool
is_ready_with i e = is_complete e && (is_ready e && e.id == i)

count_if-append {ℓ} :
    {A : Type ℓ} (p : A → Bool) (xs ys : List A)
    → count_if p (xs +++ ys) ≡ count_if p xs + count_if p ys
unfolding count_if
count_if-append p [] ys = omega arith
count_if-append p (x ∷ xs) ys = omega (arith, count_if-append p xs ys)

-- A step counts an id at most when it enters the id into the map.
revise_id-le :
    (i : String) (e : Entry) (ids : Dict IdConflictData)
    → indicator (is_ready_with i (revise_id e ids).0) + indicator (found (lookup i ids))
      ≤ indicator (found (lookup i (revise_id e ids).1))
unfolding revise_id fail_with
revise_id-le i e ids = elim (Bool-cases (is_complete e)) [
  | inr c ↦ rw (revise_id, c) (ground arith)
  | inl c ↦ elim (Option-cases (lookup e.id ids)) [
    | inr (d, q) ↦ rw (revise_id, c, q) (ground arith)
    | inl q ↦
        rw (revise_id, c, q)
          (ground (arith, lookup-insert e.id i (conflict_data e) ids, eq_iff e.id i))
  ]
]

revise_ids-le :
    (i : String) (es : List Entry) (ids : Dict IdConflictData)
    → count_if (is_ready_with i) (revise_ids es ids).0 + indicator (found (lookup i ids))
      ≤ indicator (found (lookup i (revise_ids es ids).1))
unfolding revise_ids count_if
revise_ids-le i [] ids = omega arith
revise_ids-le i (e ∷ es) ids =
    omega (arith, revise_id-le i e ids, revise_ids-le i es (revise_id e ids).1)

revise_repositories-le :
    (i : String) (rs : Collection) (ids : Dict IdConflictData)
    → count_if (is_ready_with i) (all_entries (revise_repositories rs ids))
        + indicator (found (lookup i ids))
      ≤ 1
unfolding revise_repositories all_entries count_if
revise_repositories-le i [] ids = ground arith
revise_repositories-le i (r ∷ rs) ids =
    let (es, ids') = revise_ids r.entries ids in
    omega (
      arith,
      count_if-append (is_ready_with i) es (all_entries (revise_repositories rs ids')),
      revise_ids-le i r.entries ids,
      revise_repositories-le i rs ids',
    )

-- After `ReviseAddonDuplicationInRepository` no two ready addons of the repositories have the same id,
-- if they have one.
pub revise_addon_duplication_in_repository_unique :
    (i : String) (rs : Collection)
    → count_if (is_ready_with i) (all_entries (revise_addon_duplication_in_repository rs)) ≤ 1
unfolding revise_addon_duplication_in_repository
revise_addon_duplication_in_repository_unique i rs = omega (arith, revise_repositories-le i rs [])
