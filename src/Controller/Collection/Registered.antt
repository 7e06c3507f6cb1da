-- ===== src/Controller/Collection/Registered.antt =====
-- After the check against the other configurations, no addon that is still ready is registered by
-- another.
use helm_broker.Common.{
  String, ◌≡◌, refl, ap, ◌∙◌, Bool, false, not, ◌&&◌, ◌||◌, List, [], ◌∷◌, ◌++◌ as ◌+++◌, arith,
  exists_in, Bool-cases, inl, inr, true, is_empty, ◌==◌, eq_iff,
}
use helm_broker.Model.Configurations.{StatusRepository, StatusAddon, CommonAddon, is_ready_addon}
use helm_broker.Model.Addons.{AddonStatus}
use helm_broker.Controller.Entry.{Entry, is_ready, is_complete, fail_with}
use helm_broker.Controller.Collection.{
  Collection, all_entries, is_failed, has_failed_addons, is_repositories_failed,
  filter_ready_addons, addon_already_registered, find_in_repositories, find_existing_addon,
  revise_registered, revise_addon_duplication_in_storage,
}

-- The status that a configuration shows of an addon that is usable.
abbrev pub is_shown_ready : AddonStatus → Bool
is_shown_ready AddonStatus.ready = true
is_shown_ready AddonStatus.failed = false
is_shown_ready AddonStatus.unset = false

is_shown_ready-eq : (status : AddonStatus) → is_shown_ready status ≡ is_ready_addon status
is_shown_ready-eq AddonStatus.ready = refl
is_shown_ready-eq AddonStatus.failed = refl
is_shown_ready-eq AddonStatus.unset = refl

-- The addon is shown as ready, under the entry's name and version.
abbrev pub is_same_ready : Entry → StatusAddon → Bool
is_same_ready e a =
    is_shown_ready a.status && (a.name == e.addon.name && a.version == e.addon.version.original)

-- Some ready addon of the repositories has the entry's name and version.
abbrev pub in_repositories : Entry → List StatusRepository → Bool
in_repositories e = exists_in (λ r. exists_in (is_same_ready e) r.addons)

-- Some other configuration has registered an addon with the entry's name and version.
abbrev pub is_registered : List CommonAddon → Entry → Bool
is_registered list e = exists_in (λ c. in_repositories e c.status.repositories) list

-- The entry would clash with another configuration, and is ready all the same.
abbrev pub is_clash : List CommonAddon → Entry → Bool
is_clash list e = not (is_empty e.id) && (is_shown_ready e.addon.status && is_registered list e)

already_registered-eq :
    (e : Entry) (as' : List StatusAddon)
    → addon_already_registered e (filter_ready_addons as') ≡ exists_in (is_same_ready e) as'
unfolding addon_already_registered filter_ready_addons exists_in
already_registered-eq e [] = refl
already_registered-eq e (a ∷ as') = elim (Bool-cases (is_ready_addon a.status)) [
  | inl q ↦ ground (
    arith,
    q,
    already_registered-eq e as',
    is_shown_ready-eq a.status,
    eq_iff a.name e.addon.name,
    eq_iff e.addon.name a.name,
    eq_iff a.version e.addon.version.original,
    eq_iff e.addon.version.original a.version,
  )
  | inr q ↦ ground (arith, q, already_registered-eq e as', is_shown_ready-eq a.status)
]

-- The entry after the look at one configuration: it is as it was, or not ready.
ready-find_in_repositories :
    (configuration : String) (rs : List StatusRepository) (e : Entry)
    → is_ready (find_in_repositories configuration rs e)
      ≡ (is_ready e && not (in_repositories e rs))
unfolding find_in_repositories exists_in fail_with
ready-find_in_repositories configuration [] e = ground arith
ready-find_in_repositories configuration (r ∷ rs) e =
    elim (Bool-cases (addon_already_registered e (filter_ready_addons r.addons))) [
      | inl q ↦
          rw (find_in_repositories, q)
            (ready-find_in_repositories configuration rs _
              ∙ ground (arith, q, already_registered-eq e r.addons))
      | inr q ↦
          rw (find_in_repositories, q)
            (ready-find_in_repositories configuration rs e
              ∙ ground (arith, q, already_registered-eq e r.addons))
    ]

same-find_in_repositories :
    (configuration : String) (rs : List StatusRepository) (e : Entry)
    → in_repositories e rs ≡ false
    → find_in_repositories configuration rs e ≡ e
unfolding find_in_repositories exists_in
same-find_in_repositories configuration [] e h = refl
same-find_in_repositories configuration (r ∷ rs) e h =
    elim (Bool-cases (addon_already_registered e (filter_ready_addons r.addons))) [
      | inl q ↦ absurd (ground (arith, q, h, already_registered-eq e r.addons))
      | inr q ↦
          rw (find_in_repositories, q)
            (same-find_in_repositories configuration rs e (ground (arith, h)))
    ]

ready-find_existing_addon :
    (list : List CommonAddon) (e : Entry)
    → is_ready (find_existing_addon list e) ≡ (is_ready e && not (is_registered list e))
unfolding find_existing_addon exists_in
ready-find_existing_addon [] e = ground arith
ready-find_existing_addon (c ∷ cs) e = elim (Bool-cases (in_repositories e c.status.repositories)) [
  | inl q ↦
      let failed = ready-find_in_repositories c.meta.name c.status.repositories e in
      ready-find_existing_addon cs (find_in_repositories c.meta.name c.status.repositories e)
      ∙ ground arith
  | inr q ↦
      ap (λ x. is_ready (find_existing_addon cs x))
        (same-find_in_repositories c.meta.name c.status.repositories e q)
      ∙ rw q (ready-find_existing_addon cs e)
]

same-find_existing_addon :
    (list : List CommonAddon) (e : Entry)
    → is_registered list e ≡ false
    → find_existing_addon list e ≡ e
unfolding find_existing_addon exists_in
same-find_existing_addon [] e h = refl
same-find_existing_addon (c ∷ cs) e h =
    rw (same-find_in_repositories c.meta.name c.status.repositories e (ground arith))
      (same-find_existing_addon cs e (ground arith))

no_clash-find_existing_addon :
    (list : List CommonAddon) (e : Entry) → is_clash list (find_existing_addon list e) ≡ false
no_clash-find_existing_addon list e = elim (Bool-cases (is_registered list e)) [
  | inl q ↦ ground (arith, ready-find_existing_addon list e)
  | inr q ↦ rw (same-find_existing_addon list e q, q) (ground arith)
]

exists_in-append {ℓ} :
    {A : Type ℓ} (p : A → Bool) (xs ys : List A)
    → exists_in p (xs +++ ys) ≡ (exists_in p xs || exists_in p ys)
unfolding exists_in
exists_in-append p [] ys = refl
exists_in-append p (x ∷ xs) ys = ground (arith, exists_in-append p xs ys)

no_clash-revise_registered :
    (list : List CommonAddon) (es : List Entry)
    → exists_in (is_clash list) (revise_registered list es) ≡ false
unfolding revise_registered exists_in
no_clash-revise_registered list [] = refl
no_clash-revise_registered list (e ∷ es) = elim (Bool-cases (is_complete e)) [
  | inl q ↦ rw (q, no_clash-find_existing_addon list e, no_clash-revise_registered list es) refl
  | inr q ↦ rw (q, no_clash-revise_registered list es) (ground arith)
]

-- After `ReviseAddonDuplicationInStorage` no addon that has an id and is ready has the name and version
-- of an addon that another configuration shows as ready.
pub revise_addon_duplication_in_storage-no_clash :
    (list : List CommonAddon) (rs : Collection)
    → exists_in (is_clash list) (all_entries (revise_addon_duplication_in_storage list rs)) ≡ false
unfolding revise_addon_duplication_in_storage all_entries exists_in
revise_addon_duplication_in_storage-no_clash list [] = refl
revise_addon_duplication_in_storage-no_clash list (r ∷ rs) =
    exists_in-append (is_clash list) (revise_registered list r.entries)
      (all_entries (revise_addon_duplication_in_storage list rs))
    ∙ rw
        (
          no_clash-revise_registered list r.entries,
          revise_addon_duplication_in_storage-no_clash list rs,
        )
        refl

-- `IsRepositoriesFailed` answers true exactly if a repository failed or has an addon that is not ready.
pub is_repositories_failed-eq :
    (rs : Collection)
    → (is_repositories_failed rs).0 ≡ exists_in (λ r. is_failed r || has_failed_addons r.entries) rs
unfolding is_repositories_failed exists_in
is_repositories_failed-eq [] = refl
is_repositories_failed-eq (r ∷ rs) = ground (arith, is_repositories_failed-eq rs)
