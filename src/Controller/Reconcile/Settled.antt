-- ===== src/Controller/Reconcile/Settled.antt =====
-- The repositories whose index could be fetched stay so through the checks and the saving of addons.
use helm_broker.Common.{
  ◌≡◌, refl, ap, sym, ◌∙◌, Bool, false, ◌||◌, List, [], ◌∷◌, arith, exists_in, Bool-cases,
  Result-cases, inl, inr, is_empty,
}
use helm_broker.Dict.{Dict}
use helm_broker.Model.Configurations.{
  CommonAddon, SpecRepository, any_fetching_error, is_url_fetching,
}
use helm_broker.Controller.Entry.{Entry}
use helm_broker.Controller.Collection.{
  Repository, Collection, IdConflictData, is_fetching_failed, is_repositories_failed,
  is_repositories_fetching_error, revise_ids, revise_repositories,
  revise_addon_duplication_in_repository, revise_addon_duplication_in_storage,
  new_addons_repository, fetching_failed, templating_failed, empty_url_failed,
}
use helm_broker.Common.Outcomes.{done-injective}
use helm_broker.Controller.Services.{Services, Outcome, done, failed_with, panicked}
use helm_broker.Controller.Loading.{
  create_addons, load_repository, load_repositories, with_addons, before_repositories,
}
use helm_broker.Controller.Saving.{save_entries, save_addons}
use helm_broker.Controller.Reconcile.Updates.{status_snapshot}
use helm_broker.Controller.Reconcile.Add.{revise}

-- Some repository has the reason that its index could not be fetched.
abbrev pub has_fetching_reason : Collection → Bool
has_fetching_reason = exists_in (λ r. is_url_fetching r.repository.reason)

pub any_fetching_error-snapshot :
    (rs : Collection)
    → has_fetching_reason rs ≡ false
    → any_fetching_error (status_snapshot rs) ≡ false
unfolding any_fetching_error status_snapshot exists_in
any_fetching_error-snapshot [] h = refl
any_fetching_error-snapshot (r ∷ rs) h = ground (arith, any_fetching_error-snapshot rs)

reasons-revise_repositories :
    (rs : Collection) (ids : Dict IdConflictData)
    → has_fetching_reason (revise_repositories rs ids) ≡ has_fetching_reason rs
unfolding revise_repositories exists_in
reasons-revise_repositories [] ids = refl
reasons-revise_repositories (r ∷ rs) ids =
    ap (λ rest. is_url_fetching r.repository.reason || rest)
      (reasons-revise_repositories rs (revise_ids r.entries ids).1)

reasons-revise_storage :
    (list : List CommonAddon) (rs : Collection)
    → has_fetching_reason (revise_addon_duplication_in_storage list rs) ≡ has_fetching_reason rs
unfolding revise_addon_duplication_in_storage exists_in
reasons-revise_storage list [] = refl
reasons-revise_storage list (r ∷ rs) =
    ap (λ rest. is_url_fetching r.repository.reason || rest) (reasons-revise_storage list rs)

reasons-is_repositories_failed :
    (rs : Collection) → has_fetching_reason (is_repositories_failed rs).1 ≡ has_fetching_reason rs
unfolding is_repositories_failed exists_in
reasons-is_repositories_failed [] = refl
reasons-is_repositories_failed (r ∷ rs) = ground (arith, reasons-is_repositories_failed rs)

-- The three checks together.
pub reasons-revise :
    (list : List CommonAddon) (rs : Collection)
    → has_fetching_reason (revise list rs).1 ≡ has_fetching_reason rs
unfolding revise revise_addon_duplication_in_repository
reasons-revise list rs =
    reasons-is_repositories_failed
      (revise_addon_duplication_in_storage list (revise_addon_duplication_in_repository rs))
    ∙ reasons-revise_storage list (revise_addon_duplication_in_repository rs)
    ∙ reasons-revise_repositories rs []

-- Repositories that are loaded: the first one is, and the rest are.
loaded_first :
    {P : Type 0} (r : Outcome Repository) (rest : Outcome Collection) {rs : Collection}
    → before_repositories r rest ≡ done rs
    → ((r' : Repository) (rs' : Collection) → r ≡ done r' → rest ≡ done rs' → rs ≡ r' ∷ rs' → P)
    → P
loaded_first (done r) (done rs') h use' = use' r rs' refl refl (sym (done-injective h))
loaded_first (done r) (failed_with e) h use' = absurd (ground arith)
loaded_first (done r) panicked h use' = absurd (ground arith)
loaded_first (failed_with e) rest h use' = absurd (ground arith)
loaded_first panicked rest h use' = absurd (ground arith)

-- A repository that is loaded has the reason only if it failed.
fetching_reason-with_addons :
    (r : Outcome (List Entry)) (repo repo' : Repository)
    → with_addons r repo ≡ done repo'
    → is_url_fetching repo.repository.reason ≡ false
    → is_url_fetching repo'.repository.reason ≡ is_fetching_failed repo'
unfolding fetching_failed
fetching_reason-with_addons (done es) repo repo' h q = ground arith
fetching_reason-with_addons (failed_with e) repo repo' h q = ground arith
fetching_reason-with_addons panicked repo repo' h q = absurd (ground arith)

module _ {S : Type 0} (c : Services S) where
  pub reasons-save_addons :
      (rs : Collection) (s : S)
      → has_fetching_reason (save_addons c rs s).0.1 ≡ has_fetching_reason rs
  unfolding save_addons exists_in
  reasons-save_addons [] s = refl
  reasons-save_addons (r ∷ rs) s =
      ap (λ rest. is_url_fetching r.repository.reason || rest)
        (reasons-save_addons rs (save_entries c r.entries s).1)

  fetching_reason-load_repository :
      (spec : SpecRepository) (s : S) (r : Repository)
      → load_repository c spec s ≡ done r
      → is_url_fetching r.repository.reason ≡ is_fetching_failed r
  unfolding load_repository new_addons_repository templating_failed empty_url_failed
  fetching_reason-load_repository spec s r h = elim (Bool-cases (is_empty spec.url)) [
    | inl e ↦ ground arith
    | inr e ↦ elim (Result-cases (c.template_url spec s)) [
      | inl (error, q) ↦ ground arith
      | inr (url, q) ↦
          fetching_reason-with_addons (create_addons c url s) (new_addons_repository spec.url) r
            (ground arith) refl
    ]
  ]

  -- Collections that are loaded and pass the check for fetching errors have no such reason.
  pub reasons-load_repositories :
      (specs : List SpecRepository) (s : S) (rs : Collection)
      → load_repositories c specs s ≡ done rs
      → is_repositories_fetching_error rs ≡ false
      → has_fetching_reason rs ≡ false
  unfolding load_repositories exists_in is_repositories_fetching_error
  reasons-load_repositories [] s rs h q = ap has_fetching_reason (sym (done-injective h))
  reasons-load_repositories (spec ∷ specs) s rs h q =
      loaded_first (load_repository c spec s) (load_repositories c specs s) h λ r rest l k e.
        ap has_fetching_reason e
        ∙ ground (
          arith,
          ap is_repositories_fetching_error e,
          fetching_reason-load_repository spec s r l,
          reasons-load_repositories specs s rest k,
        )
