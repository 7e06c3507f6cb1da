-- ===== src/Controller/Removal/Gone.antt =====
-- internal/controller/common.go: the addons that `removeAddon` was called for are gone.
use mathlib.Core.Path.{subst}
use helm_broker.Common.{
  String, ◌≡◌, refl, ap, sym, Bool, true, Option, none, some, List, [], ◌∷◌, Error, is_not_found,
  arith, Option-cases, Result-cases, inl, inr,
}
use helm_broker.Model.Addons.{Addon, AddonPlan, Version}
use helm_broker.Model.Configurations.{StatusAddon}
use helm_broker.Controller.Services.{Services, Outcome, done, failed_with, panicked}
use helm_broker.Controller.Removal.{
  Removed, remove_charts, finish_removal, remove_found, remove_version, remove_addon, pass_missing,
  remove_if_present,
}
use helm_broker.Controller.Removal.Laws.{
  IsGone, Shrinks, IsShrinking, IsConsistent, IsForgetful, IsGone-Shrinks, Shrinks-trans,
}

-- The errors that the callers of `removeAddon` pass over.
abbrev passes : Option Error → Bool
passes none = true
passes (some e) = is_not_found e

pass_missing-passes :
    {P : Type 0} (message : String) (r : Outcome Removed) {removed : Bool}
    → pass_missing message r ≡ done removed
    → ((x : Removed) → r ≡ done x → passes x.1 ≡ true → P)
    → P
pass_missing-passes message (done (removed, none)) h use' = use' (removed, none) refl refl
pass_missing-passes message (done (removed, some e)) h use' =
    use' (removed, some e) refl (ground arith)
pass_missing-passes message (failed_with e) h use' = absurd (ground arith)
pass_missing-passes message panicked h use' = absurd (ground arith)

module _ {S : Type 0} (c : Services S) (laws : IsForgetful c) where
  Shrinks-refl : (s : S) → Shrinks c s s
  Shrinks-refl s name version b k = k

  remove_charts-IsShrinking : (plans : List AddonPlan) → IsShrinking c (remove_charts c plans)
  unfolding remove_charts
  remove_charts-IsShrinking [] s = Shrinks-refl s
  remove_charts-IsShrinking (plan ∷ plans) s =
      let first = laws.remove_chart_shrinks plan.chart_ref.name plan.chart_ref.version s in
      elim (Option-cases (c.remove_chart plan.chart_ref.name plan.chart_ref.version s).0) [
        | inl e ↦ rw (e, remove_charts) (Shrinks-trans c first (remove_charts-IsShrinking plans _))
        | inr (x, e) ↦ rw (e, remove_charts) first
      ]

  finish_removal-IsShrinking : (add : Addon) → IsShrinking c (finish_removal c add)
  unfolding finish_removal
  finish_removal-IsShrinking add s =
      let first = laws.docs_shrinks add.id s in
      elim (Option-cases (c.ensure_asset_group_removed add.id s).0) [
        | inl e ↦ rw (e, finish_removal) (Shrinks-trans c first (remove_charts-IsShrinking _ _))
        | inr (x, e) ↦ rw (e, finish_removal) first
      ]

  remove_found-IsShrinking :
      (ad : StatusAddon) (add : Addon) → IsShrinking c (remove_found c ad add)
  unfolding remove_found
  remove_found-IsShrinking ad add s =
      let first = laws.remove_shrinks ad.name add.version s in
      elim (Option-cases (c.remove_addon ad.name add.version s).0) [
        | inl e ↦ rw (e, remove_found) (Shrinks-trans c first (finish_removal-IsShrinking add _))
        | inr (x, e) ↦ rw (e, remove_found) first
      ]

  remove_version-IsShrinking :
      (ad : StatusAddon) (version : Version) → IsShrinking c (remove_version c ad version)
  unfolding remove_version
  remove_version-IsShrinking ad version s =
      let first = laws.get_shrinks ad.name version s in
      elim (Result-cases (c.get_addon ad.name version s).0) [
        | inl (x, e) ↦ rw (e, remove_version) first
        | inr (add, e) ↦
            rw (e, remove_version) (Shrinks-trans c first (remove_found-IsShrinking ad add _))
      ]

  pub remove_if_present-IsShrinking :
      (message : String) (ad : StatusAddon) → IsShrinking c (remove_if_present c message ad)
  unfolding remove_if_present remove_addon
  remove_if_present-IsShrinking message ad s = elim (Option-cases (c.parse_version ad.version)) [
    | inl e ↦ rw (e, remove_if_present, remove_addon) (Shrinks-refl s)
    | inr (version, e) ↦
        rw (e, remove_if_present, remove_addon) (remove_version-IsShrinking ad version s)
  ]

  remove_found-IsGone :
      (ad : StatusAddon) (add : Addon) (s : S)
      → passes (remove_found c ad add s).0.1 ≡ true
      → IsGone c ad.name add.version (remove_found c ad add s).1
  unfolding remove_found
  remove_found-IsGone ad add s h = elim (Option-cases (c.remove_addon ad.name add.version s).0) [
    | inl e ↦
        rw (e, remove_found)
          (IsGone-Shrinks c (finish_removal-IsShrinking add _)
            (laws.removed ad.name add.version s e))
    | inr (x, e) ↦
        IsGone-Shrinks c (remove_found-IsShrinking ad add s)
          (laws.missing ad.name add.version s x e (ground arith))
  ]

  remove_version-IsGone :
      (ad : StatusAddon) (version : Version) (s : S)
      → c.parse_version ad.version ≡ some version
      → IsConsistent c s
      → passes (remove_version c ad version s).0.1 ≡ true
      → IsGone c ad.name version (remove_version c ad version s).1
  unfolding remove_version
  remove_version-IsGone ad version s parsed k h =
      elim (Result-cases (c.get_addon ad.name version s).0) [
        | inl (x, e) ↦
            IsGone-Shrinks c (remove_version-IsShrinking ad version s) (λ b r. ground arith)
        | inr (add, e) ↦
            let own = k ad.name ad.version version add parsed e in
            rw (e, remove_version)
              (λ b r.
                remove_found-IsGone ad add (c.get_addon ad.name version s).1 (ground arith) b
                  (laws.same_version ad.name version add.version _ b (sym own.0) own.1 r))
      ]

  -- Once a caller of `removeAddon` goes on, the addon is gone.
  pub remove_if_present-IsGone :
      (message : String) (ad : StatusAddon) (version : Version) (s : S) {removed : Bool} {t : S}
      → remove_if_present c message ad s ≡ (done removed, t)
      → c.parse_version ad.version ≡ some version
      → IsConsistent c s
      → IsGone c ad.name version t
  unfolding remove_if_present remove_addon
  remove_if_present-IsGone message ad version s h parsed k =
      pass_missing-passes message (remove_addon c ad s).0 (ap (λ p. p.0) h) λ x q p.
        subst (IsGone c ad.name version) (ap (λ p. p.1) h) (
          rw (parsed, remove_if_present, remove_addon)
            (remove_version-IsGone ad version s parsed k (ground arith)))
