-- ===== src/Controller/Removal/Loops.antt =====
-- internal/controller/common.go: what `deletePreviousAddons` and `deleteOrphanAddons` take away.
use mathlib.Core.Path.{subst}
use helm_broker.Common.{String, ◌≡◌, ap, Bool, true, some, List, [], ◌∷◌, inl, inr, Every, ◌⊎◌}
use helm_broker.Model.Addons.{Version}
use helm_broker.Model.Configurations.{StatusAddon, StatusRepository, addon_key}
use helm_broker.Controller.Services.{Services, done, return, ◌>>=◌}
use helm_broker.Controller.Services.Inversion.{after_task, return-eq-done, either_task}
use helm_broker.Controller.Removal.{
  remove_if_present, delete_addons, delete_previous_addons, delete_orphans, delete_orphan_addons,
  status_addons, stays, previous_message, orphan_message,
}
use helm_broker.Controller.Removal.Laws.{
  IsGone, Shrinks, IsShrinking, IsConsistent, IsForgetful, IsGone-Shrinks, IsConsistent-Shrinks,
  then-IsShrinking, return-IsShrinking, if-IsShrinking,
}
use helm_broker.Controller.Removal.Gone.{remove_if_present-IsShrinking, remove_if_present-IsGone}

module _ {S : Type 0} (c : Services S) where
  -- The storage returns nothing for the name and the version of the addon.
  abbrev pub IsRemoved : S → StatusAddon → Type 0
  IsRemoved s ad =
      (version : Version) → c.parse_version ad.version ≡ some version → IsGone c ad.name version s

  pub IsRemoved-Shrinks :
      {s t : S} → Shrinks c s t → (ad : StatusAddon) → IsRemoved s ad → IsRemoved t ad
  IsRemoved-Shrinks h ad g version e = IsGone-Shrinks c h (g version e)

  abbrev IsSpared : List StatusAddon → S → StatusAddon → Type 0
  IsSpared present s ad = (stays present ad ≡ true) ⊎ IsRemoved s ad

  module _ (laws : IsForgetful c) where
    pub after_removal :
        (message : String) (ad : StatusAddon) (s : S) {removed : Bool} {t : S}
        → remove_if_present c message ad s ≡ (done removed, t)
        → IsConsistent c s
        → IsRemoved t ad × IsConsistent c t
    after_removal message ad s h k = (
      λ version e. remove_if_present-IsGone c laws message ad version s h e k,
      IsConsistent-Shrinks c
          (subst (Shrinks c s) (ap (λ p. p.1) h)
            (remove_if_present-IsShrinking c laws message ad s))
          k,
    )

    delete_addons-IsShrinking : (ads : List StatusAddon) → IsShrinking c (delete_addons c ads)
    unfolding delete_addons
    delete_addons-IsShrinking [] = return-IsShrinking c {A = List String} []
    delete_addons-IsShrinking (ad ∷ ads) =
        then-IsShrinking c _ _ (remove_if_present-IsShrinking c laws (previous_message ad) ad) λ _.
          then-IsShrinking c _ _ (delete_addons-IsShrinking ads)
            λ keys. return-IsShrinking c (addon_key ad ∷ keys)

    delete_addons-IsRemoved :
        (ads : List StatusAddon) (s : S) {keys : List String} {t : S}
        → delete_addons c ads s ≡ (done keys, t)
        → IsConsistent c s
        → Every (IsRemoved t) ads
    unfolding delete_addons Every
    delete_addons-IsRemoved [] s h k = tt
    delete_addons-IsRemoved (ad ∷ ads) s {keys} {t} h k = after_task _ _ s h λ _ s1 p l.
        after_task _ _ s1 l λ keys s2 q m.
          let here = after_removal (previous_message ad) ad s p k in
          let same : s2 ≡ t = (return-eq-done _ s2 m).1 in
          subst (λ u. IsRemoved u ad × Every (IsRemoved u) ads) same
            (
              IsRemoved-Shrinks
                  (subst (Shrinks c s1) (ap (λ x. x.1) q) (delete_addons-IsShrinking ads s1)) ad
                  here.0,
              delete_addons-IsRemoved ads s1 q here.1,
            )

    -- Over a storage that forgets what it removes and holds under a version that parses only addons of that version,
    -- `deletePreviousAddons` that returns no error leaves none of the addons of the repositories to be read.
    pub delete_previous_addons-IsRemoved :
        (repos : List StatusRepository) (s : S) (keys : List String) (t : S)
        → delete_previous_addons c repos s ≡ (done keys, t)
        → IsConsistent c s
        → Every (IsRemoved t) (status_addons repos)
    unfolding delete_previous_addons
    delete_previous_addons-IsRemoved repos s keys t h k =
        delete_addons-IsRemoved (status_addons repos) s h k

    delete_orphans-IsShrinking :
        (present ads : List StatusAddon) → IsShrinking c (delete_orphans c present ads)
    unfolding delete_orphans
    delete_orphans-IsShrinking present [] = return-IsShrinking c {A = List String} []
    delete_orphans-IsShrinking present (ad ∷ ads) =
        if-IsShrinking c (stays present ad) _ _ (delete_orphans-IsShrinking present ads) (
          then-IsShrinking c _ _ (remove_if_present-IsShrinking c laws (orphan_message ad) ad) λ _.
            then-IsShrinking c _ _ (delete_orphans-IsShrinking present ads)
              λ keys. return-IsShrinking c (addon_key ad ∷ keys))

    delete_orphans-IsSpared :
        (present ads : List StatusAddon) (s : S) {keys : List String} {t : S}
        → delete_orphans c present ads s ≡ (done keys, t)
        → IsConsistent c s
        → Every (IsSpared present t) ads
    unfolding delete_orphans Every
    delete_orphans-IsSpared present [] s h k = tt
    delete_orphans-IsSpared present (ad ∷ ads) s {keys} {t} h k =
        either_task (stays present ad) (delete_orphans c present ads)
          (remove_if_present c (orphan_message ad) ad >>= λ removed.
            delete_orphans c present ads >>= λ keys. return (addon_key ad ∷ keys))
          s h (λ e l. (inl e, delete_orphans-IsSpared present ads s l k))
          (λ e l. after_task _ _ s l λ _ s1 p m. after_task _ _ s1 m λ keys s2 q n.
            let here = after_removal (orphan_message ad) ad s p k in
            let same : s2 ≡ t = (return-eq-done _ s2 n).1 in
            subst (λ u. IsSpared present u ad × Every (IsSpared present u) ads) same
              (
                inr (
                    IsRemoved-Shrinks
                      (subst (Shrinks c s1) (ap (λ x. x.1) q)
                        (delete_orphans-IsShrinking present ads s1))
                      ad here.0),
                delete_orphans-IsSpared present ads s1 q here.1,
              ))

    -- Over a storage that forgets what it removes and holds under a version that parses only addons of that version,
    -- `deleteOrphanAddons` that returns no error leaves of the last repositories' addons only those to be read
    -- whose key one of the present repositories' addons has.
    pub delete_orphan_addons-IsRemoved :
        (repos last : List StatusRepository) (s : S) (keys : List String) (t : S)
        → delete_orphan_addons c repos last s ≡ (done keys, t)
        → IsConsistent c s
        → Every
            (λ ad. (stays (status_addons repos) ad ≡ true) ⊎ IsRemoved t ad)
            (status_addons last)
    unfolding delete_orphan_addons
    delete_orphan_addons-IsRemoved repos last s keys t h k =
        delete_orphans-IsSpared (status_addons repos) (status_addons last) s h k
