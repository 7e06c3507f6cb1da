-- ===== src/Bind/Policy.antt =====
-- Which value a credential has: the policy that the comment of `Resolve` states.
use mathlib.Core.Path.{subst}
use helm_broker.Common.{
  found, ◌&&◌, eq_refl, String, ◌≡◌, refl, true, false, ◌==◌, eq_iff, Option, none, some, List, [],
  ◌∷◌, ok, err, Result-cases, Option-cases, if◌then◌else◌, inl, inr, arith,
}
use helm_broker.Dict.{Dict, lookup, insert, lookup-insert}
use helm_broker.Dict.Entries.{HasDistinctKeys, insert-HasDistinctKeys}
use helm_broker.Bind.{
  Reader, BindYaml, CredentialVar, CredentialFromSource, set_all, insert_credential,
  get_secret_all_values, get_config_map_all_values, get_cred_from_all_ref_values, given_value,
  read_sources, read_variables, resolve,
}

abbrev pub or_else : Option String → Option String → Option String
or_else none other = other
or_else (some v) other = some v

pub ok-injective : {A : Type 0} {a b : A} → ok a ≡ ok b → a ≡ b
ok-injective h = ground arith

-- The data of configuration maps are maps.
pub record HasMaps {Service JsonPath : Type 0} (reader : Reader Service JsonPath) : Type 0 where
  pub config_map_distinct :
      (name : String) (d : Dict String) → reader.get_config_map name ≡ ok d → HasDistinctKeys d

lookup-set_all :
    (k : String) (es m : Dict String)
    → HasDistinctKeys es
    → lookup k (set_all es m) ≡ or_else (lookup k es) (lookup k m)
unfolding set_all lookup
lookup-set_all k [] m d = refl
lookup-set_all k ((j, v) ∷ es) m d =
    ground (arith, lookup-set_all k es (insert j v m) d.1, lookup-insert j k v m, eq_iff j k)

set_all-HasDistinctKeys : (es m : Dict String) → HasDistinctKeys m → HasDistinctKeys (set_all es m)
unfolding set_all
set_all-HasDistinctKeys [] m d = d
set_all-HasDistinctKeys ((j, v) ∷ es) m d =
    set_all-HasDistinctKeys es (insert j v m) (insert-HasDistinctKeys j v m d)

module _ {Service JsonPath : Type 0} (reader : Reader Service JsonPath) where
  -- The value of the first variable of the name that has one.
  unfoldable pub credential_of : String → List CredentialVar → Option String
  credential_of k [] = none
  credential_of k (var ∷ rest) = elim (given_value reader var) [
    | none ↦ credential_of k rest
    | some (err e) ↦ credential_of k rest
    | some (ok v) ↦ if var.name == k then some v else credential_of k rest
  ]

  -- The value in the last source that has the name.
  unfoldable pub source_of : String → List CredentialFromSource → Option String
  source_of k [] = none
  source_of k (source ∷ rest) = elim (source_of k rest) [
    | some v ↦ some v
    | none ↦ elim (get_cred_from_all_ref_values reader source) [
      | err e ↦ none
      | ok envs ↦ lookup k envs
    ]
  ]

  -- Of the variables that have a value, no two share a name.
  unfoldable pub HasDistinctNames : List CredentialVar → Type 0
  HasDistinctNames [] = Unit {0}
  HasDistinctNames (var ∷ rest) =
      ((found (given_value reader var) && found (credential_of var.name rest)) ≡ false)
      × HasDistinctNames rest

  -- A variable that is read is new.
  read_variables-new :
      (k : String) (vars : List CredentialVar) (m m' : Dict String)
      → read_variables reader vars m ≡ ok m'
      → found (lookup k m) ≡ true
      → credential_of k vars ≡ none
  unfolding read_variables credential_of insert_credential
  read_variables-new k [] m m' h f = refl
  read_variables-new k (var ∷ rest) m m' h f = elim (Option-cases (given_value reader var)) [
    | inl e ↦ ground (arith, read_variables-new k rest m m')
    | inr (err x, e) ↦ absurd (ground arith)
    | inr (ok v, e) ↦ ground (
      arith,
      read_variables-new k rest (insert var.name v m) m',
      lookup-insert var.name k v m,
      eq_iff var.name k,
    )
  ]

  read_variables-lookup :
      (k : String) (vars : List CredentialVar) (m m' : Dict String)
      → read_variables reader vars m ≡ ok m'
      → lookup k m' ≡ or_else (lookup k m) (credential_of k vars)
  unfolding read_variables credential_of insert_credential
  read_variables-lookup k [] m m' h = ground arith
  read_variables-lookup k (var ∷ rest) m m' h = elim (Option-cases (given_value reader var)) [
    | inl e ↦ ground (arith, read_variables-lookup k rest m m')
    | inr (err x, e) ↦ absurd (ground arith)
    | inr (ok v, e) ↦ ground (
      arith,
      read_variables-lookup k rest (insert var.name v m) m',
      lookup-insert var.name k v m,
      eq_iff var.name k,
    )
  ]

  read_variables-HasDistinctNames :
      (vars : List CredentialVar) (m m' : Dict String)
      → read_variables reader vars m ≡ ok m'
      → HasDistinctNames vars
  unfolding read_variables HasDistinctNames insert_credential
  read_variables-HasDistinctNames [] m m' h = tt
  read_variables-HasDistinctNames (var ∷ rest) m m' h =
      elim (Option-cases (given_value reader var)) [
        | inl e ↦ (rw e refl, read_variables-HasDistinctNames rest m m' (ground arith))
        | inr (err x, e) ↦ absurd (ground arith)
        | inr (ok v, e) ↦
            let h' : read_variables reader rest (insert var.name v m) ≡ ok m' = ground arith in
            (
              ground (
                arith,
                read_variables-new var.name rest (insert var.name v m) m' h',
                lookup-insert var.name var.name v m,
                eq_refl var.name,
              ),
              read_variables-HasDistinctNames rest (insert var.name v m) m' h',
            )
      ]

  read_variables-HasDistinctKeys :
      (vars : List CredentialVar) (m m' : Dict String)
      → HasDistinctKeys m
      → read_variables reader vars m ≡ ok m'
      → HasDistinctKeys m'
  unfolding read_variables insert_credential
  read_variables-HasDistinctKeys [] m m' d h = subst HasDistinctKeys (ok-injective h) d
  read_variables-HasDistinctKeys (var ∷ rest) m m' d h =
      elim (Option-cases (given_value reader var)) [
        | inl e ↦ read_variables-HasDistinctKeys rest m m' d (ground arith)
        | inr (err x, e) ↦ absurd (ground arith)
        | inr (ok v, e) ↦
            read_variables-HasDistinctKeys rest (insert var.name v m) m'
              (insert-HasDistinctKeys var.name v m d) (ground arith)
      ]

module _ {Service JsonPath : Type 0} (reader : Reader Service JsonPath)
    (laws : HasMaps reader) where
  get_secret-HasDistinctKeys :
      (name : String) (envs : Dict String)
      → get_secret_all_values reader name ≡ ok envs
      → HasDistinctKeys envs
  unfolding get_secret_all_values
  get_secret-HasDistinctKeys name envs h = elim (Result-cases (reader.get_secret name)) [
    | inl (x, e) ↦ absurd (ground arith)
    | inr (d, e) ↦
        subst HasDistinctKeys (ok-injective {a = set_all d []} (ground arith))
          (set_all-HasDistinctKeys d [] tt)
  ]

  get_config_map-HasDistinctKeys :
      (name : String) (envs : Dict String)
      → get_config_map_all_values reader name ≡ ok envs
      → HasDistinctKeys envs
  unfolding get_config_map_all_values
  get_config_map-HasDistinctKeys name envs h = elim (Result-cases (reader.get_config_map name)) [
    | inl (x, e) ↦ absurd (ground arith)
    | inr (d, e) ↦ laws.config_map_distinct name envs (ground arith)
  ]

  get_cred-HasDistinctKeys :
      (source : CredentialFromSource) (envs : Dict String)
      → get_cred_from_all_ref_values reader source ≡ ok envs
      → HasDistinctKeys envs
  unfolding get_cred_from_all_ref_values
  get_cred-HasDistinctKeys source envs h = elim (Option-cases source.config_map_ref) [
    | inr (name, e) ↦ get_config_map-HasDistinctKeys name envs (ground arith)
    | inl e ↦ elim (Option-cases source.secret_ref) [
      | inr (name, f) ↦ get_secret-HasDistinctKeys name envs (ground arith)
      | inl f ↦ absurd (ground arith)
    ]
  ]

  read_sources-lookup :
      (k : String) (sources : List CredentialFromSource) (m m' : Dict String)
      → read_sources reader sources m ≡ ok m'
      → lookup k m' ≡ or_else (source_of reader k sources) (lookup k m)
  unfolding read_sources source_of
  read_sources-lookup k [] m m' h = ground arith
  read_sources-lookup k (source ∷ rest) m m' h =
      elim (Result-cases (get_cred_from_all_ref_values reader source)) [
        | inl (x, e) ↦ absurd (ground arith)
        | inr (envs, e) ↦ ground (
          arith,
          read_sources-lookup k rest (set_all envs m) m',
          lookup-set_all k envs m (get_cred-HasDistinctKeys source envs e),
        )
      ]

  -- If the data of configuration maps have no key twice and `Resolve` returns credentials, then no two
  -- of the variables that have a value share a name, and each name has the value of the variable of that name or,
  -- without one, the value that the last source with that name has.
  pub resolve-lookup :
      (k text : String) (bind : BindYaml) (out : Dict String)
      → reader.parse_yaml text ≡ ok bind
      → resolve reader text ≡ ok out
      → HasDistinctNames reader bind.credential
        × (lookup k out
            ≡ or_else
                (credential_of reader k bind.credential)
                (source_of reader k bind.credential_from))
  unfolding resolve
  resolve-lookup k text bind out p h =
      elim (Result-cases (read_sources reader bind.credential_from [])) [
        | inl (x, e) ↦ absurd (ground arith)
        | inr (from, e) ↦ elim (Result-cases (read_variables reader bind.credential [])) [
          | inl (x, f) ↦ absurd (ground arith)
          | inr (cred, f) ↦ (
            read_variables-HasDistinctNames reader bind.credential [] cred f,
            ground (
              arith,
              lookup-set_all k cred from
                  (read_variables-HasDistinctKeys reader bind.credential [] cred tt f),
              read_variables-lookup reader k bind.credential [] cred f,
              read_sources-lookup k bind.credential_from [] from e,
            ),
          )
        ]
      ]
