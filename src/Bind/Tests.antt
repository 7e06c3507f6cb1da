-- ===== src/Bind/Tests.antt =====
-- A template with a variable, a variable from a secret, and two sources.
use helm_broker.Common.{String, ◌≡◌, refl, none, some, [], ◌∷◌, plain, ok, err}
use mathlib.Core.Path.{subst}
use helm_broker.Dict.Entries.{HasDistinctKeys}
use helm_broker.Dict.{Dict, lookup}
use helm_broker.Bind.{Reader, BindYaml, resolve}
use helm_broker.Bind.Policy.{
  ok-injective, HasMaps, HasDistinctNames, resolve-lookup, or_else, credential_of, source_of,
}

abbrev bind : BindYaml
bind = record {
  credential =
      record { name = "host"; value = "redis"; value_from = none }
      ∷ record {
        name = "password";
        value = "";
        value_from = some (record {
          config_map_key_ref = none;
          secret_key_ref = some (record { name = "redis"; key = "pass" });
          service_ref = none;
        });
      }
      ∷ [];
  credential_from =
      record { config_map_ref = some "defaults"; secret_ref = none }
      ∷ record { config_map_ref = none; secret_ref = some "redis" }
      ∷ [];
}

abbrev reader : Reader String String
reader = record {
  parse_yaml = λ text. ok bind;
  get_secret = λ name. ok (("pass", "secret") ∷ ("port", "6379") ∷ []);
  get_config_map = λ name. ok (("host", "localhost") ∷ ("port", "80") ∷ []);
  get_service = λ name. err (plain "not found");
  parse_path = λ path. ok path;
  execute = λ path service. ok service;
}

abbrev defaults : Dict String
defaults = ("host", "localhost") ∷ ("port", "80") ∷ []

defaults-HasDistinctKeys : HasDistinctKeys defaults
unfolding lookup
defaults-HasDistinctKeys = (refl, (refl, tt))

reader-HasMaps : HasMaps reader
reader-HasMaps = record {
  config_map_distinct = λ name d h. subst HasDistinctKeys (ok-injective h) defaults-HasDistinctKeys;
}

abbrev credentials : Dict String
credentials =
    ("host", "redis") ∷ ("port", "6379") ∷ ("pass", "secret") ∷ ("password", "secret") ∷ []

resolved : resolve reader "bind" ≡ ok credentials
unfolding resolve
resolved = refl

resolve-lookup_example :
    HasDistinctNames reader bind.credential
    × (lookup "port" credentials
        ≡ or_else
            (credential_of reader "port" bind.credential)
            (source_of reader "port" bind.credential_from))
resolve-lookup_example =
    resolve-lookup reader reader-HasMaps "port" "bind" bind credentials refl resolved
