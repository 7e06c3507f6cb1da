-- ===== src/Bind.antt =====
-- The resolver of bind templates: internal/bind/resolver.go, with the types of internal/bind/types.go.
pub mod Policy
pub mod Renderer
mod Tests
use helm_broker.Common.{
  String, Bool, true, false, not, Option, none, some, List, [], ◌∷◌, plain, Result, ok, err, Error,
  wrap_result, is_empty, if◌then◌else◌,
}
use helm_broker.Dict.{Dict, lookup, insert}

pub record KeySelector : Type 0 where
  pub name : String
  pub key : String

pub record JsonPathSelector : Type 0 where
  pub name : String
  pub json_path : String

-- A name selector is its name.
pub record CredentialVarSource : Type 0 where
  pub config_map_key_ref : Option KeySelector
  pub secret_key_ref : Option KeySelector
  pub service_ref : Option JsonPathSelector

pub record CredentialVar : Type 0 where
  pub name : String
  pub value : String
  pub value_from : Option CredentialVarSource

pub record CredentialFromSource : Type 0 where
  pub config_map_ref : Option String
  pub secret_ref : Option String

-- `YAML`
pub record BindYaml : Type 0 where
  pub credential : List CredentialVar
  pub credential_from : List CredentialFromSource

-- The Kubernetes client in one namespace, the parser of YAML, and JSON paths on services. The data of a
-- secret or a configuration map is in the order in which a loop visits it.
pub record Reader (Service JsonPath : Type 0) : Type 0 where
  pub parse_yaml : String → Result BindYaml
  pub get_secret : String → Result (Dict String)
  pub get_config_map : String → Result (Dict String)
  pub get_service : String → Result Service
  pub parse_path : String → Result JsonPath
  pub execute : JsonPath → Service → Result String

-- A loop that writes each entry of a map into another.
unfoldable pub set_all : Dict String → Dict String → Dict String
unfolding insert
set_all [] m = m
set_all ((k, v) ∷ rest) m = set_all rest (insert k v m)

-- `Insert` of `credentials`
unfoldable pub insert_credential : String → String → Dict String → Result (Dict String)
unfolding lookup insert
insert_credential name value m = elim (lookup name m) [
  | none ↦ ok (insert name value m)
  | some other ↦ err (plain "conflict: found credentials with the same name")
]

module _ {Service JsonPath : Type 0} (reader : Reader Service JsonPath) where
  -- `getSecretAllValues`
  unfoldable pub get_secret_all_values : String → Result (Dict String)
  unfolding set_all
  get_secret_all_values name = elim (wrap_result "while getting secrets" (reader.get_secret name)) [
    | err e ↦ err e
    | ok data' ↦ ok (set_all data' [])
  ]

  -- `getConfigMapAllValues`
  unfoldable pub get_config_map_all_values : String → Result (Dict String)
  get_config_map_all_values name =
      wrap_result "while getting configmap" (reader.get_config_map name)

  -- `getCredFromAllRefValues`
  unfoldable pub get_cred_from_all_ref_values : CredentialFromSource → Result (Dict String)
  unfolding get_secret_all_values get_config_map_all_values
  get_cred_from_all_ref_values source = elim source.config_map_ref [
    | some name ↦ get_config_map_all_values name
    | none ↦ elim source.secret_ref [
      | some name ↦ get_secret_all_values name
      | none ↦ err (plain "invalid credentialFrom")
    ]
  ]

  -- `getSecretKeyValue`
  unfoldable pub get_secret_key_value : KeySelector → Result String
  unfolding lookup
  get_secret_key_value selector =
      elim (wrap_result "while getting secrets" (reader.get_secret selector.name)) [
        | err e ↦ err e
        | ok data' ↦ elim (lookup selector.key data') [
          | none ↦ err (plain "key not found in secret")
          | some v ↦ ok v
        ]
      ]

  -- `getConfigMapKeyValue`
  unfoldable pub get_config_map_key_value : KeySelector → Result String
  unfolding lookup
  get_config_map_key_value selector =
      elim (wrap_result "while getting configmap" (reader.get_config_map selector.name)) [
        | err e ↦ err e
        | ok data' ↦ elim (lookup selector.key data') [
          | none ↦ err (plain "key not found in config map")
          | some v ↦ ok v
        ]
      ]

  -- `getServiceJSONPathValue`
  unfoldable pub get_service_json_path_value : JsonPathSelector → Result String
  get_service_json_path_value selector =
      elim (wrap_result "while getting service" (reader.get_service selector.name)) [
        | err e ↦ err e
        | ok service ↦
            elim (wrap_result "while parsing json path" (reader.parse_path selector.json_path)) [
              | err e ↦ err e
              | ok path ↦ wrap_result "while selecting json path" (reader.execute path service)
            ]
      ]

  -- `getCredVarKeyRefValue`
  unfoldable pub get_cred_var_key_ref_value : CredentialVarSource → Result String
  unfolding get_secret_key_value get_config_map_key_value get_service_json_path_value
  get_cred_var_key_ref_value source = elim source.secret_key_ref [
    | some selector ↦ get_secret_key_value selector
    | none ↦ elim source.config_map_key_ref [
      | some selector ↦ get_config_map_key_value selector
      | none ↦ elim source.service_ref [
        | some selector ↦ get_service_json_path_value selector
        | none ↦ err (plain "invalid valueFrom")
      ]
    ]
  ]

  -- The first loop of `Resolve`, over `bind.CredentialFrom`
  unfoldable pub read_sources : List CredentialFromSource → Dict String → Result (Dict String)
  unfolding get_cred_from_all_ref_values set_all
  read_sources [] m = ok m
  read_sources (source ∷ rest) m = elim (get_cred_from_all_ref_values source) [
    | err e ↦ err e
    | ok envs ↦ read_sources rest (set_all envs m)
  ]

  -- What a variable of `bind.Credential` gives, if it has a value or a source of one.
  unfoldable pub given_value : CredentialVar → Option (Result String)
  unfolding get_cred_var_key_ref_value
  given_value var = if not (is_empty var.value) then some (ok var.value) else elim var.value_from [
    | none ↦ none
    | some source ↦ some (get_cred_var_key_ref_value source)
  ]

  -- The second loop of `Resolve`, over `bind.Credential`
  unfoldable pub read_variables : List CredentialVar → Dict String → Result (Dict String)
  unfolding given_value insert_credential
  read_variables [] m = ok m
  read_variables (var ∷ rest) m = elim (given_value var) [
    | none ↦ read_variables rest m
    | some (err e) ↦ err e
    | some (ok value) ↦ elim (insert_credential var.name value m) [
      | err e ↦ err e
      | ok m' ↦ read_variables rest m'
    ]
  ]

  -- `Resolve`
  unfoldable pub resolve : String → Result (Dict String)
  unfolding read_sources read_variables set_all
  resolve text = elim (wrap_result "while unmarshaling bind yaml" (reader.parse_yaml text)) [
    | err e ↦ err e
    | ok bind ↦ elim (read_sources bind.credential_from []) [
      | err e ↦ err e
      | ok cred_from ↦ elim (read_variables bind.credential []) [
        | err e ↦ err e
        | ok cred ↦ ok (set_all cred cred_from)
      ]
    ]
  ]
