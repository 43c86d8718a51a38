-- ===== src/Cli/Arguments.antt =====
-- The parsers of the commands, by the `dest` of each argument, against the attributes of the API.
use neutron_local_services_p.Base.{
  String, ◌≡◌, refl, ap, Bool, true, false, ◌||◌, Option, none, some, List, [], ◌∷◌, ◌==◌,
  string_eq, if◌then◌else◌, contains, arith,
}
use neutron_local_services_p.Base.Dict
use neutron_local_services_p.Base.Dict.{Dict}
use neutron_local_services_p.Constants.{exposure_plugins}
use neutron_local_services_p.Api.{
  Attribute, values, range, string, string_or_none, uuid, ip_address, ip_address_or_none, Sizes,
  service_attributes, protocols, attach_policies, distribution_policies, hc_types,
}
use neutron_local_services_p.Cli.Service.{create_body_fields, set_body_fields}
use neutron_local_services_p.Cli.Service
use neutron_local_services_p.Cli.Backend
use neutron_local_services_p.Cli.Binding

-- A text, a number, one of some choices, a pair of flags for `store_true` and `store_false`, or one
-- or more references.
pub data Kind : Type 0 where
  plain number switch several : Kind
  one_of : List String → Kind

-- `needed` for a positional argument and where `required=True`.
pub record Argument : Type 0 where
  pub kind : Kind
  pub needed : Bool

abbrev option : Kind → Argument
option kind = record { kind = kind; needed = false }

abbrev required : Kind → Argument
required kind = record { kind = kind; needed = true }

abbrev pub create_service_args : Dict String Argument
create_service_args =
    ("name", required plain)
    ∷ ("description", option plain)
    ∷ ("local_ipv4", option plain)
    ∷ ("local_ipv6", option plain)
    ∷ ("protocol", required (one_of protocols))
    ∷ ("port", required number)
    ∷ ("attachment_policy", option (one_of attach_policies))
    ∷ ("distribution_policy", option (one_of distribution_policies))
    ∷ ("exposure_plugin", option (one_of exposure_plugins))
    ∷ ("health_check_type", option (one_of hc_types))
    ∷ ("health_check_config", option plain)
    ∷ ("enabled", option switch)
    ∷ []

abbrev pub set_service_args : Dict String Argument
set_service_args =
    ("service", required plain)
    ∷ ("name", option plain)
    ∷ ("description", option plain)
    ∷ ("local_ipv4", option plain)
    ∷ ("local_ipv6", option plain)
    ∷ ("attachment_policy", option (one_of attach_policies))
    ∷ ("distribution_policy", option (one_of distribution_policies))
    ∷ ("health_check_type", option (one_of hc_types))
    ∷ ("health_check_config", option plain)
    ∷ ("enabled", option switch)
    ∷ []

abbrev pub list_services_args : Dict String Argument
list_services_args =
    ("protocol", option (one_of protocols))
    ∷ ("exposure_plugin", option (one_of exposure_plugins))
    ∷ ("enabled", option switch)
    ∷ []

abbrev pub create_backend_args : Dict String Argument
create_backend_args =
    ("service_id", required plain)
    ∷ ("address", required plain)
    ∷ ("port", required number)
    ∷ ("name", option plain)
    ∷ ("availability_zone", option plain)
    ∷ ("weight", option number)
    ∷ ("health_check_address", option plain)
    ∷ ("health_check_port", option number)
    ∷ ("enabled", option switch)
    ∷ []

abbrev pub list_backends_args : Dict String Argument
list_backends_args = ("service_id", option plain) ∷ ("enabled", option switch) ∷ []

abbrev pub set_backend_args : Dict String Argument
set_backend_args =
    ("backend", required plain)
    ∷ ("name", option plain)
    ∷ ("availability_zone", option plain)
    ∷ ("weight", option number)
    ∷ ("address", option plain)
    ∷ ("port", option number)
    ∷ ("health_check_address", option plain)
    ∷ ("health_check_port", option number)
    ∷ ("enabled", option switch)
    ∷ []

abbrev pub create_binding_args : Dict String Argument
create_binding_args =
    ("service_id", required plain)
    ∷ ("network_id", required plain)
    ∷ ("enabled", option switch)
    ∷ []

abbrev pub list_bindings_args : Dict String Argument
list_bindings_args =
    ("service_id", option plain) ∷ ("network_id", option plain) ∷ ("enabled", option switch) ∷ []

abbrev pub set_binding_args : Dict String Argument
set_binding_args = ("binding", required plain) ∷ ("enabled", option switch) ∷ []

-- What the parser, or the API, offers to choose from for a name.
abbrev pub choices : Argument → Option (List String)
choices a = elim a.kind [
  | plain ↦ none
  | number ↦ none
  | switch ↦ none
  | several ↦ none
  | one_of vs ↦ some vs
]

abbrev pub allowed : Attribute → Option (List String)
allowed a = elim a.validate [
  | none ↦ none
  | some v ↦ elim v [
    | range lo hi ↦ none
    | string n ↦ none
    | string_or_none n ↦ none
    | uuid ↦ none
    | ip_address ↦ none
    | ip_address_or_none ↦ none
    | values vs ↦ some vs
  ]
]

-- The entries that offer a choice.
abbrev pub chosen {ℓ} :
    {A : Type ℓ} → (A → Option (List String)) → Dict String A → Dict String (List String)
chosen offer [] = []
chosen offer ((k, a) ∷ d) = elim (offer a) [
  | none ↦ chosen offer d
  | some vs ↦ (k, vs) ∷ chosen offer d
]

abbrev changeable : Dict String Attribute → Dict String Attribute
changeable [] = []
changeable ((k, a) ∷ d) = let rest = changeable d in if a.allow_put then (k, a) ∷ rest else rest

-- For every name, the command that creates a service offers the values that the API allows for the
-- attribute of the name, and the command that changes one those of the attributes that a PUT may
-- change, and neither offers a choice where the API has none.
pub choices_agree :
    (sizes : Sizes) (f : String)
    → (Dict.lookup f (chosen choices create_service_args)
        ≡ Dict.lookup f (chosen allowed (service_attributes sizes)))
      × (Dict.lookup f (chosen choices set_service_args)
          ≡ Dict.lookup f (chosen allowed (changeable (service_attributes sizes))))
choices_agree sizes f = (refl, refl)

swapped :
    (n az w ad p rest : Bool)
    → (n || (az || (w || (ad || (p || rest))))) ≡ (ad || (p || (n || (az || (w || rest)))))
swapped n az w ad p rest = ground arith

-- Every name that a body or a filter is made from is the `dest` of an argument, so that `_body`
-- finds the attribute of the parsed arguments.
pub fields_parsed :
    (f : String)
    → (contains create_body_fields f ≡ contains (Dict.keys create_service_args) f)
      × (contains ("service" ∷ set_body_fields) f ≡ contains (Dict.keys set_service_args) f)
      × (contains Service.list_fields f ≡ contains (Dict.keys list_services_args) f)
      × (contains Backend.list_fields f ≡ contains (Dict.keys list_backends_args) f)
      × (contains Backend.create_fields f ≡ contains (Dict.keys create_backend_args) f)
      × (contains ("backend" ∷ Backend.set_fields) f ≡ contains (Dict.keys set_backend_args) f)
      × (contains Binding.create_fields f ≡ contains (Dict.keys create_binding_args) f)
      × (contains Binding.list_fields f ≡ contains (Dict.keys list_bindings_args) f)
      × (contains ("binding" ∷ Binding.set_fields) f ≡ contains (Dict.keys set_binding_args) f)
fields_parsed f = (
  refl,
  refl,
  refl,
  refl,
  ap (λ b. f == "service_id" || b)
      (swapped (f == "name") (f == "availability_zone") (f == "weight") (f == "address")
        (f == "port") (contains ("health_check_address" ∷ "health_check_port" ∷ "enabled" ∷ []) f)),
  refl,
  refl,
  refl,
  refl,
)
