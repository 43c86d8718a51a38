-- ===== src/Cli/Bodies.antt =====
-- The bodies that the commands send, against the attributes that the API lets a request set.
use neutron_local_services_p.Base.{
  String, ◌≡◌, refl, ap, ◌∙◌, Bool, true, false, not, ◌&&◌, Option, none, some, List, [], ◌∷◌, ◌==◌,
  string_eq, if◌then◌else◌, contains, any, arith,
}
use neutron_local_services_p.Base.Dict
use neutron_local_services_p.Base.Dict.{Dict}
use neutron_local_services_p.Api.{
  Attribute, Sizes, service_attributes, backend_attributes, binding_attributes, admits,
}
use neutron_local_services_p.Cli.{Value, Args, body}
use neutron_local_services_p.Cli.Service.{create_body_fields, set_body_fields}
use neutron_local_services_p.Cli.Backend
use neutron_local_services_p.Cli.Binding

abbrev pub is_on : Option Value → Bool
is_on none = false
is_on (some v) = true

-- The names of the attributes that a test admits.
abbrev pub names : (String → Attribute → Bool) → Dict String Attribute → List String
names test [] = []
names test ((k, a) ∷ attributes) =
    let rest = names test attributes in if test k a then k ∷ rest else rest

contains-names :
    (test : String → Attribute → Bool) (attributes : Dict String Attribute) (f : String)
    → contains (names test attributes) f ≡ admits test attributes f
unfolding any
contains-names test [] f = refl
contains-names test ((k, a) ∷ attributes) f = ground (arith, contains-names test attributes f)

contains-body :
    (args : Args) (fields : List String) (f : String)
    → contains (Dict.keys (body args fields)) f ≡ (contains fields f && is_on (args f))
unfolding body
contains-body args [] f = refl
contains-body args (g ∷ fields) f = elim (string_eq.dec f g) [
  | yes p ↦ ground (arith, contains-body args fields f, ap args p)
  | no p ↦ ground (arith, contains-body args fields f)
]

sends :
    (args : Args) (test : String → Attribute → Bool) (attributes : Dict String Attribute)
    (f : String)
    → contains (Dict.keys (body args (names test attributes))) f
      ≡ (admits test attributes f && is_on (args f))
sends args test attributes f =
    contains-body args (names test attributes) f
    ∙ ap (λ b. b && is_on (args f)) (contains-names test attributes f)

-- What a PUT may change, and what a POST may set besides the project.
abbrev pub put : String → Attribute → Bool
put name a = a.allow_put

abbrev pub post : String → Attribute → Bool
post name a = a.allow_post && not (name == "project_id")

-- Whatever is on the command line, the body of a command that changes a service, a backend or a
-- binding has exactly those of the given fields that the API lets a PUT change; and the body of a
-- command that creates one has exactly those that it lets a POST set, `project_id` excepted.
pub bodies_admitted :
    (sizes : Sizes) (args : Args) (f : String)
    → (contains (Dict.keys (body args set_body_fields)) f
        ≡ (admits put (service_attributes sizes) f && is_on (args f)))
      × (contains (Dict.keys (body args Backend.set_fields)) f
          ≡ (admits put (backend_attributes sizes) f && is_on (args f)))
      × (contains (Dict.keys (body args Binding.set_fields)) f
          ≡ (admits put (binding_attributes sizes) f && is_on (args f)))
      × (contains (Dict.keys (body args create_body_fields)) f
          ≡ (admits post (service_attributes sizes) f && is_on (args f)))
      × (contains (Dict.keys (body args Backend.create_fields)) f
          ≡ (admits post (backend_attributes sizes) f && is_on (args f)))
      × (contains (Dict.keys (body args Binding.create_fields)) f
          ≡ (admits post (binding_attributes sizes) f && is_on (args f)))
unfolding string_eq
bodies_admitted sizes args f = (
  sends args put (service_attributes sizes) f,
  sends args put (backend_attributes sizes) f,
  sends args put (binding_attributes sizes) f,
  sends args post (service_attributes sizes) f,
  sends args post (backend_attributes sizes) f,
  sends args post (binding_attributes sizes) f,
)
