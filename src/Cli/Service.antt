-- ===== src/Cli/Service.antt =====
-- cli/osc/service.py: the commands on local services. `none` from `set` means that it asks for nothing.
use neutron_local_services_p.Base.{
  String, Bool, false, ◌||◌, Option, none, some, List, [], ◌∷◌, if◌then◌else◌, not, is_empty,
  text_is_true, string_eq,
}
use neutron_local_services_p.Base.Dict
use neutron_local_services_p.Cli.{
  Value, null, text, nested, number, flag, Obj, Args, body, Outcome, done, failed, Exit, returned,
  raised, usage, delete_each, id_in, shown_as,
}
use neutron_local_services_p.Cli.Client.{Session, list, create, update, delete, find_by_name_or_id}
use neutron_local_services_p.Cli.Format.{service_columns, shown, listed}

abbrev pub collection : String
collection = "local_services"

abbrev pub resource : String
resource = "local_service"

abbrev pub create_body_fields : List String
create_body_fields =
    "name" ∷ "description" ∷ "local_ipv4" ∷ "local_ipv6" ∷ "protocol" ∷ "port" ∷ "attachment_policy"
    ∷ "distribution_policy" ∷ "exposure_plugin" ∷ "health_check_type" ∷ "health_check_config"
    ∷ "enabled" ∷ []

abbrev pub set_body_fields : List String
set_body_fields =
    "name" ∷ "description" ∷ "local_ipv4" ∷ "local_ipv6" ∷ "attachment_policy"
    ∷ "distribution_policy" ∷ "health_check_type" ∷ "health_check_config" ∷ "enabled" ∷ []

abbrev pub list_fields : List String
list_fields = "protocol" ∷ "exposure_plugin" ∷ "enabled" ∷ []

-- Whether an argument is a text that counts as true.
abbrev pub is_text : Option Value → Bool
is_text none = false
is_text (some (text t)) = text_is_true t
is_text (some null) = false
is_text (some (nested t)) = false
is_text (some (number n)) = false
is_text (some (flag b)) = false

module _ (S : Session) (endpoint : String) where
  unfoldable pub create_service : Args → S.State → Exit (List String × List Value) × S.State
  unfolding body create shown
  create_service args s =
      if not (is_text (args "local_ipv4") || is_text (args "local_ipv6"))
      then (usage, s)
      else (let (answer, s') =
            create S endpoint collection resource (body args create_body_fields) s in
          (shown_as (shown service_columns) answer, s'))

  unfoldable pub list_services : Args → S.State → Exit (List String × List (List Value)) × S.State
  unfolding body list listed
  list_services args s =
      let (answer, s') = list S endpoint collection (body args list_fields) s in
      (shown_as (listed service_columns) answer, s')

  unfoldable pub show_service : String → S.State → Exit (List String × List Value) × S.State
  unfolding find_by_name_or_id shown
  show_service ref s =
      let (answer, s') = find_by_name_or_id S endpoint collection resource ref s in
      (shown_as (shown service_columns) answer, s')

  abbrev ignored : Outcome Obj × S.State → Exit (Unit {0}) × S.State
  ignored (done o, s) = (returned tt, s)
  ignored (failed e, s) = (raised e, s)

  abbrev set_with : Obj → Outcome String → S.State → Exit (Unit {0}) × S.State
  set_with changes (failed e) s = (raised e, s)
  set_with changes (done id) s = ignored (update S endpoint collection resource id changes s)

  abbrev set_found : Obj → Outcome Obj × S.State → Exit (Unit {0}) × S.State
  set_found changes (failed e, s) = (raised e, s)
  set_found changes (done existing, s) =
      if is_empty changes
      then (returned tt, s)
      else set_with changes (id_in (Dict.lookup "id" existing)) s

  unfoldable pub set_service : String → Args → S.State → Exit (Unit {0}) × S.State
  unfolding body find_by_name_or_id update
  set_service ref args s =
      set_found (body args set_body_fields)
        (find_by_name_or_id S endpoint collection resource ref s)

  abbrev delete_with : Outcome String → S.State → Outcome (Unit {0}) × S.State
  delete_with (failed e) s = (failed e, s)
  delete_with (done id) s = delete S endpoint collection id s

  abbrev delete_found : Outcome Obj × S.State → Outcome (Unit {0}) × S.State
  delete_found (failed e, s) = (failed e, s)
  delete_found (done o, s) = delete_with (id_in (Dict.lookup "id" o)) s

  unfoldable pub delete_services : List String → S.State → Exit (Unit {0}) × S.State
  unfolding delete_each find_by_name_or_id delete
  delete_services refs s =
      delete_each (λ ref s. delete_found (find_by_name_or_id S endpoint collection resource ref s))
        refs [] s
