-- ===== src/Cli/Binding.antt =====
-- cli/osc/binding.py: the commands on bindings, which are named by their ids.
use neutron_local_services_p.Base.{String, List, [], ◌∷◌, if◌then◌else◌, is_empty}
use neutron_local_services_p.Cli.{
  Value, Obj, Args, body, Outcome, done, failed, Exit, returned, raised, delete_each, shown_as,
}
use neutron_local_services_p.Cli.Client.{Session, list, show, create, update, delete}
use neutron_local_services_p.Cli.Format.{binding_columns, shown, listed}

abbrev pub collection : String
collection = "local_service_bindings"

abbrev pub resource : String
resource = "local_service_binding"

abbrev pub create_fields : List String
create_fields = "service_id" ∷ "network_id" ∷ "enabled" ∷ []

abbrev pub set_fields : List String
set_fields = "enabled" ∷ []

abbrev pub list_fields : List String
list_fields = "service_id" ∷ "network_id" ∷ "enabled" ∷ []

module _ (S : Session) (endpoint : String) where
  unfoldable pub create_binding : Args → S.State → Exit (List String × List Value) × S.State
  unfolding body create shown
  create_binding args s =
      let (answer, s') = create S endpoint collection resource (body args create_fields) s in
      (shown_as (shown binding_columns) answer, s')

  unfoldable pub list_bindings : Args → S.State → Exit (List String × List (List Value)) × S.State
  unfolding body list listed
  list_bindings args s =
      let (answer, s') = list S endpoint collection (body args list_fields) s in
      (shown_as (listed binding_columns) answer, s')

  unfoldable pub show_binding : String → S.State → Exit (List String × List Value) × S.State
  unfolding show shown
  show_binding id s =
      let (answer, s') = show S endpoint collection resource id s in
      (shown_as (shown binding_columns) answer, s')

  abbrev ignored : Outcome Obj × S.State → Exit (Unit {0}) × S.State
  ignored (done o, s) = (returned tt, s)
  ignored (failed e, s) = (raised e, s)

  unfoldable pub set_binding : String → Args → S.State → Exit (Unit {0}) × S.State
  unfolding body update
  set_binding id args s =
      let changes = body args set_fields in
      if is_empty changes
      then (returned tt, s)
      else ignored (update S endpoint collection resource id changes s)

  unfoldable pub delete_bindings : List String → S.State → Exit (Unit {0}) × S.State
  unfolding delete_each delete
  delete_bindings ids s = delete_each (delete S endpoint collection) ids [] s
