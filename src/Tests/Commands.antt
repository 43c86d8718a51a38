-- ===== src/Tests/Commands.antt =====
-- The command line client against servers that answer from tables.
use neutron_local_services_p.Base.{
  String, ◌<>◌, ◌≡◌, refl, ◌∙◌, ap, Bool, true, false, none, some, [], ◌∷◌, ◌==◌, string_eq, nat_eq,
  if◌then◌else◌, filter, find?, any, contains, map, text_is_true, ◌&&◌, arith,
}
use package.text.Mathlib.TextLemmas.{append_assoc, cons-append}
use neutron_local_services_p.Base.Dict
use neutron_local_services_p.Base.Text.{
  drop_prefix, drop_prefix-append, prefix_of, prefix_of-append,
}
use neutron_local_services_p.Records.{Service}
use neutron_local_services_p.Db.Tables.{Tables, get_service}
use neutron_local_services_p.Db.Backends.{delete_local_service_backend}
use neutron_local_services_p.Api.{
  Sizes, service_attributes, backend_attributes, binding_attributes, admits,
}
use neutron_local_services_p.Cli.{
  text, nested, number, flag, null, Obj, Args, body, done, http_error, raised, not_deleted, report,
}
use neutron_local_services_p.Cli.Client.{Session, Reply, reply, url, find_by_name_or_id}
use neutron_local_services_p.Cli.Backend
use neutron_local_services_p.Cli.Backend.{delete_backends}
use neutron_local_services_p.Cli.Binding
use neutron_local_services_p.Cli.Service
use neutron_local_services_p.Cli.Service.{
  create_body_fields, set_body_fields, show_service, set_service, delete_services,
}
use neutron_local_services_p.Cli.Bodies.{put, post, is_on, bodies_admitted}
use neutron_local_services_p.Cli.Deletions.{
  answer_to, committed, ServesBackends, missing, spared, delete_backends-removes,
}
use neutron_local_services_p.Cli.Names.{
  ServesServices, answer_for, many, named, resolved, find_service, names_refused,
}
use neutron_local_services_p.Tests.{sample, service}

-- The id at the end of a URL of the collection.
abbrev id_at : String → String → String
id_at collection u =
    drop_prefix "/"
      (drop_prefix collection (drop_prefix "/" (drop_prefix "/v2.0" (drop_prefix "" u))))

abbrev backends_at : Session
backends_at = record {
  State = Tables;
  get = λ u t. (reply 200 none, t);
  post = λ u resource body t. (reply 200 none, t);
  put = λ u resource body t. (reply 200 none, t);
  delete = λ u t.
      let result = delete_local_service_backend (id_at Backend.collection u) t in
      (answer_to true result, committed t result);
  urlencode = λ filters. "";
}

url_id :
    (S : Session) (collection id : String)
    → id_at collection (url S "" collection (some id) []) ≡ id
unfolding url filter
url_id S collection id =
    ap (λ t. drop_prefix "/" (drop_prefix collection (drop_prefix "/" (drop_prefix "/v2.0" t))))
      (drop_prefix-append "" ("/v2.0" <> ("/" <> (collection <> ("/" <> id)))))
    ∙ ap (λ t. drop_prefix "/" (drop_prefix collection (drop_prefix "/" t)))
        (drop_prefix-append "/v2.0" ("/" <> (collection <> ("/" <> id))))
    ∙ ap (λ t. drop_prefix "/" (drop_prefix collection t))
        (drop_prefix-append "/" (collection <> ("/" <> id)))
    ∙ ap (drop_prefix "/") (drop_prefix-append collection ("/" <> id))
    ∙ drop_prefix-append "/" id

abbrev serves_backends : ServesBackends backends_at ""
serves_backends = record {
  tables = λ t. t;
  raises = true;
  answered = λ id t.
      ap (λ i. answer_to true (delete_local_service_backend i t))
        (url_id backends_at Backend.collection id);
  stored = λ id t.
      ap (λ i. committed t (delete_local_service_backend i t))
        (url_id backends_at Backend.collection id);
}

delete_backends-removes_example :
    ((delete_backends backends_at "" ("e1" ∷ "e9" ∷ "e1" ∷ []) sample).0
      ≡ report (missing sample.backends [] ("e1" ∷ "e9" ∷ "e1" ∷ [])))
    × ((delete_backends backends_at "" ("e1" ∷ "e9" ∷ "e1" ∷ []) sample).1
        ≡ record sample { backends = filter (spared ("e1" ∷ "e9" ∷ "e1" ∷ [])) sample.backends })
delete_backends-removes_example =
    delete_backends-removes backends_at "" serves_backends ("e1" ∷ "e9" ∷ "e1" ∷ []) sample

missing_reported : missing sample.backends [] ("e1" ∷ "e9" ∷ "e1" ∷ []) ≡ "e9" ∷ "e1" ∷ []
unfolding any string_eq
missing_reported = refl

-- The path after the collection of services.
abbrev after_services : String → String
after_services u =
    drop_prefix Service.collection (drop_prefix "/" (drop_prefix "/v2.0" (drop_prefix "" u)))

abbrev first_text : Obj → String
first_text [] = ""
first_text ((k, text t) ∷ rest) = t
first_text ((k, null) ∷ rest) = ""
first_text ((k, number n) ∷ rest) = ""
first_text ((k, flag b) ∷ rest) = ""
first_text ((k, nested t) ∷ rest) = ""

abbrev service_obj : Service → Obj
service_obj svc = ("id", text svc.id) ∷ ("name", text svc.name) ∷ []

abbrev routed : Bool → Tables → String → Reply
routed raises t path =
    if prefix_of "/" path
    then answer_for raises service_obj (get_service t (drop_prefix "/" path))
    else reply 200 (some (many (map service_obj (named (drop_prefix "?" path) t))))

-- A session that raises on an error status, or one that returns it.
abbrev services_at : Bool → Session
services_at raises = record {
  State = Tables;
  get = λ u t. (routed raises t (after_services u), t);
  post = λ u resource body t. (reply 200 none, t);
  put = λ u resource body t. (reply 200 none, t);
  delete = λ u t. (reply 204 none, t);
  urlencode = first_text;
}

after_services_lem :
    (rest : String)
    → after_services ("" <> ("/v2.0" <> ("/" <> (Service.collection <> rest)))) ≡ rest
after_services_lem rest =
    ap (λ t. drop_prefix Service.collection (drop_prefix "/" (drop_prefix "/v2.0" t)))
      (drop_prefix-append "" ("/v2.0" <> ("/" <> (Service.collection <> rest))))
    ∙ ap (λ t. drop_prefix Service.collection (drop_prefix "/" t))
        (drop_prefix-append "/v2.0" ("/" <> (Service.collection <> rest)))
    ∙ ap (drop_prefix Service.collection) (drop_prefix-append "/" (Service.collection <> rest))
    ∙ drop_prefix-append Service.collection rest

routed_id :
    (raises : Bool) (t : Tables) (id : String)
    → routed raises t ("/" <> id) ≡ answer_for raises service_obj (get_service t id)
routed_id raises t id =
    rw (prefix_of-append "/" id)
      (ap (λ i. answer_for raises service_obj (get_service t i)) (drop_prefix-append "/" id))

not_an_id : (q : String) → prefix_of "/" ("?" <> q) ≡ false
unfolding prefix_of nat_eq
not_an_id q = ap (prefix_of "/") (cons-append "?" "" q)

routed_name :
    (raises : Bool) (t : Tables) (name : String)
    → routed raises t ("?" <> name) ≡ reply 200 (some (many (map service_obj (named name t))))
routed_name raises t name =
    rw (not_an_id name) (
      ap (λ n. reply 200 (some (many (map service_obj (named n t))))) (drop_prefix-append "?" name))

shown_at :
    (raises : Bool) (id : String) (t : Tables)
    → routed raises t (after_services (url (services_at raises) "" Service.collection (some id) []))
      ≡ answer_for raises service_obj (get_service t id)
unfolding url filter
shown_at raises id t = ap (routed raises t) (after_services_lem ("/" <> id)) ∙ routed_id raises t id

query_path :
    (name : String)
    → after_services (("" <> ("/v2.0" <> ("/" <> Service.collection))) <> ("?" <> name))
      ≡ "?" <> name
query_path name =
    ap after_services (
      append_assoc "" ("/v2.0" <> ("/" <> Service.collection)) ("?" <> name)
      ∙ ap (λ t. "" <> t)
          (append_assoc "/v2.0" ("/" <> Service.collection) ("?" <> name)
            ∙ ap (λ t. "/v2.0" <> t) (append_assoc "/" Service.collection ("?" <> name))))
    ∙ after_services_lem ("?" <> name)

listed_at :
    (raises : Bool) (name : String) (t : Tables)
    → text_is_true name ≡ true
    → routed raises t (
        after_services
          (url (services_at raises) "" Service.collection none (("name", text name) ∷ [])))
      ≡ reply 200 (some (many (map service_obj (named name t))))
unfolding url filter
listed_at raises String.[] t h = absurd (ground arith)
listed_at raises (String.◌∷◌ c s) t h =
    ap (routed raises t) (query_path (String.◌∷◌ c s)) ∙ routed_name raises t (String.◌∷◌ c s)

abbrev serves_services : (raises : Bool) → ServesServices (services_at raises) ""
serves_services raises = record {
  tables = λ t. t;
  raises = raises;
  obj = service_obj;
  kept = λ u t. refl;
  shown = shown_at raises;
  listed = listed_at raises;
}

-- The service s1 of the sample, renamed.
abbrev ntp : Tables
ntp = record sample {
  services = record (service "s1" "opt-in" "169.254.169.5") { name = "ntp" } ∷ [];
}

find_service_example :
    find_by_name_or_id (services_at false) "" Service.collection Service.resource "ntp" ntp
    ≡ (resolved false service_obj (get_service ntp "ntp") (named "ntp" ntp), ntp)
find_service_example = find_service (services_at false) "" (serves_services false) "ntp" ntp refl

resolved_by_name :
    resolved false service_obj (get_service ntp "ntp") (named "ntp" ntp)
    ≡ done (("id", text "s1") ∷ ("name", text "ntp") ∷ [])
unfolding get_service find? string_eq filter
resolved_by_name = refl

abbrev no_args : Args
no_args f = none

names_refused_example :
    (show_service (services_at true) "" "ntp" ntp ≡ (raised http_error, ntp))
    × (set_service (services_at true) "" "ntp" no_args ntp ≡ (raised http_error, ntp))
    × (delete_services (services_at true) "" ("ntp" ∷ []) ntp ≡ (not_deleted ("ntp" ∷ []), ntp))
unfolding get_service find? string_eq
names_refused_example =
    names_refused (services_at true) "" (serves_services true) "ntp" no_args ntp refl refl refl

abbrev sizes : Sizes
sizes = record {
  name_field_size = 255;
  long_description_field_size = 1024;
  project_id_field_size = 255;
}

abbrev disable : Args
disable f = if f == "enabled" then some (flag false) else none

bodies_admitted_example :
    (contains (Dict.keys (body disable set_body_fields)) "enabled"
      ≡ (admits put (service_attributes sizes) "enabled" && is_on (disable "enabled")))
    × (contains (Dict.keys (body disable Backend.set_fields)) "enabled"
        ≡ (admits put (backend_attributes sizes) "enabled" && is_on (disable "enabled")))
    × (contains (Dict.keys (body disable Binding.set_fields)) "enabled"
        ≡ (admits put (binding_attributes sizes) "enabled" && is_on (disable "enabled")))
    × (contains (Dict.keys (body disable create_body_fields)) "enabled"
        ≡ (admits post (service_attributes sizes) "enabled" && is_on (disable "enabled")))
    × (contains (Dict.keys (body disable Backend.create_fields)) "enabled"
        ≡ (admits post (backend_attributes sizes) "enabled" && is_on (disable "enabled")))
    × (contains (Dict.keys (body disable Binding.create_fields)) "enabled"
        ≡ (admits post (binding_attributes sizes) "enabled" && is_on (disable "enabled")))
bodies_admitted_example = bodies_admitted sizes disable "enabled"
