-- ===== src/Cli/Client.antt =====
-- cli/_client.py: the REST client, over a session of keystoneauth.
use neutron_local_services_p.Base.{
  ℕ, String, ◌<>◌, Bool, true, false, ◌&&◌, Option, none, some, List, [], ◌∷◌, ◌==◌, nat_eq,
  if◌then◌else◌, leb, filter,
}
use neutron_local_services_p.Cli.{
  Value, null, text, nested, number, flag, Obj, Outcome, done, failed, not_found, matches_many,
  http_error, bad_answer,
}

-- The JSON of an answer: the object and the list under a key.
pub record Envelope : Type 0 where
  pub object : String → Option Obj
  pub listing : String → Option (List Obj)

-- The session raises, or gives a status, with JSON or without.
pub data Reply : Type 0 where
  raised : Reply
  reply : ℕ → Option Envelope → Reply

-- `post` and `put` are given the resource and the body, as `json={resource: body}`.
pub record Session : Type 1 where
  pub State : Type 0
  pub get : String → State → Reply × State
  pub post : String → String → Obj → State → Reply × State
  pub put : String → String → Obj → State → Reply × State
  pub delete : String → State → Reply × State
  -- `urlparse.urlencode`
  pub urlencode : Obj → String

abbrev pub api_prefix : String
api_prefix = "/v2.0"

-- `v not in (None, '')`
abbrev pub is_filter : String × Value → Bool
is_filter (k, null) = false
is_filter (k, text String.[]) = false
is_filter (k, text (String.◌∷◌ c s)) = true
is_filter (k, nested t) = true
is_filter (k, number n) = true
is_filter (k, flag b) = true

-- `raise_for_status`
abbrev pub is_error : ℕ → Bool
is_error status = leb 400 status && leb status 599

abbrev pub with_query : (Obj → String) → String → Obj → String
with_query urlencode path [] = path
with_query urlencode path (q ∷ qs) = path <> ("?" <> urlencode (q ∷ qs))

abbrev pub object_in : String → Option Envelope → Outcome Obj
object_in resource none = failed bad_answer
object_in resource (some e) = elim (e.object resource) [
  | none ↦ failed bad_answer
  | some o ↦ done o
]

abbrev pub list_in : String → Option Envelope → Outcome (List Obj)
list_in collection none = failed bad_answer
list_in collection (some e) = elim (e.listing collection) [ none ↦ done [] | some l ↦ done l ]

module _ (S : Session) (endpoint : String) where
  unfoldable pub url : String → Option String → Obj → String
  url collection none filters =
      with_query S.urlencode (endpoint <> (api_prefix <> ("/" <> collection)))
        (filter is_filter filters)
  url collection (some id) filters =
      with_query S.urlencode (endpoint <> (api_prefix <> ("/" <> (collection <> ("/" <> id)))))
        (filter is_filter filters)

  -- With the answer of `list` and of `create`.
  abbrev pub list_of : String → Reply → Outcome (List Obj)
  list_of collection raised = failed http_error
  list_of collection (reply status e) =
      if is_error status then failed http_error else list_in collection e

  abbrev pub created : String → Reply → Outcome Obj
  created resource raised = failed http_error
  created resource (reply status e) =
      if is_error status then failed http_error else object_in resource e

  -- With the answer of `show` and of `update`, and of `delete`.
  abbrev pub found : String → Reply → Outcome Obj
  found resource raised = failed http_error
  found resource (reply status e) =
      if status == 404
      then failed not_found
      else if is_error status
      then failed http_error
      else object_in resource e

  abbrev pub deleted : Reply → Outcome (Unit {0})
  deleted raised = failed http_error
  deleted (reply status e) =
      if status == 404
      then failed not_found
      else if is_error status
      then failed http_error
      else done tt

  unfoldable pub list : String → Obj → S.State → Outcome (List Obj) × S.State
  unfolding url
  list collection filters s =
      let (answer, s') = S.get (url collection none filters) s in (list_of collection answer, s')

  unfoldable pub show : String → String → String → S.State → Outcome Obj × S.State
  unfolding url
  show collection resource id s =
      let (answer, s') = S.get (url collection (some id) []) s in (found resource answer, s')

  unfoldable pub create : String → String → Obj → S.State → Outcome Obj × S.State
  unfolding url
  create collection resource body s =
      let (answer, s') = S.post (url collection none []) resource body s in
      (created resource answer, s')

  unfoldable pub update : String → String → String → Obj → S.State → Outcome Obj × S.State
  unfolding url
  update collection resource id body s =
      let (answer, s') = S.put (url collection (some id) []) resource body s in
      (found resource answer, s')

  unfoldable pub delete : String → String → S.State → Outcome (Unit {0}) × S.State
  unfolding url
  delete collection id s =
      let (answer, s') = S.delete (url collection (some id) []) s in (deleted answer, s')

  -- `find_by_name_or_id` once the matches are listed.
  abbrev pub only : List Obj → Outcome Obj
  only [] = failed not_found
  only (o ∷ []) = done o
  only (o ∷ p ∷ rest) = failed matches_many

  abbrev pub only_of : Outcome (List Obj) × S.State → Outcome Obj × S.State
  only_of (failed e, s) = (failed e, s)
  only_of (done matches, s) = (only matches, s)

  -- After the direct GET.
  abbrev pub or_by_name : String → String → Outcome Obj × S.State → Outcome Obj × S.State
  or_by_name collection ref (done o, s) = (done o, s)
  or_by_name collection ref (failed not_found, s) =
      only_of (list collection (("name", text ref) ∷ []) s)
  or_by_name collection ref (failed matches_many, s) = (failed matches_many, s)
  or_by_name collection ref (failed http_error, s) = (failed http_error, s)
  or_by_name collection ref (failed bad_answer, s) = (failed bad_answer, s)

  unfoldable pub find_by_name_or_id : String → String → String → S.State → Outcome Obj × S.State
  unfolding show list
  find_by_name_or_id collection resource ref s =
      or_by_name collection ref (show collection resource ref s)
