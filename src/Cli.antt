-- ===== src/Cli.antt =====
-- cli/: the `openstack local-service…` commands. Client is cli/_client.py, Format cli/_format.py, and
-- Service, Backend and Binding the commands of cli/osc. Names and Deletions are about what they do.
pub mod Client
pub mod Format
pub mod Service
pub mod Backend
pub mod Binding
pub mod Bodies
pub mod Arguments
pub mod Names
pub mod Deletions
use neutron_local_services_p.Base.{
  ℕ, zero, suc, String, ◌<>◌, Bool, true, false, Option, none, some, List, [], ◌∷◌, ◌++◌,
  if◌then◌else◌, length,
}
use neutron_local_services_p.Base.Text.{decimal, join}
use neutron_local_services_p.Base.Dict.{Dict}

-- A value in the JSON that is sent or comes back. A dict or a list in it stands for the text that
-- `json.dumps` gives of it.
pub data Value : Type 0 where
  null : Value
  text nested : String → Value
  number : ℕ → Value
  flag : Bool → Value

abbrev pub Obj : Type 0
Obj = Dict String Value

-- What argparse gives: `none` where an option was not on the command line.
abbrev pub Args : Type 0
Args = String → Option Value

-- `_body`, which the three modules share.
unfoldable pub body : Args → List String → Obj
body args [] = []
body args (field ∷ fields) =
    let rest = body args fields in
    elim (args field) [ none ↦ rest | some value ↦ (field, value) ∷ rest ]

-- How a call ends: `NotFound`, `LocalServicesClientError`, an exception of the session or of
-- `raise_for_status`, or a `KeyError` or an answer that is not JSON.
pub data Failure : Type 0 where
  not_found matches_many : Failure
  http_error bad_answer : Failure

pub data Outcome {ℓ} (A : Type ℓ) : Type ℓ where
  done : A → Outcome A
  failed : Failure → Outcome A

-- How a command ends: it returns, the exception of a call passes through, or a `SystemExit`: with a
-- usage message, or with the references whose deletion failed.
pub data Exit {ℓ} (A : Type ℓ) : Type ℓ where
  returned : A → Exit A
  raised : Failure → Exit A
  usage : Exit A
  not_deleted : List String → Exit A

abbrev pub exit_of {ℓ} : {A : Type ℓ} → Outcome A → Exit A
exit_of (done a) = returned a
exit_of (failed e) = raised e

-- The end of a command that deletes: `SystemExit` if there were errors.
abbrev pub report : List String → Exit (Unit {0})
report [] = returned tt
report (e ∷ errors) = not_deleted (e ∷ errors)

-- The loop of such a command over its references; `attempt` is what it tries for one.
abbrev pub noted : String → Outcome (Unit {0}) → List String → List String
noted ref (done _) errors = errors
noted ref (failed e) errors = errors ++ ref ∷ []

unfoldable pub delete_each {ℓ} :
    {State : Type ℓ}
    → (String → State → Outcome (Unit {0}) × State)
    → List String
    → List String
    → State
    → Exit (Unit {0}) × State
delete_each attempt [] errors s = (report errors, s)
delete_each attempt (ref ∷ refs) errors s =
    let (outcome, s') = attempt ref s in delete_each attempt refs (noted ref outcome errors) s'

-- `existing['id']`
abbrev pub id_in : Option Value → Outcome String
id_in (some (text id)) = done id
id_in none = failed bad_answer
id_in (some null) = failed bad_answer
id_in (some (nested t)) = failed bad_answer
id_in (some (number n)) = failed bad_answer
id_in (some (flag b)) = failed bad_answer

-- What a command shows of an answer.
abbrev pub shown_as {ℓ κ} : {A : Type ℓ} {Shown : Type κ} → (A → Shown) → Outcome A → Exit Shown
shown_as show (done a) = returned (show a)
shown_as show (failed e) = raised e
