-- ===== src/Cli/Names.antt =====
-- Which service a reference on the command line stands for, over a server that answers from the
-- tables, and what the commands do with it.
use neutron_local_services_p.Base.{
  String, ◌≡◌, refl, ap, ◌∙◌, Bool, true, false, Option, none, some, List, [], ◌∷◌, ◌==◌, string_eq,
  nat_eq, if◌then◌else◌, filter, text_is_true, Option-cases, Bool-cases, inl, inr, map,
}
use neutron_local_services_p.Records.{Service}
use neutron_local_services_p.Db.Tables.{Tables, get_service}
use neutron_local_services_p.Cli.{
  Outcome, done, failed, not_found, http_error, matches_many, raised, not_deleted, Obj, Args, text,
  delete_each,
}
use neutron_local_services_p.Cli.Client.{
  Session, Reply, reply, Envelope, url, list, show, found, only, only_of, or_by_name,
  find_by_name_or_id,
}
use neutron_local_services_p.Cli.Service.{
  collection, resource, show_service, set_service, delete_services,
}
use neutron_local_services_p.Cli.Deletions.{refusal}

-- An object, or a list, under its key.
abbrev pub one : Obj → Envelope
one o = record { object = λ key. if key == resource then some o else none; listing = λ key. none }

abbrev pub many : List Obj → Envelope
many os = record {
  object = λ key. none;
  listing = λ key. if key == collection then some os else none;
}

abbrev pub answer_for {ℓ} : {A : Type ℓ} → Bool → (A → Obj) → Option A → Reply
answer_for raises obj none = refusal raises
answer_for raises obj (some a) = reply 200 (some (one (obj a)))

abbrev pub named : String → Tables → List Service
named ref t = filter (λ svc. svc.name == ref) t.services

-- Neutron's API in front of the plugin: what a GET of a service, or of the services of a name, gives.
pub record ServesServices (S : Session) (endpoint : String) : Type 0 where
  pub tables : S.State → Tables
  pub raises : Bool
  pub obj : Service → Obj
  pub kept : (u : String) (s : S.State) → (S.get u s).1 ≡ s
  pub shown :
      (id : String) (s : S.State)
      → (S.get (url S endpoint collection (some id) []) s).0
        ≡ answer_for raises obj (get_service (tables s) id)
  pub listed :
      (name : String) (s : S.State)
      → text_is_true name ≡ true
      → (S.get (url S endpoint collection none (("name", text name) ∷ [])) s).0
        ≡ reply 200 (some (many (map obj (named name (tables s)))))

-- The service with the id, or else, if the session returns a 404, the only one of the name.
abbrev pub resolved {ℓ} : {A : Type ℓ} → Bool → (A → Obj) → Option A → List A → Outcome Obj
resolved raises obj (some a) same_name = done (obj a)
resolved raises obj none same_name = if raises then failed http_error else elim same_name [
  | [] ↦ failed not_found
  | a ∷ rest ↦ elim rest [ [] ↦ done (obj a) | b ∷ more ↦ failed matches_many ]
]

module _ (S : Session) (endpoint : String) (api : ServesServices S endpoint) where
  shown_lem :
      (ref : String) (s : S.State)
      → show S endpoint collection resource ref s ≡ (
        found S endpoint resource (answer_for api.raises api.obj (get_service (api.tables s) ref)),
        s,
      )
  unfolding show
  shown_lem ref s = rw (api.shown ref s, api.kept (url S endpoint collection (some ref) []) s) refl

  listed_lem :
      (ref : String) (s : S.State)
      → text_is_true ref ≡ true
      → list S endpoint collection (("name", text ref) ∷ []) s
        ≡ (done (map api.obj (named ref (api.tables s))), s)
  unfolding list string_eq nat_eq
  listed_lem ref s h =
      rw (api.listed ref s h, api.kept (url S endpoint collection none (("name", text ref) ∷ [])) s)
        refl

  only-map :
      (svcs : List Service) → only S endpoint (map api.obj svcs) ≡ resolved false api.obj none svcs
  only-map [] = refl
  only-map (a ∷ []) = refl
  only-map (a ∷ b ∷ rest) = refl

  -- Over a server that answers from the tables: the service that a nonempty reference stands for is
  -- the one with that id. If there is none, a session that returns the 404 gives the only service of
  -- that name, and an error if there is none or there are several; a session that raises on the 404
  -- gives an error whatever names there are.
  pub find_service :
      (ref : String) (s : S.State)
      → text_is_true ref ≡ true
      → find_by_name_or_id S endpoint collection resource ref s ≡ (
        resolved api.raises api.obj (get_service (api.tables s) ref) (named ref (api.tables s)),
        s,
      )
  unfolding find_by_name_or_id string_eq nat_eq
  find_service ref s h =
      ap (or_by_name S endpoint collection ref) (shown_lem ref s)
      ∙ elim (Option-cases (get_service (api.tables s) ref)) [
        | inr (svc, e) ↦ rw e refl
        | inl e ↦ elim (Bool-cases api.raises) [
          | inl r ↦ rw (e, r) refl
          | inr r ↦
              rw (e, r)
                (ap (only_of S endpoint) (listed_lem ref s h)
                  ∙ ap (λ o. (o, s)) (only-map (named ref (api.tables s))))
        ]
      ]

  -- If the session raises on a 404, then a nonempty reference that is no service's id makes the
  -- commands that show, change and delete services fail and send no change, also where there is
  -- exactly one service of that name.
  pub names_refused :
      (ref : String) (args : Args) (s : S.State)
      → text_is_true ref ≡ true
      → api.raises ≡ true
      → get_service (api.tables s) ref ≡ none
      → (show_service S endpoint ref s ≡ (raised http_error, s))
        × (set_service S endpoint ref args s ≡ (raised http_error, s))
        × (delete_services S endpoint (ref ∷ []) s ≡ (not_deleted (ref ∷ []), s))
  unfolding show_service set_service delete_services delete_each
  names_refused ref args s h r e =
      let missed : find_by_name_or_id S endpoint collection resource ref s
          ≡ (failed http_error, s) =
        find_service ref s h ∙ rw (r, e) refl in
      (rw missed refl, rw missed refl, rw missed refl)
