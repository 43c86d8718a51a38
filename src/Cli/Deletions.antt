-- ===== src/Cli/Deletions.antt =====
-- What `local-service-backend delete` leaves of the tables, over a server that answers from them.
use neutron_local_services_p.Base.{
  String, ◌≡◌, refl, sym, ap, ◌∙◌, Bool, true, false, not, ◌&&◌, ◌||◌, none, some, List, [], ◌∷◌,
  ◌++◌, ◌==◌, string_eq, nat_eq, if◌then◌else◌, contains, filter, any, find?, Option-cases,
  Bool-cases, inl, inr, arith,
}
use mathlib.Core.List.{append_assoc, append-nil}
use neutron_local_services_p.Records.{Backend}
use neutron_local_services_p.Errors.{Result, ok, err}
use neutron_local_services_p.Db.Rows.{remove}
use neutron_local_services_p.Db.Tables.{Tables, get_backend}
use neutron_local_services_p.Db.Backends.{delete_local_service_backend}
use neutron_local_services_p.Cli.{Outcome, report, noted, delete_each}
use neutron_local_services_p.Cli.Client.{Session, Reply, raised, reply, url, delete, deleted}
use neutron_local_services_p.Cli.Backend.{collection, delete_backends}

-- The answer to a refused request: an exception of the session, or a 404 that it returns.
abbrev pub refusal : Bool → Reply
refusal raises = if raises then raised else reply 404 none

abbrev pub answer_to : Bool → Result Tables → Reply
answer_to raises (ok t) = reply 204 none
answer_to raises (err e) = refusal raises

abbrev pub committed : Tables → Result Tables → Tables
committed t (ok t') = t'
committed t (err e) = t

-- Neutron's API in front of the plugin: a DELETE of a backend's URL is the plugin's method.
pub record ServesBackends (S : Session) (endpoint : String) : Type 0 where
  pub tables : S.State → Tables
  pub raises : Bool
  pub answered :
      (id : String) (s : S.State)
      → (S.delete (url S endpoint collection (some id) []) s).0
        ≡ answer_to raises (delete_local_service_backend id (tables s))
  pub stored :
      (id : String) (s : S.State)
      → tables (S.delete (url S endpoint collection (some id) []) s).1
        ≡ committed (tables s) (delete_local_service_backend id (tables s))

abbrev pub has_id : String → Backend → Bool
has_id id b = b.id == id

abbrev pub spared : List String → Backend → Bool
spared gone b = not (contains gone b.id)

-- The ids that name no backend of the table, or one that an earlier id has named.
abbrev pub missing : List Backend → List String → List String → List String
missing backends gone [] = []
missing backends gone (id ∷ ids) =
    let rest = missing backends (id ∷ gone) ids in
    if any (has_id id) backends && not (contains gone id) then rest else id ∷ rest

find?-any {ℓ} : {A : Type ℓ} (p : A → Bool) (xs : List A) → find? p xs ≡ none → any p xs ≡ false
unfolding find? any
find?-any p [] h = refl
find?-any p (x ∷ xs) h = ground (arith, find?-any p xs)

find?-any_of_some {ℓ} :
    {A : Type ℓ} (p : A → Bool) (xs : List A) (a : A) → find? p xs ≡ some a → any p xs ≡ true
unfolding find? any
find?-any_of_some p [] a h = absurd (ground arith)
find?-any_of_some p (x ∷ xs) a h = ground (arith, find?-any_of_some p xs a)

any-spared :
    (gone : List String) (id : String) (xs : List Backend)
    → any (has_id id) (filter (spared gone) xs) ≡ (any (has_id id) xs && not (contains gone id))
unfolding filter any
any-spared gone id [] = refl
any-spared gone id (x ∷ xs) = elim (string_eq.dec x.id id) [
  | yes p ↦ ground (arith, any-spared gone id xs, ap (contains gone) p)
  | no p ↦ ground (arith, any-spared gone id xs)
]

remove-spared :
    (gone : List String) (id : String) (xs : List Backend)
    → remove (λ b. b.id) id (filter (spared gone) xs) ≡ filter (spared (id ∷ gone)) xs
unfolding filter remove
remove-spared gone id [] = refl
remove-spared gone id (x ∷ xs) = ground (arith, remove-spared gone id xs)

filter-spared_nil : (xs : List Backend) → filter (spared []) xs ≡ xs
unfolding filter
filter-spared_nil [] = refl
filter-spared_nil (x ∷ xs) = ap (λ ys. x ∷ ys) (filter-spared_nil xs)

remove_absent :
    (id : String) (xs : List Backend) → any (has_id id) xs ≡ false → remove (λ b. b.id) id xs ≡ xs
unfolding remove filter any
remove_absent id [] h = refl
remove_absent id (x ∷ xs) h = ground (arith, remove_absent id xs)

-- The ids that are used up after a run.
abbrev gone_after : List String → List String → List String
gone_after gone [] = gone
gone_after gone (id ∷ ids) = gone_after (id ∷ gone) ids

contains-gone_after :
    (gone ids : List String) (a : String)
    → contains (gone_after gone ids) a ≡ (contains ids a || contains gone a)
contains-gone_after gone [] a = refl
contains-gone_after gone (id ∷ ids) a = ground (arith, contains-gone_after (id ∷ gone) ids a)

filter-gone_after :
    (ids : List String) (xs : List Backend)
    → filter (spared (gone_after [] ids)) xs ≡ filter (spared ids) xs
unfolding filter
filter-gone_after ids [] = refl
filter-gone_after ids (x ∷ xs) =
    ground (arith, filter-gone_after ids xs, contains-gone_after [] ids x.id)

abbrev with_backends : List Backend → Tables → Tables
with_backends backends t = record t { backends = backends }

module _ (S : Session) (endpoint : String) (api : ServesBackends S endpoint) where
  abbrev attempt : String → S.State → Outcome (Unit {0}) × S.State
  attempt = delete S endpoint collection

  refused_fails :
      (e : List String) (id : String)
      → noted id (deleted S endpoint (refusal api.raises)) e ≡ e ++ id ∷ []
  unfolding nat_eq
  refused_fails e id = elim (Bool-cases api.raises) [ inl h ↦ rw h refl | inr h ↦ rw h refl ]

  -- What one attempt notes, and what it leaves.
  noted_missing :
      (id : String) (errors : List String) (s : S.State)
      → get_backend (api.tables s) id ≡ none
      → (noted id (attempt id s).0 errors ≡ errors ++ id ∷ [])
        × (api.tables (attempt id s).1 ≡ api.tables s)
  unfolding delete delete_local_service_backend
  noted_missing id errors s e =
      (rw (api.answered id s) (rw e (refused_fails errors id)), api.stored id s ∙ rw e refl)

  noted_there :
      (id : String) (b : Backend) (errors : List String) (s : S.State)
      → get_backend (api.tables s) id ≡ some b
      → (noted id (attempt id s).0 errors ≡ errors)
        × (api.tables (attempt id s).1
            ≡ with_backends (remove (λ r. r.id) id (api.tables s).backends) (api.tables s))
  unfolding delete delete_local_service_backend nat_eq
  noted_there id b errors s e = (rw (api.answered id s) (rw e refl), api.stored id s ∙ rw e refl)

  -- What a run over the ids comes to, where the ids `gone` of the table `all` are gone.
  abbrev Deletes : List String → List String → List String → S.State → List Backend → Type 0
  Deletes ids gone errors s all =
      ((delete_each attempt ids errors s).0 ≡ report (errors ++ missing all gone ids))
      × (api.tables (delete_each attempt ids errors s).1
          ≡ with_backends (filter (spared (gone_after gone ids)) all) (api.tables s))

  present :
      (gone : List String) (id : String) (s : S.State) (all : List Backend)
      → (api.tables s).backends ≡ filter (spared gone) all
      → any (has_id id) (api.tables s).backends ≡ (any (has_id id) all && not (contains gone id))
  present gone id s all h = ap (any (has_id id)) h ∙ any-spared gone id all

  delete_missing :
      (id : String) (ids gone errors : List String) (s : S.State) (all : List Backend)
      → (api.tables s).backends ≡ filter (spared gone) all
      → get_backend (api.tables s) id ≡ none
      → Deletes ids (id ∷ gone) (noted id (attempt id s).0 errors) (attempt id s).1 all
      → Deletes (id ∷ ids) gone errors s all
  unfolding delete_each get_backend
  delete_missing id ids gone errors s all h e (r, t) =
      let (n, kept) = noted_missing id errors s e in
      let absent =
        sym (present gone id s all h) ∙ find?-any (has_id id) (api.tables s).backends e in
      (
        r
            ∙ ap (λ es. report (es ++ missing all (id ∷ gone) ids)) n
            ∙ ap report (append_assoc errors (id ∷ []) (missing all (id ∷ gone) ids))
            ∙ ap (λ es. report (errors ++ es)) (rw absent refl),
        t ∙ ap (with_backends (filter (spared (gone_after (id ∷ gone) ids)) all)) kept,
      )

  delete_there :
      (id : String) (b : Backend) (ids gone errors : List String) (s : S.State) (all : List Backend)
      → (api.tables s).backends ≡ filter (spared gone) all
      → get_backend (api.tables s) id ≡ some b
      → Deletes ids (id ∷ gone) (noted id (attempt id s).0 errors) (attempt id s).1 all
      → Deletes (id ∷ ids) gone errors s all
  unfolding delete_each get_backend
  delete_there id b ids gone errors s all h e (r, t) =
      let (n, kept) = noted_there id b errors s e in
      let there =
        sym (present gone id s all h) ∙ find?-any_of_some (has_id id) (api.tables s).backends b e in
      (
        r
            ∙ ap (λ es. report (es ++ missing all (id ∷ gone) ids)) n
            ∙ ap (λ es. report (errors ++ es)) (rw there refl),
        t ∙ ap (with_backends (filter (spared (gone_after (id ∷ gone) ids)) all)) kept,
      )

  left_without :
      (id : String) (gone errors : List String) (s : S.State) (all : List Backend)
      → (api.tables s).backends ≡ filter (spared gone) all
      → (api.tables (attempt id s).1).backends ≡ filter (spared (id ∷ gone)) all
  unfolding get_backend
  left_without id gone errors s all h = elim (Option-cases (get_backend (api.tables s) id)) [
    | inl e ↦
        ap (λ t. t.backends) (noted_missing id errors s e).1
        ∙ sym (
            remove_absent id (api.tables s).backends
              (find?-any (has_id id) (api.tables s).backends e))
        ∙ ap (remove (λ r. r.id) id) h
        ∙ remove-spared gone id all
    | inr (b, e) ↦
        ap (λ t. t.backends) (noted_there id b errors s e).1
        ∙ ap (remove (λ r. r.id) id) h
        ∙ remove-spared gone id all
  ]

  deletions :
      (ids gone errors : List String) (s : S.State) (all : List Backend)
      → (api.tables s).backends ≡ filter (spared gone) all
      → Deletes ids gone errors s all
  unfolding delete_each
  deletions [] gone errors s all h =
      (ap report (sym (append-nil errors)), ap (λ b. with_backends b (api.tables s)) h)
  deletions (id ∷ ids) gone errors s all h =
      let rest =
        deletions ids (id ∷ gone) (noted id (attempt id s).0 errors) (attempt id s).1 all
          (left_without id gone errors s all h) in
      elim (Option-cases (get_backend (api.tables s) id)) [
        | inl e ↦ delete_missing id ids gone errors s all h e rest
        | inr (b, e) ↦ delete_there id b ids gone errors s all h e rest
      ]

  -- Over a server that answers from the tables, `local-service-backend delete` removes every backend
  -- that an id on the command line names and touches nothing else, goes on after a failure, and
  -- reports exactly the ids, in their order, that name no backend or repeat an earlier id, whether
  -- the session raises on a 404 or returns it.
  pub delete_backends-removes :
      (ids : List String) (s : S.State)
      → ((delete_backends S endpoint ids s).0 ≡ report (missing (api.tables s).backends [] ids))
        × (api.tables (delete_backends S endpoint ids s).1
            ≡ record (api.tables s) { backends = filter (spared ids) (api.tables s).backends })
  unfolding delete_backends
  delete_backends-removes ids s =
      let (r, t) =
        deletions ids [] [] s (api.tables s).backends
          (sym (filter-spared_nil (api.tables s).backends)) in
      (
        r,
        t
            ∙ ap (λ b. with_backends b (api.tables s))
                (filter-gone_after ids (api.tables s).backends),
      )
