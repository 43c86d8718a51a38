-- ===== src/Tests/Proxies.antt =====
-- The proxy plugin at concrete services.
use neutron_local_services_p.Base.Dict.{insert, lookup}
use neutron_local_services_p.Base.{
  ℕ, ◌+◌, ◌++◌, ◌≡◌, refl, true, false, none, some, List, [], ◌∷◌, string_eq, All, inl, inr,
}
use neutron_local_services_p.Records.{AttachedService}
use neutron_local_services_p.Proxy.Socket.{received, eof, frame, read_answer}
use neutron_local_services_p.Proxy.Socket.Framing.{read_answer-frame}
use neutron_local_services_p.Proxy.Secrets.{
  nonce_path, read_or_create_hmac_key, read_or_create_admin_token, ensure_nonce,
}
use neutron_local_services_p.Proxy.{Nonce, Entry, entries_for}
use neutron_local_services_p.Proxy.Entries.{HasTargets, entries_for-HasTargets}
use neutron_local_services_p.Proxy.Catalog.{State, current, set_slice, all_entries}
use neutron_local_services_p.Proxy.Catalog.Interleaved.{System, Steps, idle, lost_update}
use neutron_local_services_p.Tests.{service, backend}

abbrev web : AttachedService
web = record {
  service = service "s1" "opt-in" "169.254.169.5";
  backends = backend "e1" "s1" true ∷ backend "e2" "s1" false ∷ [];
}

abbrev nonce : Nonce
nonce = record { path = "nonces/net-1"; contents = "abc" }

entries_for-HasTargets_example : All HasTargets (entries_for "net-1" nonce (web ∷ []))
entries_for-HasTargets_example =
    entries_for-HasTargets "net-1" nonce (web ∷ []) ((inr (refl, refl), (inl refl, tt)), tt)

abbrev web_entries : List Entry
web_entries = entries_for "net-1" nonce (web ∷ [])

abbrev empty : State
empty = record { slices = []; generation = none; file = none }

abbrev quiet : System
quiet = record { shared = empty; pc = λ i. idle }

lost_update_example :
    (t : System) × Steps quiet t
    × (t.pc "net-1" ≡ idle)
    × (t.pc "net-2" ≡ idle)
    × (t.shared.slices ≡ (set_slice "net-1" web_entries (set_slice "net-2" [] empty)).slices)
    × (t.shared.file
        ≡ some (record {
          generation = current empty + 2;
          entries = all_entries (set_slice "net-2" [] empty).slices;
        }))
unfolding string_eq
lost_update_example = lost_update quiet "net-1" "net-2" web_entries [] refl refl refl

nonce_drawn : (ensure_nonce "ab12" "net-1" []).0 ≡ some (nonce_path "net-1", "ab12")
unfolding ensure_nonce lookup
nonce_drawn = refl

key_kept :
    read_or_create_hmac_key "k2" (read_or_create_hmac_key "k1" []).1
    ≡ ("k1", (read_or_create_hmac_key "k1" []).1)
unfolding read_or_create_hmac_key lookup insert string_eq
key_kept = refl

token_kept :
    read_or_create_admin_token "t2" (read_or_create_admin_token "t1" []).1
    ≡ ("t1", (read_or_create_admin_token "t1" []).1)
unfolding read_or_create_admin_token lookup insert string_eq
token_kept = refl

abbrev answer : List ℕ
answer = 123 ∷ 125 ∷ []

answer_framed : frame answer ≡ some (0 ∷ 0 ∷ 0 ∷ 2 ∷ 123 ∷ 125 ∷ [])
unfolding frame
answer_framed = refl

one_by_one :
    read_answer (λ _. 0) (λ _. 0) (0 ∷ 0 ∷ 0 ∷ 2 ∷ 123 ∷ 125 ∷ 7 ∷ []) ≡ received answer (7 ∷ [])
unfolding read_answer
one_by_one = refl

cut_short : read_answer (λ _. 0) (λ _. 0) (0 ∷ 0 ∷ 0 ∷ 2 ∷ 123 ∷ []) ≡ eof
unfolding read_answer
cut_short = refl

read_answer-frame_example :
    read_answer (λ n. n) (λ _. 1) ((0 ∷ 0 ∷ 0 ∷ 2 ∷ 123 ∷ 125 ∷ []) ++ 7 ∷ [])
    ≡ received answer (7 ∷ [])
read_answer-frame_example =
    read_answer-frame (λ n. n) (λ _. 1) answer (0 ∷ 0 ∷ 0 ∷ 2 ∷ 123 ∷ 125 ∷ []) (7 ∷ [])
      answer_framed
