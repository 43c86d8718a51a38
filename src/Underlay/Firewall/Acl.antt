-- ===== src/Underlay/Firewall/Acl.antt =====
-- What the ACL of a network holds after a refresh, and after one that fails midway.
use neutron_local_services_p.Base.{
  String, ◌≡◌, refl, sym, ap, ◌∙◌, Bool, true, false, ◌⊎◌, none, some, List, [], ◌∷◌, ◌++◌,
  Bool-cases, inl, inr, contains, contains-dedup, string_eq, nat_eq, arith, subst,
}
use mathlib.Core.List.{append-nil}
use neutron_local_services_p.Base.Text.{decimal}
use neutron_local_services_p.Base.Sorting.{contains-sort}
use neutron_local_services_p.Base.Orders.{text_order, nat_order, pair_order}
use neutron_local_services_p.Records.{AttachedService}
use neutron_local_services_p.Underlay.Names.{per_net_chain_name}
use neutron_local_services_p.Underlay.Endpoints.{Endpoint, backend_endpoints}
use neutron_local_services_p.Underlay.Firewall.{
  Kernel, ◌>>>◌, iptables, drop_rule, accept_rule, sorted_set, endpoint_eq, ensure_chain,
  append_accepts, refill, reconcile_destination_acl,
}

-- What iptables documents of `-A` and `-F` in the root namespace: the rules of a chain of the
-- filter table after a call that returns, and after one that fails.
pub record IsIptables (K : Kernel) (rules : String → K.State → List (List String)) : Type 0 where
  pub appended :
      (chain : String) (args : List String) (s : K.State)
      → (K.run none (iptables "filter" "-A" chain args) s).0 ≡ true
      → rules chain (K.run none (iptables "filter" "-A" chain args) s).1
        ≡ rules chain s ++ args ∷ []
  pub not_appended :
      (chain : String) (args : List String) (s : K.State)
      → (K.run none (iptables "filter" "-A" chain args) s).0 ≡ false
      → rules chain (K.run none (iptables "filter" "-A" chain args) s).1 ≡ rules chain s
  pub flushed :
      (chain : String) (s : K.State)
      → (K.run none (iptables "filter" "-F" chain []) s).0 ≡ true
      → rules chain (K.run none (iptables "filter" "-F" chain []) s).1 ≡ []

-- The arguments that accept new connections to one endpoint, those that drop everything, and the
-- accepting ones of several endpoints.
abbrev pub accepting : Endpoint → List String
accepting (proto, (addr, port)) =
    "-d"
    ∷ addr
    ∷ "-p"
    ∷ proto
    ∷ "--dport"
    ∷ decimal port
    ∷ "-m"
    ∷ "conntrack"
    ∷ "--ctstate"
    ∷ "NEW"
    ∷ "-j"
    ∷ "ACCEPT"
    ∷ []

abbrev pub dropping : List String
dropping = "-j" ∷ "DROP" ∷ []

abbrev pub accept_rules : List Endpoint → List (List String)
accept_rules [] = []
accept_rules (e ∷ endpoints) = accepting e ∷ accept_rules endpoints

-- `es` is the beginning of `endpoints`, but not all of it.
abbrev pub IsBeginning : List Endpoint → List Endpoint → Type 0
IsBeginning es endpoints = (e : Endpoint) × (rest : List Endpoint) × (endpoints ≡ es ++ e ∷ rest)

-- An endpoint is in the sorted set exactly if it is in the list.
pub contains-sorted_set :
    (endpoints : List Endpoint) (e : Endpoint)
    → contains ⦃e = endpoint_eq⦄ (sorted_set endpoints) e ≡ contains ⦃e = endpoint_eq⦄ endpoints e
unfolding sorted_set
contains-sorted_set endpoints e =
    contains-sort ⦃e = endpoint_eq⦄ (pair_order text_order (pair_order text_order nat_order)) e _
    ∙ contains-dedup ⦃e = endpoint_eq⦄ endpoints e

module _ {S : Type 0} (r : Bool × S) (next : S → Bool × S) where
  after_return : r.0 ≡ true → (r >>> next) ≡ next r.1
  after_return h = ground arith

  after_raise : r.0 ≡ false → (r >>> next) ≡ (false, r.1)
  after_raise h = ground arith

module _ (K : Kernel) (rules : String → K.State → List (List String)) (k : IsIptables K rules)
    (chain : String) where
  module _ (base : List (List String)) where
    -- All rules are there, or those before the first one that failed.
    abbrev Filled : List Endpoint → Bool × K.State → Type 0
    Filled endpoints r =
        ((r.0 ≡ true) × (rules chain r.1 ≡ base ++ accept_rules endpoints))
        ⊎ ((r.0 ≡ false)
            × ((es : List Endpoint) × IsBeginning es endpoints
                × (rules chain r.1 ≡ base ++ accept_rules es)))

  append_assoc : (xs ys zs : List (List String)) → (xs ++ ys) ++ zs ≡ xs ++ (ys ++ zs)
  append_assoc [] ys zs = refl
  append_assoc (x ∷ xs) ys zs = ap (◌∷◌ x) (append_assoc xs ys zs)

  cons_Filled :
      (base : List (List String)) (e : Endpoint) (endpoints : List Endpoint) (r : Bool × K.State)
      → Filled (base ++ accept_rule e ∷ []) endpoints r
      → Filled base (e ∷ endpoints) r
  unfolding accept_rule
  cons_Filled base e endpoints r (inl (h, p)) =
      inl (h, p ∙ append_assoc base (accept_rule e ∷ []) _)
  cons_Filled base e endpoints r (inr (h, (es, (f, rest, q), p))) =
      inr (h, (e ∷ es, (f, rest, ap (◌∷◌ e) q), p ∙ append_assoc base (accept_rule e ∷ []) _))

  append_accepts-Filled :
      (base : List (List String)) (endpoints : List Endpoint) (s : K.State)
      → rules chain s ≡ base
      → Filled base endpoints (append_accepts K chain endpoints s)
  unfolding append_accepts accept_rule
  append_accepts-Filled base [] s h = inl (refl, h ∙ sym (append-nil base))
  append_accepts-Filled base (e ∷ endpoints) s h =
      let r : Bool × K.State = K.run none (iptables "filter" "-A" chain (accept_rule e)) s in
      elim (Bool-cases r.0) [
        | inl t ↦
            subst (Filled base (e ∷ endpoints))
              (sym (after_return r (append_accepts K chain endpoints) t))
              (cons_Filled base e endpoints _ (
                append_accepts-Filled (base ++ accept_rule e ∷ []) endpoints r.1
                  (k.appended chain (accept_rule e) s t ∙ ap (λ b. b ++ accept_rule e ∷ []) h)))
        | inr f ↦
            subst (Filled base (e ∷ endpoints))
              (sym (after_raise r (append_accepts K chain endpoints) f))
              (inr (
                refl,
                (
                  [],
                  (e, endpoints, refl),
                  k.not_appended chain (accept_rule e) s f ∙ h ∙ sym (append-nil base),
                ),
              ))
      ]

  -- The chain is complete and closed by the default DROP, or the call raised and the chain holds
  -- some of the rules and no default DROP.
  abbrev pub IsRefilled : List Endpoint → Bool × K.State → Type 0
  IsRefilled endpoints r =
      ((r.0 ≡ true) × (rules chain r.1 ≡ accept_rules endpoints ++ dropping ∷ []))
      ⊎ ((r.0 ≡ false) × ((es : List Endpoint) × (rules chain r.1 ≡ accept_rules es)))

  closed :
      (endpoints : List Endpoint) (s : K.State)
      → rules chain s ≡ accept_rules endpoints
      → IsRefilled endpoints (K.run none (iptables "filter" "-A" chain drop_rule) s)
  closed endpoints s p =
      elim (Bool-cases (K.run none (iptables "filter" "-A" chain drop_rule) s).0) [
        | inl t ↦ inl (t, k.appended chain drop_rule s t ∙ ap (λ b. b ++ drop_rule ∷ []) p)
        | inr f ↦ inr (f, (endpoints, k.not_appended chain drop_rule s f ∙ p))
      ]

  close :
      (endpoints : List Endpoint) (r : Bool × K.State)
      → Filled [] endpoints r
      → IsRefilled endpoints (r >>> K.run none (iptables "filter" "-A" chain drop_rule))
  close endpoints r (inr (f, (es, b, p))) =
      subst (IsRefilled endpoints)
        (sym (after_raise r (K.run none (iptables "filter" "-A" chain drop_rule)) f))
        (inr (refl, (es, p)))
  close endpoints r (inl (t, p)) =
      subst (IsRefilled endpoints)
        (sym (after_return r (K.run none (iptables "filter" "-A" chain drop_rule)) t))
        (closed endpoints r.1 p)

  refill-IsRefilled :
      (endpoints : List Endpoint) (s : K.State)
      → (K.run none (iptables "filter" "-F" chain []) s).0 ≡ true
      → IsRefilled endpoints (refill K chain endpoints s)
  unfolding refill
  refill-IsRefilled endpoints s t =
      let r : Bool × K.State = K.run none (iptables "filter" "-F" chain []) s in
      let filled : Filled [] endpoints (append_accepts K chain endpoints r.1) =
        append_accepts-Filled [] endpoints r.1 (k.flushed chain s t) in
      close endpoints (r >>> append_accepts K chain endpoints) (
        subst (Filled [] endpoints) (sym (after_return r (append_accepts K chain endpoints) t))
          filled)

-- Let the chain be there after `_ensure_chain`, and the flush return. If the call returns, the chain
-- holds one accept rule for each endpoint of the enabled backends, sorted, and then the default DROP.
-- If it raises, because iptables refuses a rule, the chain holds only accept rules: no default DROP.
pub reconcile_destination_acl-IsRefilled :
    (K : Kernel) (rules : String → K.State → List (List String)) (k : IsIptables K rules)
    (network_id : String) (services : List AttachedService) (endpoints : List Endpoint)
    (s : K.State)
    → backend_endpoints services ≡ some endpoints
    → (ensure_chain K none "filter" (per_net_chain_name network_id) s).0 ≡ true
    → (K.run none
        (iptables "filter" "-F" (per_net_chain_name network_id) [])
        (ensure_chain K none "filter" (per_net_chain_name network_id) s).1).0
      ≡ true
    → IsRefilled K rules k
        (per_net_chain_name network_id)
        (sorted_set endpoints)
        (reconcile_destination_acl K network_id services s)
unfolding reconcile_destination_acl
reconcile_destination_acl-IsRefilled K rules k network_id services endpoints s b e t =
    let chain = per_net_chain_name network_id in
    let r : Bool × K.State = ensure_chain K none "filter" chain s in
    let run : reconcile_destination_acl K network_id services s
        ≡ refill K chain (sorted_set endpoints) r.1 =
      ground arith in
    subst (IsRefilled K rules k chain (sorted_set endpoints)) (sym run)
      (refill-IsRefilled K rules k chain (sorted_set endpoints) r.1 t)
