-- ===== src/Plugin/Reconcile/Taken.antt =====
-- The subnets that a core plugin lists after a refresh, if it takes the updates.
use neutron_local_services_p.Base.{
  String, ◌≡◌, refl, ap, ◌∙◌, true, Option, some, List, [], ◌∷◌, ◌==◌, ==_refl, not, ◌&&◌,
  string_eq, false, Bool, nat_eq, option_eq, if◌then◌else◌, Bool-cases, ◌⊎◌, inl, inr, arith,
}
use neutron_local_services_p.Records.{Service, Route, Subnet}
use neutron_local_services_p.Netaddr.{Netaddr}
use neutron_local_services_p.Errors.{ok}
use neutron_local_services_p.CorePlugin.{CorePlugin, OvnConstants}
use neutron_local_services_p.Localport.{find_port}
use neutron_local_services_p.HostRoutes.{routes_equal}
use neutron_local_services_p.HostRoutes.Handler.{routes_in}
use neutron_local_services_p.Plugin.Reconcile.{MechDriver, refresh_subnet, refresh_subnets}
use neutron_local_services_p.Plugin.Reconcile.Settled.{wanted, taken, all_taken, same_routes}

==_sym : (a b : Option String) → (a == b) ≡ (b == a)
==_sym a b = ground arith

-- A core plugin that takes the updates of a network's subnets: the subnet with the id reads back with
-- the routes, and no other subnet, no port, no network and no row of OVN changes.
abbrev pub with_routes : Option String → List Route → List Subnet → List Subnet
with_routes id routes [] = []
with_routes id routes (subnet ∷ subnets) =
    (if subnet.id == id then record subnet { host_routes = some routes } else subnet)
    ∷ with_routes id routes subnets

-- No subnet of the list has the id.
abbrev pub lacks_id : Option String → List Subnet → Bool
lacks_id id [] = true
lacks_id id (subnet ∷ subnets) = not (subnet.id == id) && lacks_id id subnets

abbrev pub ids_differ : List Subnet → Bool
ids_differ [] = true
ids_differ (subnet ∷ subnets) = lacks_id subnet.id subnets && ids_differ subnets

pub record TakesUpdates (C : CorePlugin) (D : MechDriver C.State) (network_id : String)
    : Type 0 where
  pub read_back :
      (s : C.State) (id : Option String) (routes : List Route) (subnets : List Subnet)
      → C.get_subnets s network_id ≡ ok subnets
      → C.get_subnets (C.update_subnet s id routes).1 network_id
        ≡ ok (with_routes id routes subnets)
  pub keeps_ports :
      (s : C.State) (id : Option String) (routes : List Route)
      → C.get_ports (C.update_subnet s id routes).1 ≡ C.get_ports s
  pub keeps_network :
      (s : C.State) (id : Option String) (routes : List Route)
      → C.get_network (C.update_subnet s id routes).1 network_id ≡ C.get_network s network_id
  pub keeps_rows :
      (s : C.State) (id : Option String) (routes : List Route)
      → D.lookup (C.update_subnet s id routes).1 ≡ D.lookup s

module _ (N : Netaddr) (O : OvnConstants) (C : CorePlugin) (D : MechDriver C.State)
    (network_id : String) (services : List Service) (lawful : TakesUpdates C D network_id) where
  -- A subnet of another family, one that has the routes already, and one that is written.
  write_cases :
      (s : C.State) (subnet : Subnet)
      → let ipv4 = subnet.ip_version == some 4 in
        let same =
          routes_equal (wanted N O C network_id services s subnet) (routes_in subnet.host_routes) in
        (ipv4 ≡ false) ⊎ ((ipv4 ≡ true) × (same ≡ true)) ⊎ ((ipv4 ≡ true) × (same ≡ false))
  write_cases s subnet =
      let same =
        routes_equal (wanted N O C network_id services s subnet) (routes_in subnet.host_routes) in
      elim (Bool-cases (subnet.ip_version == some 4)) [
        | inr e ↦ inl e
        | inl e ↦ elim (Bool-cases same) [ inl p ↦ inr (inl (e, p)) | inr p ↦ inr (inr (e, p)) ]
      ]

  -- What one refresh leaves of the subnets that Neutron lists.
  abbrev pub listed_after : C.State → Subnet → List Subnet → List Subnet
  listed_after s subnet subnets =
      let merged = wanted N O C network_id services s subnet in
      if not (subnet.ip_version == some 4)
      then subnets
      else if routes_equal merged (routes_in subnet.host_routes)
      then subnets
      else with_routes subnet.id merged subnets

  abbrev pub all_listed_after : C.State → List Subnet → List Subnet → List Subnet
  all_listed_after s [] subnets = subnets
  all_listed_after s (subnet ∷ todo) subnets =
      all_listed_after s todo (listed_after s subnet subnets)

  -- What a refresh of subnets keeps of the state.
  pub record IsKept (s s' : C.State) : Type 0 where
    pub ports : C.get_ports s' ≡ C.get_ports s
    pub network : C.get_network s' network_id ≡ C.get_network s network_id
    pub rows : D.lookup s' ≡ D.lookup s

  pub IsKept-refl : (s : C.State) → IsKept s s
  IsKept-refl s = record { ports = refl; network = refl; rows = refl }

  IsKept-trans : (a b c : C.State) → IsKept a b → IsKept b c → IsKept a c
  IsKept-trans a b c p q = record {
    ports = q.ports ∙ p.ports;
    network = q.network ∙ p.network;
    rows = q.rows ∙ p.rows;
  }

  pub same_port :
      (s s' : C.State) → IsKept s s' → find_port O C network_id s' ≡ find_port O C network_id s
  unfolding find_port
  same_port s s' k = rw k.ports refl

  refresh_subnet-IsKept :
      (s : C.State) (subnet : Subnet) → IsKept s (refresh_subnet N O C network_id services s subnet)
  refresh_subnet-IsKept s subnet = elim (write_cases s subnet) [
    | inl e ↦ unfold refresh_subnet in rw e (IsKept-refl s)
    | inr (inl (e, p)) ↦ unfold refresh_subnet in rw (e, p) (IsKept-refl s)
    | inr (inr (e, p)) ↦
        unfold refresh_subnet in
        rw (e, p)
          (record {
            ports = lawful.keeps_ports s _ _;
            network = lawful.keeps_network s _ _;
            rows = lawful.keeps_rows s _ _;
          })
  ]

  pub refresh_subnets-IsKept :
      (s : C.State) (subnets : List Subnet)
      → IsKept s (refresh_subnets N O C network_id services subnets s)
  unfolding refresh_subnets
  refresh_subnets-IsKept s [] = IsKept-refl s
  refresh_subnets-IsKept s (subnet ∷ subnets) =
      IsKept-trans _ _ _ (refresh_subnet-IsKept s subnet)
        (refresh_subnets-IsKept (refresh_subnet N O C network_id services s subnet) subnets)

  refresh_subnet-listed :
      (s : C.State) (subnet : Subnet) (subnets : List Subnet)
      → C.get_subnets s network_id ≡ ok subnets
      → C.get_subnets (refresh_subnet N O C network_id services s subnet) network_id
        ≡ ok (listed_after s subnet subnets)
  refresh_subnet-listed s subnet subnets h = elim (write_cases s subnet) [
    | inl e ↦ unfold refresh_subnet in rw e h
    | inr (inl (e, p)) ↦ unfold refresh_subnet in rw (e, p) h
    | inr (inr (e, p)) ↦ unfold refresh_subnet in rw (e, p) (lawful.read_back s _ _ subnets h)
  ]

  same_listed :
      (s s' : C.State)
      → find_port O C network_id s' ≡ find_port O C network_id s
      → (subnet : Subnet) (subnets : List Subnet)
      → listed_after s' subnet subnets ≡ listed_after s subnet subnets
  same_listed s s' same subnet subnets =
      rw (same_routes N O C network_id services s s' same subnet) refl

  pub refresh_subnets-listed :
      (s s' : C.State) (todo subnets : List Subnet)
      → IsKept s s'
      → C.get_subnets s' network_id ≡ ok subnets
      → C.get_subnets (refresh_subnets N O C network_id services todo s') network_id
        ≡ ok (all_listed_after s todo subnets)
  unfolding refresh_subnets
  refresh_subnets-listed s s' [] subnets k h = h
  refresh_subnets-listed s s' (subnet ∷ todo) subnets k h =
      refresh_subnets-listed s (refresh_subnet N O C network_id services s' subnet) todo _
        (IsKept-trans _ _ _ k (refresh_subnet-IsKept s' subnet))
        (refresh_subnet-listed s' subnet subnets h
          ∙ ap ok (same_listed s s' (same_port s s' k) subnet subnets))

  with_routes_lacking :
      (id : Option String) (routes : List Route) (subnets : List Subnet)
      → lacks_id id subnets ≡ true
      → with_routes id routes subnets ≡ subnets
  with_routes_lacking id routes [] h = refl
  with_routes_lacking id routes (subnet ∷ subnets) h =
      ground (arith, with_routes_lacking id routes subnets)

  with_routes_head :
      (routes : List Route) (subnet : Subnet) (subnets : List Subnet)
      → lacks_id subnet.id subnets ≡ true
      → with_routes subnet.id routes (subnet ∷ subnets)
        ≡ record subnet { host_routes = some routes } ∷ subnets
  with_routes_head routes subnet subnets h =
      rw (==_refl subnet.id, with_routes_lacking subnet.id routes subnets h) refl

  listed_head :
      (s : C.State) (subnet : Subnet) (subnets : List Subnet)
      → lacks_id subnet.id subnets ≡ true
      → listed_after s subnet (subnet ∷ subnets)
        ≡ taken N O C network_id services s subnet ∷ subnets
  listed_head s subnet subnets h = elim (write_cases s subnet) [
    | inl e ↦ rw e refl
    | inr (inl (e, p)) ↦ rw (e, p) refl
    | inr (inr (e, p)) ↦ rw (e, p) (with_routes_head _ subnet subnets h)
  ]

  taken_id :
      (s : C.State) (subnet : Subnet) → (taken N O C network_id services s subnet).id ≡ subnet.id
  taken_id s subnet = elim (write_cases s subnet) [
    | inl e ↦ rw e refl
    | inr (inl (e, p)) ↦ rw (e, p) refl
    | inr (inr (e, p)) ↦ rw (e, p) refl
  ]

  listed_skip :
      (s : C.State) (subnet first : Subnet) (subnets : List Subnet)
      → (subnet.id == first.id) ≡ false
      → listed_after s subnet (first ∷ subnets) ≡ first ∷ listed_after s subnet subnets
  listed_skip s subnet first subnets h = elim (write_cases s subnet) [
    | inl e ↦ rw e refl
    | inr (inl (e, p)) ↦ rw (e, p) refl
    | inr (inr (e, p)) ↦ rw (e, p, ==_sym first.id subnet.id, h) refl
  ]

  all_listed_skip :
      (s : C.State) (todo : List Subnet) (first : Subnet) (subnets : List Subnet)
      → lacks_id first.id todo ≡ true
      → all_listed_after s todo (first ∷ subnets) ≡ first ∷ all_listed_after s todo subnets
  all_listed_skip s [] first subnets h = refl
  all_listed_skip s (subnet ∷ todo) first subnets h =
      ap (all_listed_after s todo) (listed_skip s subnet first subnets (ground arith))
      ∙ all_listed_skip s todo first (listed_after s subnet subnets) (ground arith)

  pub all_listed-taken :
      (s : C.State) (subnets : List Subnet)
      → ids_differ subnets ≡ true
      → all_listed_after s subnets subnets ≡ all_taken N O C network_id services s subnets
  all_listed-taken s [] h = refl
  all_listed-taken s (subnet ∷ subnets) h =
      ap (all_listed_after s subnets) (listed_head s subnet subnets (ground arith))
      ∙ all_listed_skip s subnets (taken N O C network_id services s subnet) subnets
          (rw (taken_id s subnet) (ground arith))
      ∙ ap (λ rest. taken N O C network_id services s subnet ∷ rest)
          (all_listed-taken s subnets (ground arith))
