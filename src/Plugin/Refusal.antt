-- ===== src/Plugin/Refusal.antt =====
-- Which VIPs the checks refuse.
use neutron_local_services_p.Base.{
  String, ◌≡◌, refl, sym, ap, ◌∙◌, Bool, true, false, not, ◌&&◌, ◌||◌, Option, none, some, List, [],
  ◌∷◌, ◌++◌, any, arith, Option-cases, inl, inr,
}
use neutron_local_services_p.Records.{Service, Subnet}
use neutron_local_services_p.Netaddr.{Netaddr}
use neutron_local_services_p.Errors.{Error, Result-cases, Result, ok, err, ◌>>◌, ◌>>=◌}
use neutron_local_services_p.CorePlugin.{CorePlugin}
use neutron_local_services_p.Db.Tables.{Tables}
use neutron_local_services_p.Db.Services.{get_local_service}
use neutron_local_services_p.HostRoutes.{covers, subnet_network}
use neutron_local_services_p.HostRoutes.Handler.Overlap.{is_on_link}
use neutron_local_services_p.Plugin.{
  cidr_of, parse_vip, parse_vips, service_vips, refuse_inside, refuse_subnets,
  refuse_vips_overlap_network, refuse_any, refuse_vip_subnet_overlap,
}

abbrev pub returns {ℓ} : {A : Type ℓ} → Result A → Bool
returns (ok _) = true
returns (err _) = false

pub negated : (b : Bool) → not b ≡ true → b ≡ false
negated true q = ground arith
negated false q = refl

module _ (N : Netaddr) where
  -- The subnet has a CIDR that parses and one of the addresses lies in it.
  abbrev pub holds_one : List N.Address → Subnet → Bool
  holds_one vips subnet = elim (subnet_network N subnet) [
    | none ↦ false
    | some net ↦ any (covers N net) vips
  ]

  -- The subnet has a CIDR that parses and a VIP of the service lies in it.
  abbrev pub holds_vip : Service → Subnet → Bool
  holds_vip svc subnet = elim (subnet_network N subnet) [
    | none ↦ false
    | some net ↦ is_on_link N net svc.local_ipv4 || is_on_link N net svc.local_ipv6
  ]

  refuse_inside-returns :
      (cidr : String) (net : N.Network) (vips : List N.Address)
      → returns (refuse_inside N cidr net vips) ≡ not (any (covers N net) vips)
  unfolding refuse_inside any
  refuse_inside-returns cidr net [] = refl
  refuse_inside-returns cidr net (vip ∷ vips) = ground (arith, refuse_inside-returns cidr net vips)

  pub returns-then : (a b : Result (Unit {0})) → returns (a >> b) ≡ (returns a && returns b)
  returns-then (ok tt) b = refl
  returns-then (err e) b = refl

  pub refuse_subnets-returns :
      (vips : List N.Address) (subnets : List Subnet)
      → returns (refuse_subnets N vips subnets) ≡ not (any (holds_one vips) subnets)
  unfolding refuse_subnets any
  refuse_subnets-returns vips [] = refl
  refuse_subnets-returns vips (subnet ∷ subnets) = elim (Option-cases (subnet_network N subnet)) [
    | inl e ↦ ground (arith, refuse_subnets-returns vips subnets)
    | inr (net, e) ↦ ground (
      arith,
      returns-then (refuse_inside N (cidr_of N subnet) net vips) (refuse_subnets N vips subnets),
      refuse_inside-returns (cidr_of N subnet) net vips,
      refuse_subnets-returns vips subnets,
    )
  ]

  -- What one VIP of the service adds lies in the network exactly if the VIP does.
  parse_vip-covers :
      (net : N.Network) (v : Option String) (vips : List N.Address)
      → parse_vip N v ≡ ok vips
      → any (covers N net) vips ≡ is_on_link N net v
  unfolding parse_vip any covers
  parse_vip-covers net v vips h = ground arith

  any-append :
      (net : N.Network) (xs ys : List N.Address)
      → any (covers N net) (xs ++ ys) ≡ (any (covers N net) xs || any (covers N net) ys)
  unfolding any
  any-append net [] ys = refl
  any-append net (x ∷ xs) ys = ground (arith, any-append net xs ys)

  parse_vips_cases :
      (v4 v6 : Option String) (vips : List N.Address)
      → parse_vips N v4 v6 ≡ ok vips
      → (xs ys : List N.Address) × (parse_vip N v4 ≡ ok xs)
        × (parse_vip N v6 ≡ ok ys)
        × (vips ≡ xs ++ ys)
  unfolding parse_vips
  parse_vips_cases v4 v6 vips h = ground arith

  service_vips-holds :
      (svc : Service) (vips : List N.Address) (subnet : Subnet)
      → service_vips N svc ≡ ok vips
      → holds_one vips subnet ≡ holds_vip svc subnet
  unfolding service_vips
  service_vips-holds svc vips subnet h = elim (Option-cases (subnet_network N subnet)) [
    | inl e ↦ ground arith
    | inr (net, e) ↦
        let (xs, ys, e4, e6, e') = parse_vips_cases svc.local_ipv4 svc.local_ipv6 vips h in
        let covered : any (covers N net) vips
            ≡ (is_on_link N net svc.local_ipv4 || is_on_link N net svc.local_ipv6) =
          rw
            (
              e',
              any-append net xs ys,
              parse_vip-covers net svc.local_ipv4 xs e4,
              parse_vip-covers net svc.local_ipv6 ys e6,
            )
            refl in
        ground (arith, covered)
  ]

  pub any-holds :
      (svc : Service) (vips : List N.Address) (subnets : List Subnet)
      → service_vips N svc ≡ ok vips
      → any (holds_one vips) subnets ≡ any (holds_vip svc) subnets
  unfolding any
  any-holds svc vips [] h = refl
  any-holds svc vips (subnet ∷ subnets) h =
      rw (service_vips-holds svc vips subnet h, any-holds svc vips subnets h) refl

  pub any_none : (subnets : List Subnet) → any (holds_one []) subnets ≡ false
  unfolding any
  any_none [] = refl
  any_none (subnet ∷ subnets) = ground (arith, any_none subnets)

  module _ (C : CorePlugin) (s : C.State) (t : Tables) where
    refuse_any-returns :
        (vips : List N.Address) (network_id : String) (subnets : List Subnet)
        → C.get_subnets s network_id ≡ ok subnets
        → returns (refuse_any N C s vips network_id) ≡ not (any (holds_one vips) subnets)
    unfolding refuse_any refuse_vips_overlap_network
    refuse_any-returns [] network_id subnets e = rw (any_none subnets) refl
    refuse_any-returns (vip ∷ vips) network_id subnets e =
        ground (arith, refuse_subnets-returns (vip ∷ vips) subnets)

    refuse_vip_subnet_overlap-eq :
        (service_id network_id : String) (svc : Service)
        → get_local_service service_id t ≡ ok svc
        → refuse_vip_subnet_overlap N C s t service_id network_id
          ≡ (service_vips N svc >>= λ vips. refuse_any N C s vips network_id)
    unfolding refuse_vip_subnet_overlap
    refuse_vip_subnet_overlap-eq service_id network_id svc g = ground arith

    -- For a service whose VIPs parse and a network whose subnets are known: the check passes
    -- exactly if no VIP of the service lies in any subnet of the network whose CIDR parses.
    pub refuse_vip_subnet_overlap-returns :
        (service_id network_id : String) (svc : Service) (vips : List N.Address)
        (subnets : List Subnet)
        → get_local_service service_id t ≡ ok svc
        → service_vips N svc ≡ ok vips
        → C.get_subnets s network_id ≡ ok subnets
        → returns (refuse_vip_subnet_overlap N C s t service_id network_id)
          ≡ not (any (holds_vip svc) subnets)
    refuse_vip_subnet_overlap-returns service_id network_id svc vips subnets g p e =
        let step : refuse_vip_subnet_overlap N C s t service_id network_id
            ≡ refuse_any N C s vips network_id =
          refuse_vip_subnet_overlap-eq service_id network_id svc g ∙ rw p refl in
        rw step
          (refuse_any-returns vips network_id subnets e ∙ ap not (any-holds svc vips subnets p))

    -- A check that passes has seen every VIP parse, and none of them in a subnet of the network.
    pub refuse_vip_subnet_overlap_passed :
        (service_id network_id : String) (svc : Service) (subnets : List Subnet)
        → get_local_service service_id t ≡ ok svc
        → C.get_subnets s network_id ≡ ok subnets
        → refuse_vip_subnet_overlap N C s t service_id network_id ≡ ok tt
        → any (holds_vip svc) subnets ≡ false
    refuse_vip_subnet_overlap_passed service_id network_id svc subnets g e h =
        elim (Result-cases (service_vips N svc)) [
          | inl (x, p) ↦ absurd (
              refused {x = x}
                (sym h ∙ refuse_vip_subnet_overlap-eq service_id network_id svc g ∙ rw p refl))
          | inr (vips, p) ↦ negated _ (
              sym (refuse_vip_subnet_overlap-returns service_id network_id svc vips subnets g p e)
              ∙ ap returns h)
        ]
      where
        refused : {x : Error} → ◌≡◌ {A = Result (Unit {0})} (ok tt) (err x) → ⊥
        refused q = ground arith
