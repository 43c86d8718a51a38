-- ===== src/Nat/Rendering.antt =====
-- What the rendered configuration depends on.
use neutron_local_services_p.Base.{
  ℕ, String, ◌≡◌, refl, ap, Bool, true, false, ◌&&◌, Option, none, some, List, [], ◌∷◌, ◌++◌,
  if◌then◌else◌, filter, truthy, nonzero, default_true, Bool-cases, Option-cases, inl, inr, arith,
}
use neutron_local_services_p.Records.{Backend, AttachedService}
use neutron_local_services_p.Nat.{
  real_server, real_servers, render_health_check, virtual_server, protocol_blocks, service_blocks,
  blocks, lb_algo, expand_protocols, render_keepalived_conf, proto_keepalived,
}

abbrev pub is_some {ℓ} : {A : Type ℓ} → Option A → Bool
is_some none = false
is_some (some _) = true

-- An enabled backend with an address and a port.
abbrev pub is_usable : Backend → Bool
is_usable b = default_true b.enabled && (is_some (truthy b.address) && is_some (nonzero b.port))

-- An enabled service with an IPv4 VIP and a port.
abbrev pub is_shown : AttachedService → Bool
is_shown svc =
    default_true svc.enabled && (is_some (truthy svc.local_ipv4) && is_some (nonzero svc.port))

abbrev pub with_usable : AttachedService → AttachedService
with_usable svc = record svc { backends = filter is_usable svc.backends }

abbrev pub relevant : List AttachedService → List AttachedService
relevant [] = []
relevant (svc ∷ services) =
    let rest = relevant services in if is_shown svc then with_usable svc ∷ rest else rest

module _ (resolve : String → Option String) where
  unusable :
      (svc : AttachedService) (b : Backend)
      → default_true b.enabled ≡ true
      → is_usable b ≡ false
      → real_server resolve svc b ≡ []
  unfolding real_server
  unusable svc b e h = ground arith

  usable_servers :
      (svc : AttachedService) (backends : List Backend)
      → real_servers resolve svc (filter (λ b. default_true b.enabled) (filter is_usable backends))
        ≡ real_servers resolve svc (filter (λ b. default_true b.enabled) backends)
  unfolding real_servers filter
  usable_servers svc [] = refl
  usable_servers svc (b ∷ backends) = elim (Bool-cases (default_true b.enabled)) [
    | inr e ↦ ground (arith, usable_servers svc backends)
    | inl e ↦ elim (Bool-cases (is_usable b)) [
      | inl u ↦ rw (u, e) (ap (◌++◌ (real_server resolve svc b)) (usable_servers svc backends))
      | inr u ↦ rw (u, e, unusable svc b e u) (usable_servers svc backends)
    ]
  ]

  same_service :
      (svc : AttachedService) (backends bs : List Backend)
      → real_servers resolve (record svc { backends = backends }) bs ≡ real_servers resolve svc bs
  unfolding real_servers real_server render_health_check
  same_service svc backends [] = refl
  same_service svc backends (b ∷ bs) =
      ap (◌++◌ (real_server resolve svc b)) (same_service svc backends bs)

  same_block :
      (svc : AttachedService) (vip : String) (port : ℕ) (kp_proto : String)
      → virtual_server resolve (with_usable svc) vip port kp_proto
        ≡ virtual_server resolve svc vip port kp_proto
  unfolding virtual_server lb_algo
  same_block svc vip port kp_proto =
      rw (same_service svc (filter is_usable svc.backends), usable_servers svc svc.backends) refl

  same_blocks :
      (svc : AttachedService) (vip : String) (port : ℕ) (protos : List String)
      → protocol_blocks resolve (with_usable svc) vip port protos
        ≡ protocol_blocks resolve svc vip port protos
  unfolding protocol_blocks
  same_blocks svc vip port [] = refl
  same_blocks svc vip port (proto ∷ protos) = elim (Option-cases (proto_keepalived proto)) [
    | inl e ↦ ground (arith, same_blocks svc vip port protos)
    | inr (kp, e) ↦ ground (arith, same_blocks svc vip port protos, same_block svc vip port kp)
  ]

  service_blocks_usable :
      (svc : AttachedService)
      → service_blocks resolve (with_usable svc) ≡ service_blocks resolve svc
  unfolding service_blocks expand_protocols
  service_blocks_usable svc = elim (Option-cases (truthy svc.local_ipv4)) [
    | inl e ↦ ground arith
    | inr (vip, e) ↦ elim (Option-cases (nonzero svc.port)) [
      | inl p ↦ ground arith
      | inr (port, p) ↦ ground (arith, same_blocks svc vip port (expand_protocols svc))
    ]
  ]

  hidden : (svc : AttachedService) → is_shown svc ≡ false → service_blocks resolve svc ≡ []
  unfolding service_blocks
  hidden svc h = ground arith

  blocks-relevant :
      (services : List AttachedService)
      → blocks resolve (relevant services) ≡ blocks resolve services
  unfolding blocks
  blocks-relevant [] = refl
  blocks-relevant (svc ∷ services) = elim (Bool-cases (is_shown svc)) [
    | inl e ↦ rw e (rw (service_blocks_usable svc, blocks-relevant services) refl)
    | inr e ↦ rw (e, hidden svc e) (blocks-relevant services)
  ]

  -- The text depends on nothing but the enabled services with an IPv4 VIP and a port, each with its
  -- enabled backends that have an address and a port: dropping all others renders to the same.
  pub render-relevant :
      (network_id : String) (services : List AttachedService)
      → render_keepalived_conf resolve network_id (relevant services)
        ≡ render_keepalived_conf resolve network_id services
  unfolding render_keepalived_conf
  render-relevant network_id services = rw (blocks-relevant services) refl
