-- ===== src/Proxy/Entries.antt =====
-- The worker rejects a whole catalog for one entry without backends: which services give one.
use neutron_local_services_p.Base.{
  ℕ, String, ◌≡◌, refl, Bool, true, false, ◌&&◌, Option, none, some, List, [], ◌∷◌, ◌++◌, filter,
  truthy, nonzero, default_true, All, All-append, Bool-cases, Option-cases, is_empty, ◌⊎◌, inl, inr,
  arith,
}
use neutron_local_services_p.Records.{Backend, AttachedService}
use neutron_local_services_p.Proxy.{
  Entry, Nonce, target_of, targets, entry_for, entries_over, with_backends, enabled_backends,
  service_entries, entries_for, expand_protocols,
}

abbrev pub is_given {ℓ} : {A : Type ℓ} → Option A → Bool
is_given none = false
is_given (some _) = true

-- A backend that is disabled, or has an address and a port.
abbrev pub IsComplete : Backend → Type 0
IsComplete b =
    (default_true b.enabled ≡ false)
    ⊎ ((is_given (truthy b.address) ≡ true) × (is_given (nonzero b.port) ≡ true))

abbrev pub HasTargets : Entry → Type 0
HasTargets e = is_empty e.backends ≡ false

complete_target :
    (b : Backend) → default_true b.enabled ≡ true → IsComplete b → is_empty (target_of b) ≡ false
unfolding target_of
complete_target b e (inl f) = absurd (ground arith)
complete_target b e (inr (a, p)) = ground arith

is_empty-append {ℓ} :
    {A : Type ℓ} (xs ys : List A) → is_empty (xs ++ ys) ≡ (is_empty xs && is_empty ys)
is_empty-append [] ys = refl
is_empty-append (x ∷ xs) ys = refl

complete_targets :
    (backends : List Backend)
    → All IsComplete backends
    → is_empty (filter (λ b. default_true b.enabled) backends) ≡ false
    → is_empty (targets backends) ≡ false
unfolding targets filter
complete_targets [] h e = e
complete_targets (b ∷ backends) (c, cs) e = elim (Bool-cases (default_true b.enabled)) [
  | inl t ↦ ground (arith, is_empty-append (target_of b) (targets backends), complete_target b t c)
  | inr f ↦
      ground (arith, is_empty-append (target_of b) (targets backends), complete_targets backends cs)
]

module _ (network_id : String) (n : Nonce) where
  over_HasTargets :
      (svc : AttachedService) (vip : String) (port : ℕ) (protos : List String)
      → is_empty (targets svc.backends) ≡ false
      → All HasTargets (entries_over network_id n svc vip port protos)
  unfolding entries_over entry_for
  over_HasTargets svc vip port [] h = tt
  over_HasTargets svc vip port (proto ∷ protos) h = (h, over_HasTargets svc vip port protos h)

  with_HasTargets :
      (svc : AttachedService) (vip : String) (port : ℕ) (enabled : List Backend)
      → (is_empty enabled ≡ false → is_empty (targets svc.backends) ≡ false)
      → All HasTargets (with_backends network_id n svc vip port enabled)
  unfolding with_backends
  with_HasTargets svc vip port [] h = tt
  with_HasTargets svc vip port (b ∷ enabled) h =
      over_HasTargets svc vip port (expand_protocols svc) (h refl)

  service_HasTargets :
      (svc : AttachedService)
      → All IsComplete svc.backends
      → All HasTargets (service_entries network_id n svc)
  unfolding service_entries
  service_HasTargets svc c = elim (Bool-cases (default_true svc.enabled)) [
    | inr f ↦ rw f tt
    | inl t ↦ elim (Option-cases (truthy svc.local_ipv4)) [
      | inl v ↦ rw (t, v) tt
      | inr (vip, v) ↦ elim (Option-cases (nonzero svc.port)) [
        | inl p ↦ rw (t, v, p) tt
        | inr (port, p) ↦
            rw (t, v, p)
              (with_HasTargets svc vip port (enabled_backends network_id n svc)
                (complete_targets svc.backends c))
      ]
    ]
  ]

  -- If every enabled backend of every service has an address and a port, no entry of the network is
  -- without backends.
  pub entries_for-HasTargets :
      (services : List AttachedService)
      → All (λ (svc : AttachedService). All IsComplete svc.backends) services
      → All HasTargets (entries_for network_id n services)
  unfolding entries_for
  entries_for-HasTargets [] h = tt
  entries_for-HasTargets (svc ∷ services) (c, cs) =
      All-append HasTargets (service_entries network_id n svc) _ (service_HasTargets svc c)
        (entries_for-HasTargets services cs)
