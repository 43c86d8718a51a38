-- ===== src/Plugin/Reconcile/Rollback.antt =====
-- What becomes of a localport whose type is checked.
use neutron_local_services_p.Base.{
  String, ◌≡◌, refl, sym, subst, ◌∙◌, Bool, true, false, ◌&&◌, Option, none, some, ◌==◌, string_eq,
  any, if◌then◌else◌, Bool-cases, inl, inr, arith,
}
use neutron_local_services_p.Records.{Port}
use neutron_local_services_p.Netaddr.{Netaddr}
use neutron_local_services_p.Errors.{Result, ok, err, lsp_verify}
use neutron_local_services_p.CorePlugin.{CorePlugin, OvnConstants, Network, PortFilter}
use neutron_local_services_p.Localport
use neutron_local_services_p.Localport.Verify.{answers, first_row, verdict, verify_lsp_type-judged}
use neutron_local_services_p.Plugin.Reconcile.{MechDriver, verified, ensure_localport}

-- A core plugin whose `delete_port` leaves no port with the id.
pub record LosesPorts (C : CorePlugin) : Type 0 where
  pub gone :
      (s : C.State) (id : String) (f : PortFilter)
      → any (λ p. p.id == id) (C.get_ports (C.delete_port s id).1 f) ≡ false

module _ (O : OvnConstants) (C : CorePlugin) (D : MechDriver C.State) where
  -- The type that OVN shows first within the retries, if there is a driver and it shows any.
  abbrev pub shown : C.State → Port → Option String
  shown s port = if D.available then first_row (answers D.retries 0 (D.lookup s port.id)) else none

  abbrev pub is_accepted : Option String → Bool
  is_accepted none = true
  is_accepted (some t) = t == O.lsp_type_localport

  abbrev pub judged : Port → Option String → Result Port
  judged port none = ok port
  judged port (some t) = if t == O.lsp_type_localport then ok port else err (lsp_verify t)

module _ (N : Netaddr) (O : OvnConstants) (C : CorePlugin) (D : MechDriver C.State)
    (lawful : LosesPorts C) (network_id : String) where
  -- The state and the result after the check of a port, by the check's verdict.
  abbrev settled : Port → C.State → Result (Option String) → Result Port × C.State
  settled port after (ok t) = (ok port, after)
  settled port after (err e) = (err e, (C.delete_port after port.id).1)

  verified-settled :
      (port : Port) (after : C.State)
      → verified N O C D (ok port, after) ≡ settled port after (verdict O (shown O C D after port))
  unfolding verified
  verified-settled port after =
      let v = verify_lsp_type-judged O D.available D.retries (D.lookup after port.id) in
      ground (arith, v)

  ensure_localport-verified :
      (s after : C.State) (network : Network) (port : Port)
      → C.get_network s network_id ≡ ok network
      → Localport.ensure_localport O C network s ≡ (ok port, after)
      → ensure_localport N O C D network_id s ≡ verified N O C D (ok port, after)
  unfolding ensure_localport
  ensure_localport-verified s after network port g e = ground arith

  settled_cases :
      (after : C.State) (port : Port) (f : PortFilter) (t : Option String)
      → let result = settled port after (verdict O t) in
        (result.0 ≡ judged O C D port t)
        × (any (λ p. p.id == port.id) (C.get_ports result.1 f)
            ≡ (is_accepted O C D t && any (λ p. p.id == port.id) (C.get_ports after f)))
  settled_cases after port f none = (refl, refl)
  settled_cases after port f (some t) = elim (Bool-cases (t == O.lsp_type_localport)) [
    | inl p ↦ rw p (refl, refl)
    | inr p ↦ rw p (refl, lawful.gone after port.id f)
  ]

  -- A port that has been found or created is returned, and stays listed as it is, if OVN shows no
  -- row for it within the retries, or first one of type `localport`. If the first row is of another
  -- type, the call raises the error with that type and the port is listed no more.
  pub ensure_localport-judged :
      (s after : C.State) (network : Network) (port : Port) (f : PortFilter)
      → C.get_network s network_id ≡ ok network
      → Localport.ensure_localport O C network s ≡ (ok port, after)
      → let result = ensure_localport N O C D network_id s in
        (result.0 ≡ judged O C D port (shown O C D after port))
        × (any (λ p. p.id == port.id) (C.get_ports result.1 f) ≡ (
            is_accepted O C D (shown O C D after port)
            && any (λ p. p.id == port.id) (C.get_ports after f)))
  ensure_localport-judged s after network port f g e =
      subst
        (λ result.
          (result.0 ≡ judged O C D port (shown O C D after port))
          × (any (λ p. p.id == port.id) (C.get_ports result.1 f) ≡ (
              is_accepted O C D (shown O C D after port)
              && any (λ p. p.id == port.id) (C.get_ports after f))))
        (sym (ensure_localport-verified s after network port g e ∙ verified-settled port after))
        (settled_cases after port f (shown O C D after port))
