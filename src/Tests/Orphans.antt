-- ===== src/Tests/Orphans.antt =====
-- A host that provisions each row, with a namespace that no row names and one that still has an
-- underlay device in it.
use neutron_local_services_p.Base.{
  String, ◌≡◌, refl, Bool, true, false, not, ◌&&◌, ◌||◌, Option, none, some, List, [], ◌∷◌, ◌==◌,
  string_eq, option_eq, nat_eq, contains, contains-filter, filter, arith, sym, subst,
}
use neutron_local_services_p.Base.Text.{split_after}
use neutron_local_services_p.Netns.{netns_name}
use neutron_local_services_p.Netns.Lifecycle.{Host, Row, sync}
use neutron_local_services_p.Netns.Lifecycle.Orphans.{IsLawful}

abbrev busy : String
busy = "localsvc-busy"

abbrev added : Option String → List String → Bool × List String
added none s = (false, s)
added (some network_id) s = (true, netns_name network_id ∷ s)

abbrev is_some : Option String → Bool
is_some none = false
is_some (some network_id) = true

-- The state is the namespaces besides the busy one.
abbrev host : Host
host = record {
  State = List String;
  namespace_exists = λ ns s. contains (busy ∷ s) ns;
  namespaces = λ s. busy ∷ s;
  root_device_exists = λ _ _. false;
  del_port = λ _ s. s;
  del_veth = λ _ s. s;
  garbage_collect_namespace = λ ns s. filter (λ m. not (m == ns)) s;
  provision = λ row s. added (split_after "localsvc-" row.device_id) s;
}

collected_law :
    (ns name : String) (s : List String)
    → contains (busy ∷ filter (λ m. not (m == name)) s) ns
      ≡ (contains (busy ∷ s) ns && (not (ns == name) || ns == busy))
collected_law ns name s = ground (arith, contains-filter (λ m. not (m == name)) s ns)

kept :
    (o : Option String) (ns : String) (s : List String)
    → contains (busy ∷ s) ns ≡ true
    → contains (busy ∷ (added o s).1) ns ≡ true
kept none ns s h = h
kept (some network_id) ns s h = ground arith

there :
    (o : Option String) (network_id : String) (s : List String)
    → o ≡ some network_id
    → contains (busy ∷ (added o s).1) (netns_name network_id) ≡ true
there o network_id s e =
    subst (λ o. contains (busy ∷ (added o s).1) (netns_name network_id) ≡ true) (sym e)
      (ground arith)

succeeds_law : (o : Option String) (s : List String) → (added o s).0 ≡ is_some o
succeeds_law none s = refl
succeeds_law (some network_id) s = refl

host-IsLawful : IsLawful host
host-IsLawful = record {
  foreign = λ ns s. ns == busy;
  exists-del_port = λ name ns s. refl;
  foreign-del_port = λ name ns s. refl;
  exists-del_veth = λ name ns s. refl;
  foreign-del_veth = λ name ns s. refl;
  deleted = λ name s. refl;
  collected = λ network_id ns s h. collected_law ns (netns_name network_id) s;
  foreign-collect = λ name ns s. refl;
  listed = λ ns s. refl;
  foreign-exists = λ ns s h. ground arith;
  exists-provision = λ row ns s h. kept (split_after "localsvc-" row.device_id) ns s h;
  foreign-provision = λ row ns s. refl;
  provisioned =
      λ row network_id s h e. there (split_after "localsvc-" row.device_id) network_id s e;
  succeeds = λ row. is_some (split_after "localsvc-" row.device_id);
  provision_succeeds = λ row s. succeeds_law (split_after "localsvc-" row.device_id) s;
}

abbrev listed_rows : List Row
listed_rows =
    record { type = some "localport"; device_id = "ovn-lb-hm-localsvc-new" }
    ∷ record { type = some "patch"; device_id = "ovn-lb-hm-localsvc-old" }
    ∷ []

synced : sync host "localport" listed_rows ("localsvc-old" ∷ []) ≡ "localsvc-new" ∷ []
unfolding sync nat_eq string_eq option_eq filter
synced = refl
