-- ===== src/Extension.antt =====
-- agent/extension.py: one reconcile pass over a network, with the cache of the last state that a
-- fetch gave. The parts that a pass calls are an interface: the extension catches whatever they
-- raise, so each of them just leaves some state of the world.
pub mod Slices
pub mod LastKnownGood
pub mod Events
use neutron_local_services_p.Base.{
  ℕ, ◌-◌, String, ◌<>◌, Bool, true, false, not, Option, none, some, List, [], ◌∷◌, ◌++◌, ◌==◌,
  string_eq, if◌then◌else◌, contains, text_is_true, truthy,
}
use neutron_local_services_p.Base.Dict
use neutron_local_services_p.Base.Dict.{Dict}
use neutron_local_services_p.Constants.{netns_prefix, exposure_nat}
use neutron_local_services_p.Records.{AttachedService}
use neutron_local_services_p.Registry.{Fetched, got, fetch_error, value_error, vips_of}

-- `netns.reconcile_vips`, `apply_config` of the plugin with a name, and
-- `underlay.reconcile_destination_acl`: the world after the call, whether it returns or raises.
pub record Effects : Type 1 where
  pub World : Type 0
  pub reconcile_vips : String → List String → World → World
  pub apply_config : String → String → List AttachedService → World → World
  pub reconcile_acl : String → List AttachedService → World → World

-- `_lkg_state` and `_lkg_ts`
pub record Cache : Type 0 where
  pub state : Dict String (List AttachedService)
  pub ts : Dict String ℕ

unfoldable pub staleness_seconds : ℕ → String → Cache → Option ℕ
staleness_seconds now network_id cache = elim (Dict.lookup network_id cache.ts) [
  | none ↦ none
  | some ts ↦ some (now - ts)
]

unfoldable pub forget_network : String → Cache → Cache
forget_network network_id cache = record {
  state = Dict.erase network_id cache.state;
  ts = Dict.erase network_id cache.ts;
}

-- `svc.get('exposure_plugin') or lsc.EXPOSURE_NAT`
unfoldable pub plugin_name : AttachedService → String
plugin_name svc = elim (truthy svc.exposure_plugin) [ none ↦ exposure_nat | some name ↦ name ]

-- `{p.name: [] for p in plugins_base.all_plugins()}`
unfoldable pub no_slices : List String → Dict String (List AttachedService)
no_slices [] = []
no_slices (name ∷ names) = (name, []) ∷ no_slices names

-- One round of the loop that fills the slices; a service of an unknown plugin is skipped.
unfoldable pub assign :
    AttachedService → Dict String (List AttachedService) → Dict String (List AttachedService)
unfolding plugin_name
assign svc slices = elim (Dict.lookup (plugin_name svc) slices) [
  | none ↦ slices
  | some slice ↦ Dict.insert (plugin_name svc) (slice ++ svc ∷ []) slices
]

unfoldable pub assign_all :
    List AttachedService → Dict String (List AttachedService) → Dict String (List AttachedService)
unfolding assign
assign_all [] slices = slices
assign_all (svc ∷ services) slices = assign_all services (assign svc slices)

-- `by_plugin[plugin.name]`, which is always there.
unfoldable pub slice_of : String → Dict String (List AttachedService) → List AttachedService
slice_of name slices = elim (Dict.lookup name slices) [ none ↦ [] | some slice ↦ slice ]

module _ (E : Effects) (plugins : List String) where
  unfoldable pub apply_all :
      String → Dict String (List AttachedService) → List String → E.World → E.World
  unfolding slice_of
  apply_all ns_name slices [] w = w
  apply_all ns_name slices (name ∷ names) w =
      apply_all ns_name slices names (E.apply_config name ns_name (slice_of name slices) w)

  -- The part of `reconcile_network` after the fetch.
  unfoldable pub dispatch : String → List AttachedService → E.World → E.World
  unfolding apply_all assign_all no_slices vips_of
  dispatch network_id services w = E.reconcile_acl network_id services (
      apply_all (netns_prefix <> network_id) (assign_all services (no_slices plugins)) plugins
        (E.reconcile_vips network_id (vips_of services) w))

  -- `fetched` is what `desired_state_for_network` gives, and `now` the clock.
  unfoldable pub reconcile_network :
      ℕ → String → Fetched (List AttachedService) → Cache × E.World → Cache × E.World
  unfolding dispatch
  reconcile_network now network_id fetched (cache, w) =
      if not (text_is_true network_id) then (cache, w) else elim fetched [
        | fetch_error ↦ elim (Dict.lookup network_id cache.state) [
          | none ↦ (cache, w)
          | some services ↦ (cache, dispatch network_id services w)
        ]
        | value_error ↦ (cache, w)
        | got services ↦ (
          record {
            state = Dict.insert network_id services cache.state;
            ts = Dict.insert network_id now cache.ts;
          },
          dispatch network_id services w,
        )
      ]

  -- `reconcile_vips_for_network`, where `fetched` is what `desired_vips_for_network` gives.
  unfoldable pub reconcile_vips_for_network : String → Fetched (List String) → E.World → E.World
  reconcile_vips_for_network network_id fetched w =
      if not (text_is_true network_id) then w else elim fetched [
        | fetch_error ↦ w
        | value_error ↦ w
        | got desired ↦ E.reconcile_vips network_id desired w
      ]
