-- ===== src/Plugins.antt =====
-- agent/plugins/base.py: the registry of exposure plugins, for plugin instances of any type.
use neutron_local_services_p.Base.{
  String, true, ◌&&◌, ◌≡◌, Option, none, some, ◌==◌, List, string_eq, if◌then◌else◌, contains,
  text_is_true, arith,
}
use neutron_local_services_p.Base.Dict
use neutron_local_services_p.Base.Dict.{Dict}
use neutron_local_services_p.Constants.{exposure_plugins}

module _ {ℓ} {Plugin : Type ℓ} where
  -- `none` where it raises `ValueError`: the name is empty, or not one that the API knows.
  unfoldable pub register : String → Plugin → Dict String Plugin → Option (Dict String Plugin)
  register name plugin registry =
      if text_is_true name && contains exposure_plugins name
      then some (Dict.insert name plugin registry)
      else none

  -- `get`
  unfoldable pub get_plugin : String → Dict String Plugin → Option Plugin
  get_plugin name registry = Dict.lookup name registry

  unfoldable pub all_plugins : Dict String Plugin → List Plugin
  all_plugins registry = Dict.values registry

  -- A registration that does not raise is found under its name, leaves the other plugins, and is of
  -- a name that the API knows.
  pub get_plugin-register :
      (name other : String) (plugin : Plugin) (registry registry' : Dict String Plugin)
      → register name plugin registry ≡ some registry'
      → (contains exposure_plugins name ≡ true)
        × (get_plugin other registry'
            ≡ (if other == name then some plugin else get_plugin other registry))
  unfolding register get_plugin
  get_plugin-register name other plugin registry registry' h =
      ground (arith, Dict.lookup-insert other name plugin registry)
