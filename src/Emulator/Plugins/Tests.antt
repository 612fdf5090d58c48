-- ===== src/Emulator/Plugins/Tests.antt =====
-- The theorems at a core that attaches everything, or all but the input.
use net64_coop.Prelude.{◌≡◌, refl, false, some, none, [], ◌∷◌, if◌then◌else◌}
use net64_coop.Text.{codes}
use net64_coop.Emulator.Error.{success, plugin_fail}
use net64_coop.Emulator.Core.{
  PluginType, gfx, input, no_info, plugin_startup, plugin_shutdown, Library, made, failed,
  is_failure,
}
use net64_coop.Emulator.Core.Sample.{lib}
use net64_coop.Emulator.Plugins.{Plugin, Plugins, same_type, add_plugin}
use net64_coop.Emulator.Plugins.Adding.{add_plugin_replaces}

abbrev plugin_of : PluginType → Plugin
plugin_of t = record { file = codes "p.so"; info = record no_info { type = t } }

abbrev all_there : Plugins
all_there = record { slots = λ t. some (plugin_of t); calls = [] }

abbrev lib_without_input : Library
lib_without_input = record lib {
  core_attaches = λ calls t. if same_type t input then plugin_fail else success;
}

add_plugin_replaces_example :
    let (result, s') = add_plugin lib (codes "new.so") all_there in
    (s'.calls ≡ plugin_startup (codes "new.so") ∷ plugin_shutdown (codes "p.so") ∷ [])
    × ((u : PluginType) → same_type gfx u ≡ false → s'.slots u ≡ some (plugin_of u))
    × (result ≡ (if is_failure success then failed success else made tt))
    × (s'.slots gfx ≡ (
        if is_failure success
        then none
        else some (record { file = codes "new.so"; info = record no_info { type = gfx } })))
add_plugin_replaces_example =
    add_plugin_replaces lib (codes "new.so") all_there (record no_info { type = gfx }) refl refl
