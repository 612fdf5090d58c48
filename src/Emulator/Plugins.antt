-- ===== src/Emulator/Plugins.antt =====
-- The plugins of `Mupen64Plus` in src/net64/emulator/m64plus.cpp: adding, removing, attaching to the core
-- and detaching.
pub mod Attaching
pub mod Adding
mod Tests
use net64_coop.Prelude.{Bool, true, false, Option, none, some, List, [], ◌∷◌, if◌then◌else◌}
use net64_coop.Net.{Text}
use net64_coop.Emulator.Error.{success, Result, ok, throws, undefined}
use net64_coop.Emulator.Core.{
  PluginType, null_type, rsp, gfx, audio, input, core_type, PluginInfo, Calls, core_attach_plugin,
  core_detach_plugin, plugin_shutdown, Library, Made, made, failed, folder_error, get_plugin_info,
  make_plugin, is_failure,
}

pub data Attached : Type 0 where
  attached terminated null_pointer : Attached

pub record Plugin : Type 0 where
  pub file : Text
  pub info : PluginInfo

-- `plugins_` of `Mupen64Plus`, with the calls so far. The mutex and the assertion that the emulator is
-- stopped are part of its life cycle.
pub record Plugins : Type 0 where
  pub slots : PluginType → Option Plugin
  pub calls : Calls

unfoldable pub same_type : PluginType → PluginType → Bool
same_type null_type null_type = true
same_type rsp rsp = true
same_type gfx gfx = true
same_type audio audio = true
same_type input input = true
same_type core_type core_type = true
same_type t u = false

abbrev pub set_slot :
    (PluginType → Option Plugin) → PluginType → Option Plugin → PluginType → Option Plugin
set_slot slots t p = λ u. if same_type t u then p else slots u

-- `~Plugin()` of what a `unique_ptr` lets go
abbrev pub shut_down : Option Plugin → Calls → Calls
shut_down none calls = calls
shut_down (some p) calls = plugin_shutdown p.file ∷ calls

unfoldable pub reset : Plugins → PluginType → Plugins
reset s t = record s { slots = set_slot s.slots t none; calls = shut_down (s.slots t) s.calls }

-- `remove_plugin`
unfoldable pub remove_plugin : Plugins → PluginType → Plugins
remove_plugin s t = reset s t

unfoldable pub has_plugin : Plugins → PluginType → Bool
has_plugin s t = elim (s.slots t) [ none ↦ false | some p ↦ true ]

-- `plugins_[plugin->info().type] = …`: the new plugin is there before the old one is destroyed.
unfoldable pub store : Plugins → Plugin → Plugins
store s p = record s {
  slots = set_slot s.slots p.info.type (some p);
  calls = shut_down (s.slots p.info.type) s.calls;
}

-- An exception that reaches a function that is `noexcept` ends the program.
unfoldable pub noexcept : Result (Unit {0}) → Attached
noexcept (ok u) = attached
noexcept (throws e) = terminated
noexcept undefined = null_pointer

module _ (lib : Library) where
  unfoldable pub stored : Text → Plugins → Made PluginInfo × Calls → Made (Unit {0}) × Plugins
  stored file s (made info, calls) =
      (made tt, store (record s { calls = calls }) (record { file = file; info = info }))
  stored file s (failed e, calls) = (failed e, record s { calls = calls })
  stored file s (folder_error, calls) = (folder_error, record s { calls = calls })

  unfoldable pub add_plugin : Text → Plugins → Made (Unit {0}) × Plugins
  add_plugin lib_path s =
      let s' = reset s (get_plugin_info lib lib_path).type in
      stored lib_path s' (make_plugin lib lib_path s'.calls)

  -- `Core::attach_plugin` of the plugin in a slot; a plugin that is not there is a null pointer.
  unfoldable pub attach : PluginType → Plugins → Result (Unit {0}) × Plugins
  attach t s = elim (s.slots t) [
    | none ↦ (undefined, s)
    | some p ↦
        let e = lib.core_attaches s.calls p.info.type in
        (
          if is_failure e then throws e else ok tt,
          record s { calls = core_attach_plugin p.info.type ∷ s.calls },
        )
  ]

  unfoldable pub attach_each : List PluginType → Plugins → Result (Unit {0}) × Plugins
  attach_each [] s = (ok tt, s)
  attach_each (t ∷ ts) s =
      let (result, s') = attach t s in
      elim result [
        | ok u ↦ attach_each ts s'
        | throws e ↦ (throws e, s')
        | undefined ↦ (undefined, s')
      ]

  unfoldable pub attach_plugins : Plugins → Attached × Plugins
  attach_plugins s =
      let (result, s') = attach_each (gfx ∷ audio ∷ input ∷ rsp ∷ []) s in (noexcept result, s')

-- A failure to detach is logged.
unfoldable pub detach_each : List PluginType → Plugins → Option Plugins
detach_each [] s = some s
detach_each (t ∷ ts) s = elim (s.slots t) [
  | none ↦ none
  | some p ↦ detach_each ts (record s { calls = core_detach_plugin p.info.type ∷ s.calls })
]

-- `none` is a null pointer.
unfoldable pub detach_plugins : Plugins → Option Plugins
detach_plugins s = detach_each (gfx ∷ audio ∷ input ∷ rsp ∷ []) s
