-- ===== src/Emulator/Plugins/Adding.antt =====
-- What `add_plugin` does to the plugins.
use net64_coop.Prelude.{
  ◌≡◌, refl, true, false, none, some, ◌∷◌, if◌then◌else◌, Bool-cases, inl, inr,
}
use net64_coop.Net.{Text}
use net64_coop.Emulator.Error.{success}
use net64_coop.Emulator.Core.{
  PluginType, null_type, rsp, gfx, audio, input, core_type, PluginInfo, Calls, plugin_startup,
  Library, made, failed, is_failure, get_plugin_info, make_plugin, init_plugin,
}
use net64_coop.Emulator.Plugins.{Plugins, same_type, shut_down, reset, store, stored, add_plugin}

same_type_self : (t : PluginType) → same_type t t ≡ true
unfolding same_type
same_type_self null_type = refl
same_type_self rsp = refl
same_type_self gfx = refl
same_type_self audio = refl
same_type_self input = refl
same_type_self core_type = refl

module _ (lib : Library) (file : Text) (s : Plugins) (info : PluginInfo)
    (loads : lib.file_loads file ≡ true)
    (version : lib.plugin_get_version file ≡ (success, info)) where
  -- The plugins that are left when the old one of the type is let go.
  abbrev let_go : Calls
  let_go = shut_down (s.slots info.type) s.calls

  -- Adding a plugin from a file that can be loaded lets the plugin of its type go first, which is shut
  -- down if it is there. If the new one starts it stands in the slot of its type, and the others are
  -- untouched; if it does not, its error is thrown and the slot stays empty.
  pub add_plugin_replaces :
      let (result, s') = add_plugin lib file s in
      let e = lib.plugin_starts let_go file in
      (s'.calls ≡ plugin_startup file ∷ let_go)
      × ((u : PluginType) → same_type info.type u ≡ false → s'.slots u ≡ s.slots u)
      × (result ≡ (if is_failure e then failed e else made tt))
      × (s'.slots info.type
          ≡ (if is_failure e then none else some (record { file = file; info = info })))
  unfolding add_plugin get_plugin_info make_plugin init_plugin stored store reset is_failure
  add_plugin_replaces =
      let e = lib.plugin_starts let_go file in
      elim (Bool-cases (is_failure e)) [
        | inl refused ↦ rw loads (
            rw version (
              rw refused
                (refl, λ u other. rw other refl, refl, rw (same_type_self info.type) refl)))
        | inr starts ↦ rw loads (
            rw version (
              rw starts (
                rw (same_type_self info.type) refl,
                λ u other. rw other refl,
                refl,
                rw (same_type_self info.type) refl,
              )))
      ]
