-- ===== src/Emulator/Plugins/Attaching.antt =====
-- In which order plugins are attached to the core and detached, and what a failure does.
use net64_coop.Prelude.{◌≡◌, refl, ap, ◌∙◌, Bool, false, some, List, [], ◌∷◌, if◌then◌else◌}
use net64_coop.Emulator.Core.{
  PluginType, rsp, gfx, audio, input, Calls, core_attach_plugin, core_detach_plugin, Library,
  is_failure,
}
use net64_coop.Emulator.Error.{Error, Result, ok, throws}
use net64_coop.Emulator.Plugins.{
  Plugin, Plugins, Attached, noexcept, attached, attach, attach_each, attach_plugins, detach_each,
  detach_plugins,
}

-- The four plugins are there, each in the slot of its type.
pub record AreThere (s : Plugins) : Type 0 where
  pub plugin : PluginType → Plugin
  pub stands : (t : PluginType) → s.slots t ≡ some (plugin t)
  pub typed : (t : PluginType) → (plugin t).info.type ≡ t

abbrev pub attach_calls : List PluginType → Calls → Calls
attach_calls [] calls = calls
attach_calls (t ∷ ts) calls = attach_calls ts (core_attach_plugin t ∷ calls)

abbrev pub detach_calls : List PluginType → Calls → Calls
detach_calls [] calls = calls
detach_calls (t ∷ ts) calls = detach_calls ts (core_detach_plugin t ∷ calls)

-- The core attaches each plugin of the list, one after the other.
abbrev pub AllAttach : Library → List PluginType → Calls → Type 0
AllAttach lib [] calls = Unit
AllAttach lib (t ∷ ts) calls =
    (is_failure (lib.core_attaches calls t) ≡ false)
    × AllAttach lib ts (core_attach_plugin t ∷ calls)

after : {s : Plugins} (calls : Calls) → AreThere s → AreThere (record s { calls = calls })
after calls there = record { plugin = there.plugin; stands = there.stands; typed = there.typed }

-- What attaching comes to, by the code that the core returns.
abbrev outcome : Bool → Error → Result (Unit {0})
outcome refused e = if refused then throws e else ok tt

attach_lem :
    (lib : Library) (t : PluginType) (s : Plugins) (refused : Bool)
    → AreThere s
    → is_failure (lib.core_attaches s.calls t) ≡ refused
    → attach lib t s ≡ (
      outcome refused (lib.core_attaches s.calls t),
      record s { calls = core_attach_plugin t ∷ s.calls },
    )
unfolding attach
attach_lem lib t s refused there e = rw (there.stands t, attach) (rw (there.typed t) (rw e refl))

attach_each_step :
    (lib : Library) (t : PluginType) (ts : List PluginType) (s : Plugins)
    → AreThere s
    → is_failure (lib.core_attaches s.calls t) ≡ false
    → attach_each lib (t ∷ ts) s
      ≡ attach_each lib ts (record s { calls = core_attach_plugin t ∷ s.calls })
unfolding attach_each
attach_each_step lib t ts s there fine =
    simp (attach_lem lib t s false there fine, attach_each) refl

attach_each-calls :
    (lib : Library) (ts : List PluginType) (s : Plugins)
    → AreThere s
    → AllAttach lib ts s.calls
    → attach_each lib ts s ≡ (ok tt, record s { calls = attach_calls ts s.calls })
unfolding attach_each
attach_each-calls lib [] s there all = refl
attach_each-calls lib (t ∷ ts) s there (fine, all) =
    attach_each_step lib t ts s there fine
    ∙ attach_each-calls lib ts (record s { calls = core_attach_plugin t ∷ s.calls })
        (after (core_attach_plugin t ∷ s.calls) there) all

detach_each-calls :
    (ts : List PluginType) (s : Plugins)
    → AreThere s
    → detach_each ts s ≡ some (record s { calls = detach_calls ts s.calls })
unfolding detach_each
detach_each-calls [] s there = refl
detach_each-calls (t ∷ ts) s there =
    rw (there.stands t, detach_each)
      (rw (there.typed t) (
        detach_each-calls ts (record s { calls = core_detach_plugin t ∷ s.calls })
          (after (core_detach_plugin t ∷ s.calls) there)))

-- What `attach_plugins` makes of the end of its calls.
abbrev left : Result (Unit {0}) × Plugins → Attached × Plugins
left (result, s) = (noexcept result, s)

-- If the four plugins stand in the slots of their types and the core attaches each, the video is attached
-- first, then the audio, the input and the RSP, and the same order detaches them; the slots do not change.
pub attach_then_detach :
    (lib : Library) (s : Plugins)
    → AreThere s
    → AllAttach lib (gfx ∷ audio ∷ input ∷ rsp ∷ []) s.calls
    → (s' : Plugins) × (attach_plugins lib s ≡ (attached, s'))
      × (detach_plugins s'
          ≡ some (record s {
            calls =
                core_detach_plugin rsp
                ∷ core_detach_plugin input
                ∷ core_detach_plugin audio
                ∷ core_detach_plugin gfx
                ∷ core_attach_plugin rsp
                ∷ core_attach_plugin input
                ∷ core_attach_plugin audio
                ∷ core_attach_plugin gfx
                ∷ s.calls;
          }))
unfolding attach_plugins detach_plugins noexcept
attach_then_detach lib s there all =
    let ts = gfx ∷ audio ∷ input ∷ rsp ∷ [] in
    (
      record s { calls = attach_calls ts s.calls },
      ap left (attach_each-calls lib ts s there all),
      detach_each-calls ts (record s { calls = attach_calls ts s.calls })
          (after (attach_calls ts s.calls) there),
    )
