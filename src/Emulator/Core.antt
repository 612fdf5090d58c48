-- ===== src/Emulator/Core.antt =====
-- src/net64/emulator/m64plus_core.cpp and m64plus_plugin.cpp: the life of the core and of a plugin. The core and the plugins are libraries
-- outside the repository: `Library` is what their functions answer, where an answer may depend on the
-- calls that were made before it. Calls are a list with the newest at its head. A symbol that a library
-- does not have is not modelled.
pub mod Startup
pub mod Sample
mod Tests
use net64_coop.Prelude.{
  ℕ, Bool, true, false, Option, none, some, List, [], ◌∷◌, ◌==◌, if◌then◌else◌,
}
use net64_coop.Net.{Text}
use net64_coop.Emulator.Error.{Error, success, lib_load_failed}

-- `m64p_plugin_type`
pub data PluginType : Type 0 where
  null_type rsp gfx audio input core_type : PluginType

pub record PluginInfo : Type 0 where
  pub type : PluginType
  pub plugin_version : ℕ
  pub api_version : ℕ
  pub capabilities : ℕ
  pub name : Text

-- `PluginInfo` with its default initializers
abbrev pub no_info : PluginInfo
no_info = record {
  type = null_type;
  plugin_version = 0;
  api_version = 0;
  capabilities = 0;
  name = [];
}

-- A plugin is named by its library file.
pub data Call : Type 0 where
  core_startup core_shutdown create_folders : Call
  core_attach_plugin core_detach_plugin : PluginType → Call
  plugin_startup plugin_shutdown : Text → Call

abbrev pub Calls : Type 0
Calls = List Call

pub record Library : Type 0 where
  pub core_get_version : Error × PluginInfo
  pub core_starts : Calls → Error
  pub folders_created : Calls → Bool
  pub core_attaches : Calls → PluginType → Error
  pub file_loads : Text → Bool
  pub plugin_get_version : Text → Error × PluginInfo
  pub plugin_starts : Calls → Text → Error

-- `failed`
unfoldable pub is_failure : Error → Bool
is_failure success = false
is_failure e = true

-- How a constructor ends: with an object, by a `std::system_error` with a code of the core, or by an
-- exception of the file system.
pub data Made {ℓ} (A : Type ℓ) : Type ℓ where
  made : A → Made A
  failed : Error → Made A
  folder_error : Made A

-- The core that was constructed is its information.
module _ (lib : Library) where
  unfoldable pub create_folder_structure : PluginInfo → Calls → Made PluginInfo × Calls
  create_folder_structure info calls =
      if lib.folders_created calls
      then (made info, create_folders ∷ calls)
      else (folder_error, calls)

  unfoldable pub init_core : Calls → Made PluginInfo × Calls
  init_core calls =
      let (e, info) = lib.core_get_version in
      if is_failure e
      then (failed e, calls)
      else if is_failure (lib.core_starts calls)
      then (failed (lib.core_starts calls), core_startup ∷ calls)
      else create_folder_structure info (core_startup ∷ calls)

  -- `Core(shared_object_t, …)`
  unfoldable pub core_from_handle : Calls → Made PluginInfo × Calls
  core_from_handle calls = init_core calls

  -- `Core(const std::string& lib_path, …)`
  unfoldable pub core_from_file : Text → Calls → Made PluginInfo × Calls
  core_from_file lib_path calls =
      if lib.file_loads lib_path then init_core calls else (failed lib_load_failed, calls)

  -- `~Core()`: a failure is logged.
  unfoldable pub destroy_core : Calls → Calls
  destroy_core calls = core_shutdown ∷ calls

  -- An exception in the body of a delegating constructor destroys the object.
  unfoldable pub or_destroyed : Made PluginInfo × Calls → Made PluginInfo × Calls
  or_destroyed (made info, calls) = (made info, calls)
  or_destroyed (failed e, calls) = (failed e, destroy_core calls)
  or_destroyed (folder_error, calls) = (folder_error, destroy_core calls)

  -- the body of `Core(root_path, data_path)`, behind the constructor to which it delegates
  unfoldable pub init_again : Made PluginInfo × Calls → Made PluginInfo × Calls
  init_again (made info, calls) = or_destroyed (init_core calls)
  init_again (failed e, calls) = (failed e, calls)
  init_again (folder_error, calls) = (folder_error, calls)

  -- `Core(std::string root_path, std::string data_path)`
  unfoldable pub core_from_process : Calls → Made PluginInfo × Calls
  core_from_process calls = init_again (core_from_handle calls)

  -- `Plugin::get_plugin_info`: the error of the call is not looked at.
  unfoldable pub get_plugin_info : Text → PluginInfo
  get_plugin_info file = if lib.file_loads file then (lib.plugin_get_version file).1 else no_info

  unfoldable pub init_plugin : Text → Calls → Made PluginInfo × Calls
  init_plugin file calls =
      let (e, info) = lib.plugin_get_version file in
      if is_failure e
      then (failed e, calls)
      else if is_failure (lib.plugin_starts calls file)
      then (failed (lib.plugin_starts calls file), plugin_startup file ∷ calls)
      else (made info, plugin_startup file ∷ calls)

  -- `Plugin(Core&, const std::string& lib_path)`
  unfoldable pub make_plugin : Text → Calls → Made PluginInfo × Calls
  make_plugin file calls =
      if lib.file_loads file then init_plugin file calls else (failed lib_load_failed, calls)
