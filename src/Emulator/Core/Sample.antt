-- ===== src/Emulator/Core/Sample.antt =====
-- A core and plugins for the tests: the core refuses to start while it runs, and every file is a plugin
-- for the video.
use net64_coop.Prelude.{true, [], ◌∷◌}
use net64_coop.Emulator.Error.{Error, success, already_init}
use net64_coop.Emulator.Core.{gfx, core_type, no_info, Calls, core_startup, core_shutdown, Library}

unfoldable pub start_code : Calls → Error
start_code [] = success
start_code (core_startup ∷ calls) = already_init
start_code (core_shutdown ∷ calls) = success
start_code (c ∷ calls) = start_code calls

abbrev pub lib : Library
lib = record {
  core_get_version = (success, record no_info { type = core_type });
  core_starts = start_code;
  folders_created = λ calls. true;
  core_attaches = λ calls t. success;
  file_loads = λ file. true;
  plugin_get_version = λ file. (success, record no_info { type = gfx });
  plugin_starts = λ calls file. success;
}
