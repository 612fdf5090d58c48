-- ===== src/Emulator/Core/Tests.antt =====
-- The theorems at a core that refuses to start while it runs.
use net64_coop.Prelude.{refl, []}
use net64_coop.Text.{codes}
use net64_coop.Emulator.Core.{core_from_process, is_failure, core_from_file}
use net64_coop.Emulator.Core.Sample.{start_code, lib}
use net64_coop.Emulator.Core.Startup.{
  Leaves, LeavesNone, core_from_file-Leaves, core_from_process_fails,
}

core_from_file-Leaves_example : Leaves lib [] (core_from_file lib (codes "core.so") [])
core_from_file-Leaves_example = core_from_file-Leaves lib [] (codes "core.so")

core_from_process_fails_example : LeavesNone lib [] (core_from_process lib [])
unfolding start_code is_failure
core_from_process_fails_example = core_from_process_fails lib [] refl
