-- ===== src/Emulator.antt =====
-- src/net64/emulator: the emulator behind Net64, Mupen64Plus.
pub mod Error
pub mod Memory
pub mod Lifecycle
pub mod Controllers
pub mod Core
pub mod Plugins
pub mod Preparation
pub mod CoreConfig
pub mod Settings
pub mod Inputs
pub mod Analog
pub mod Bindings
