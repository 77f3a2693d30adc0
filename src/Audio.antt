-- ===== src/Audio.antt =====
-- The audio component, audio/ and rtos_apps/audio/ of the repository.
pub mod Buffer
pub mod Pipeline
pub mod Response
pub mod Routing
pub mod App
pub mod Commands
pub mod Pll
pub mod Avtp
pub mod Sai
pub mod Avb
