-- ===== src/Config.antt =====
-- The reading of the configuration file: its lines and its tokens.
pub mod File
pub mod Buf
pub mod Lexer
pub mod Expect
pub mod Section
pub mod Keys
pub mod MeterType
pub mod Meters
pub mod Schedules
pub mod Definitions
pub mod Sample
mod Examples
