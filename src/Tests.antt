-- ===== src/Tests.antt =====
-- Runs of the definitions, and the theorems at concrete inputs.
pub mod Wire
pub mod Coding
pub mod Pool
pub mod Strings
pub mod Lists
pub mod Threads
pub mod Files
pub mod Maps
pub mod Digests
pub mod Settings
pub mod Sessions
