-- ===== src/Log.antt =====
-- The logging part of the tutorial server in its last version (code/day29/log).
pub mod FixedBuffer
pub mod LogStream
pub mod LogFile
pub mod AsyncLogging
