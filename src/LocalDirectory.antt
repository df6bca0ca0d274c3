-- ===== src/LocalDirectory.antt =====
-- packages/adapter-local-directory: the adapter that publishes into a directory.
pub mod FsSafety
pub mod Disk
pub mod Monad
pub mod History
pub mod Environment
pub mod Stage
pub mod Activate
pub mod Observe
pub mod Safety
pub mod Publishing
