-- ===== src/Registry.antt =====
-- preferences_store.inc and preferences_jni.inc: the registry of saved values, in memory, in the
-- queue of the save worker and on the memory card.
pub mod Table
pub mod FileName
pub mod Files
pub mod Load
pub mod Api
pub mod Queue
mod Tests
