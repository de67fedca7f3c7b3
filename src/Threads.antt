-- ===== src/Threads.antt =====
-- reimpl/pthr.c: the locks, the threads and the semaphores of the game on those of the Vita.
pub mod Objects
pub mod Table
pub mod Sound
pub mod Operations
pub mod Legal
pub mod Runs
pub mod Race
pub mod Alone
pub mod Overlap
pub mod FirstLocks
pub mod Frame
pub mod Once
pub mod Safe
pub mod Order
pub mod Progress
pub mod Attributes
pub mod AttributeRuns
pub mod Semaphores
mod Tests
