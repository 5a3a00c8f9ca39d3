-- ===== src/Mutex.antt =====
-- src/utils/SpinMutex.h: the spin locks, as steps of threads over the shared words of one lock.
-- A step is one atomic access, in any interleaving, sequentially consistent.
pub mod Threads
pub mod Spin
pub mod Reentrant
pub mod Shared
mod Examples
