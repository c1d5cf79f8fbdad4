-- ===== src/Sync.antt =====
-- The synchronisation classes of src/sync/sem.cpp. A critical section under the object's own mutex
-- is one step, since no other thread enters it; what a thread does outside is a step of its own,
-- so a schedule is a list of steps. `Pipe` (include/Box/sync/pipe.hpp) is a queue on top of them.
pub mod Semaphore
pub mod Event
pub mod Pipe
mod Examples
