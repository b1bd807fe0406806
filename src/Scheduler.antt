-- ===== src/Scheduler.antt =====
-- packages/dreamux/src/service/scheduler: the cron jobs of one owner (store.ts) and the service that
-- arms and fires them (index.ts).
--
-- The cron parser, a third-party package, and the rules of a schedule, which use it, are a parameter. The
-- clock is an argument of each step. A call of the store is one step, as it is on the store's tail. A
-- `start` has a step for the list, one for each reconciliation, and one that runs the service and
-- arms the rows; other steps may come between them, and the step after an await may come later than
-- in the code. A fire has three: its timer runs out, it is dispatched, it settles.
pub mod Store
pub mod Service
pub mod Fire
pub mod Rows
pub mod Generations
pub mod Stopping
pub mod Settling
pub mod Starting
pub mod Covering
pub mod Fair
pub mod Pending
pub mod Beside
pub mod Standing
mod Tests
