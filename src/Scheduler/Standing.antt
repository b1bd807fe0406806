-- ===== src/Scheduler/Standing.antt =====
-- The coming runs of a scheduler that runs. (scheduler/index.ts)
use dreamux.Scheduler.Fire.{proceeds, proceeds}
