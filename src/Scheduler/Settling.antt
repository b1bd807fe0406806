-- ===== src/Scheduler/Settling.antt =====
-- What a settlement leaves alone. (scheduler/index.ts, scheduler/store.ts)
use dreamux.Base.{
  String-discrete, ℕ, ◌≡◌, ap, ◌∙◌, String, Bool, true, not, ◌&&◌, ◌||◌, Option, none, some, List,
  arith,
}
use dreamux.Ledger.Admission.{AdmissionStatus}
use dreamux.Scheduler.Store.{CronJob, find_job}
use dreamux.Scheduler.Service.{
  Calendar, SchedulerService, fired_outcome, missed_outcome, is_future, same_time,
}
use dreamux.Scheduler.Fire.{take_nth, rearm_fired, rearm_missed, settle_fire, settle}
use dreamux.Scheduler.Rows.{
  find_job-set_fired, find_job-apply_missed, set_fired-row, apply_missed-row,
}

-- Whether a job runs, and when next.
abbrev pub schedule_of : Option CronJob → Option (Bool × Option ℕ)
schedule_of none = none
schedule_of (some row) = some (row.enabled, row.next_run_at)

-- The row is paused, or has a coming run that is not the one submitted.
abbrev pub is_replaced : CronJob → ℕ → CronJob → Bool
is_replaced job now row =
    not row.enabled
    || (is_future row.next_run_at now && not (same_time row.next_run_at job.next_run_at))

module _ (calendar : Calendar) where
  fired_outcome_replaced :
      (job : CronJob) (now : ℕ) (row : CronJob)
      → is_replaced job now row ≡ true
      → fired_outcome calendar job now row ≡ none
  unfolding fired_outcome
  fired_outcome_replaced job now row r = ground arith

  missed_outcome_replaced :
      (job : CronJob) (now : ℕ) (row : CronJob)
      → is_replaced job now row ≡ true
      → missed_outcome calendar now row ≡ none
  unfolding missed_outcome
  missed_outcome_replaced job now row r = ground arith

  rearm_fired_keeps :
      (job : CronJob) (now generation : ℕ) (s : SchedulerService) (id : String) (row : CronJob)
      → find_job id s.jobs ≡ some row
      → is_replaced job now row ≡ true
      → schedule_of (find_job id (rearm_fired calendar job now generation s).jobs)
        ≡ some (row.enabled, row.next_run_at)
  unfolding rearm_fired
  rearm_fired_keeps job now generation s id row found r =
      let law = find_job-set_fired job.id id now (fired_outcome calendar job now) s.jobs in
      elim (String-discrete job.id id) [
        | no differ ↦ ground arith
        | yes same ↦
            let here : find_job job.id s.jobs ≡ some row =
              ap (λ k. find_job k s.jobs) same ∙ found in
            let written =
              set_fired-row job.id now (fired_outcome calendar job now) s.jobs row here in
            let left = fired_outcome_replaced job now row r in ground arith
      ]

  rearm_missed_keeps :
      (job : CronJob) (now generation : ℕ) (s : SchedulerService) (id : String) (row : CronJob)
      → find_job id s.jobs ≡ some row
      → is_replaced job now row ≡ true
      → schedule_of (find_job id (rearm_missed calendar job now generation s).jobs)
        ≡ some (row.enabled, row.next_run_at)
  unfolding rearm_missed
  rearm_missed_keeps job now generation s id row found r =
      let law = find_job-apply_missed job.id id now (missed_outcome calendar now) s.jobs in
      elim (String-discrete job.id id) [
        | no differ ↦ ground arith
        | yes same ↦
            let here : find_job job.id s.jobs ≡ some row =
              ap (λ k. find_job k s.jobs) same ∙ found in
            let written =
              apply_missed-row job.id now (missed_outcome calendar now) s.jobs row here in
            let left = missed_outcome_replaced job now row r in ground arith
      ]

  -- Whatever the recipient answers, and whichever of the writes fail, the settlement of a fire leaves
  -- the schedule of a row alone that is paused by then, or has by then a coming run other than the
  -- one that was submitted: a paused job is not resumed, and a newer schedule is not overwritten.
  pub settle_keeps_newer_schedule :
      (s : SchedulerService) (n : ℕ) (job : CronJob) (generation : ℕ) (others : List (CronJob × ℕ))
      → (answer : Option AdmissionStatus) (now : ℕ) (fired_written missed_written : Bool)
      → (id : String) (row : CronJob) → take_nth n s.in_flight ≡ some ((job, generation), others)
      → find_job id s.jobs ≡ some row
      → is_replaced job now row ≡ true
      → schedule_of (find_job id (settle calendar n answer now fired_written missed_written s).jobs)
        ≡ some (row.enabled, row.next_run_at)
  unfolding settle settle_fire
  settle_keeps_newer_schedule s n job generation others answer now fired_written missed_written id
        row taken found r =
      let less : SchedulerService = record s { in_flight = others } in
      let fired = rearm_fired_keeps job now generation less id row found r in
      let missed = rearm_missed_keeps job now generation less id row found r in
      rw (settle, taken) (ground arith)
