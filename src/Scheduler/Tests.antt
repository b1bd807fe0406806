-- ===== src/Scheduler/Tests.antt =====
-- A job that fires every minute. (scheduler/index.ts)
use dreamux.Base.{◌+◌, ◌≡◌, refl, String-discrete, true, false, none, some, List, [], ◌∷◌}
use dreamux.Base.Dict.{lookup, insert, remove}
use dreamux.Ledger.Admission.{submitted}
use dreamux.Scheduler.Store.{CronJob, find_job, apply_missed}
use dreamux.Scheduler.Service.{
  Calendar, SchedulerService, CronCreateRequest, CronUpdateRequest, stop, create, update, start,
  proceed_start, job_ids, arm_all, reconciled, arm,
}
use dreamux.Scheduler.Fire.{
  Event, starts, stops, proceeds, proceed, creates, updates, fires, dispatches, settles, fire,
  dispatch, settle, take_nth, step, run, initial,
}
use dreamux.Scheduler.Stopping.{stopped_never_submits}
use dreamux.Scheduler.Settling.{schedule_of, settle_keeps_newer_schedule}
use dreamux.Scheduler.Covering.{is_covered}
use dreamux.Scheduler.Fair.{is_fair}

program : Unit {0}
unfolding String-discrete lookup insert remove find_job stop create update start fire dispatch
    settle take_nth proceed proceed_start job_ids arm_all reconciled arm apply_missed step run
    initial is_covered is_fair
program = tt

abbrev minutely : Calendar
minutely = record {
  next_run_after = λ cron tz now. some (now + 60);
  is_valid = λ cron tz recurring. true;
}

abbrev request : CronCreateRequest
request = record {
  new_id = "job-1";
  new_title = none;
  new_cron = "* * * * *";
  new_tz = "UTC";
  new_recurring = true;
  new_prompt = "check the build";
}

abbrev job_1 : CronJob
job_1 = record {
  id = "job-1";
  title = none;
  cron = "* * * * *";
  tz = "UTC";
  recurring = true;
  prompt = "check the build";
  enabled = true;
  created_at = 100;
  updated_at = 100;
  next_run_at = some 160;
  last_fired_at = none;
}

abbrev pause : CronUpdateRequest
pause = record {
  job_id = "job-1";
  set_title = none;
  set_cron = none;
  set_tz = none;
  set_recurring = none;
  set_prompt = none;
  set_enabled = some false;
}

-- The start of a service without jobs: its list is read, then it runs.
abbrev after_start : List Event → List Event
after_start events = starts ∷ proceeds 0 100 true ∷ proceeds 0 100 true ∷ events

abbrev up_to_fire : List Event
up_to_fire = after_start (creates request 100 ∷ fires "job-1" 160 ∷ [])

abbrev late_events : List Event
late_events = dispatches 0 ∷ fires "job-1" 300 ∷ []

-- Without the stop the admitted fire is submitted.
fire_submits :
    (run minutely
      (initial [])
      (after_start (creates request 100 ∷ fires "job-1" 160 ∷ dispatches 0 ∷ []))).submissions
    ≡ ("job-1", 1) ∷ []
unfolding program
fire_submits = refl

stopped_never_submits_example :
    (run minutely (stop (run minutely (initial []) up_to_fire)) late_events).submissions
    ≡ (run minutely (initial []) up_to_fire).submissions
unfolding program
stopped_never_submits_example = stopped_never_submits minutely [] up_to_fire late_events refl tt

-- The stored job is listed, reconciled and armed; it fires once and is armed again.
abbrev whole_fire : List Event
whole_fire =
    starts
    ∷ proceeds 0 100 true
    ∷ proceeds 0 100 true
    ∷ proceeds 0 100 true
    ∷ fires "job-1" 160
    ∷ dispatches 0
    ∷ settles 0 (some submitted) 161 true true
    ∷ []

-- A job that is created between the list and the end of the start gets no timer.
created_beside_start :
    is_covered
      (run minutely
        (initial [])
        (starts ∷ proceeds 0 100 true ∷ creates request 100 ∷ proceeds 0 100 true ∷ []))
      "job-1"
      160
    ≡ false
unfolding program
created_beside_start = refl

-- A pending start goes on after a stop.
stopped_beside_start :
    (run minutely
      (initial [])
      (starts ∷ proceeds 0 100 true ∷ stops ∷ proceeds 0 100 true ∷ [])).running
    ≡ true
unfolding program
stopped_beside_start = refl

abbrev paused_in_flight : SchedulerService
paused_in_flight =
    run minutely (initial []) (
      after_start (creates request 100 ∷ fires "job-1" 160 ∷ dispatches 0 ∷ updates pause 161 ∷ []))

abbrev paused_job : CronJob
paused_job = record job_1 { enabled = false; updated_at = 161; next_run_at = none }

settle_keeps_newer_schedule_example :
    schedule_of
      (find_job "job-1" (settle minutely 0 (some submitted) 162 true true paused_in_flight).jobs)
    ≡ some (false, none)
unfolding program
settle_keeps_newer_schedule_example =
    settle_keeps_newer_schedule minutely paused_in_flight 0 job_1 0 [] (some submitted) 162 true
      true "job-1" paused_job refl refl refl
