-- ===== src/Scheduler/Fire.antt =====
-- scheduler/index.ts: one fire of a job, and runs of the service.
use dreamux.Base.{
  ℕ, zero, suc, String, Bool, true, false, not, ◌&&◌, Option, none, some, List, [], ◌∷◌, ◌++◌,
  if◌then◌else◌, ltb, nat_eq,
}
use dreamux.Base.Dict.{lookup, remove}
use dreamux.Ledger.Admission.{AdmissionStatus, commits}
use dreamux.Scheduler.Store.{CronJob, find_job, set_fired, apply_missed}
use dreamux.Scheduler.Service.{
  Calendar, SchedulerService, CronCreateRequest, CronUpdateRequest, arm_row, is_set, fired_outcome,
  missed_outcome, start, proceed_start, stop, destroy, create, update, delete,
}

-- The n-th of a list, and the others.
unfoldable pub take_nth {ℓ} : {A : Type ℓ} → ℕ → List A → Option (A × List A)
take_nth n [] = none
take_nth zero (x ∷ xs) = some (x, xs)
take_nth (suc n) (x ∷ xs) = elim (take_nth n xs) [
  | none ↦ none
  | some (found, others) ↦ some (found, x ∷ others)
]

-- The timer of a job runs out: a due job goes to the fence, which may refuse it.
unfoldable pub fire : String → ℕ → SchedulerService → SchedulerService
fire id now s = elim (lookup id s.timers) [
  | none ↦ s
  | some due_at ↦
      if ltb now due_at
      then s
      else if s.is_closing
      then record s { timers = remove id s.timers }
      else record s {
        timers = remove id s.timers;
        admitted = s.admitted ++ (id, s.lifecycle_generation) ∷ [];
      }
]

-- `dispatch` up to the call of the recipient.
unfoldable pub submit_due : String → ℕ → SchedulerService → SchedulerService
unfolding find_job
submit_due id generation s =
    if not (nat_eq generation s.lifecycle_generation) then s else elim (find_job id s.jobs) [
      | none ↦ s
      | some job ↦
          if job.enabled
          then record s {
            fire_seq = suc s.fire_seq;
            submissions = s.submissions ++ (job.id, suc s.fire_seq) ∷ [];
            in_flight = s.in_flight ++ (job, generation) ∷ [];
          }
          else s
    ]

unfoldable pub dispatch : ℕ → SchedulerService → SchedulerService
unfolding take_nth submit_due
dispatch n s = elim (take_nth n s.admitted) [
  | none ↦ s
  | some ((id, generation), others) ↦ submit_due id generation (record s { admitted = others })
]

abbrev pub was_accepted : Option AdmissionStatus → Bool
was_accepted none = false
was_accepted (some status) = commits status

module _ (calendar : Calendar) where
  abbrev pub is_advanced : CronJob → ℕ → Option CronJob → Bool
  is_advanced job now none = false
  is_advanced job now (some current) = is_set (fired_outcome calendar job now current)

  unfoldable pub rearm_fired : CronJob → ℕ → ℕ → SchedulerService → SchedulerService
  unfolding find_job set_fired fired_outcome arm_row
  rearm_fired job now generation s =
      let updated = set_fired job.id now (fired_outcome calendar job now) s.jobs in
      record s {
        jobs = updated.0;
        timers =
            if is_advanced job now (find_job job.id s.jobs)
              && nat_eq generation s.lifecycle_generation
            then arm_row s.running updated.1 s.timers
            else s.timers;
      }

  unfoldable pub rearm_missed : CronJob → ℕ → ℕ → SchedulerService → SchedulerService
  unfolding apply_missed missed_outcome arm_row
  rearm_missed job now generation s =
      if not (nat_eq generation s.lifecycle_generation)
      then s
      else (let updated = apply_missed job.id now (missed_outcome calendar now) s.jobs in
          record s { jobs = updated.0; timers = arm_row s.running updated.1 s.timers })

  -- The answer of the recipient, none where it threw, and whether the fired write and the missed
  -- write succeed.
  unfoldable pub settle_fire :
      Option AdmissionStatus → ℕ → Bool → Bool → CronJob → ℕ → SchedulerService → SchedulerService
  unfolding rearm_fired rearm_missed
  settle_fire answer now fired_written missed_written job generation s =
      if was_accepted answer && fired_written
      then rearm_fired job now generation s
      else if missed_written
      then rearm_missed job now generation s
      else s

  unfoldable pub settle :
      ℕ → Option AdmissionStatus → ℕ → Bool → Bool → SchedulerService → SchedulerService
  unfolding take_nth settle_fire
  settle n answer now fired_written missed_written s = elim (take_nth n s.in_flight) [
    | none ↦ s
    | some ((job, generation), others) ↦
        settle_fire answer now fired_written missed_written job generation
          (record s { in_flight = others })
  ]

module _ (calendar : Calendar) where
  -- The n-th pending start goes on, or fails in the store.
  unfoldable pub proceed : ℕ → ℕ → Bool → SchedulerService → SchedulerService
  unfolding take_nth proceed_start
  proceed n now done s = elim (take_nth n s.starting) [
    | none ↦ s
    | some (pending, others) ↦
        if done
        then proceed_start calendar now pending (record s { starting = others })
        else record s { starting = others }
  ]

pub data Event : Type 0 where
  starts stops destroys closes : Event
  proceeds : ℕ → ℕ → Bool → Event
  creates : CronCreateRequest → ℕ → Event
  updates : CronUpdateRequest → ℕ → Event
  deletes : String → Bool → Event
  fires : String → ℕ → Event
  dispatches : ℕ → Event
  settles : ℕ → Option AdmissionStatus → ℕ → Bool → Bool → Event

module _ (calendar : Calendar) where
  unfoldable pub step : SchedulerService → Event → SchedulerService
  unfolding start proceed stop destroy create update delete fire dispatch settle
  step s starts = start s
  step s (proceeds n now done) = proceed calendar n now done s
  step s stops = stop s
  step s destroys = destroy s
  step s closes = record s { is_closing = true }
  step s (creates input now) = create calendar input now s
  step s (updates input now) = update calendar input now s
  step s (deletes id durable) = delete id durable s
  step s (fires id now) = fire id now s
  step s (dispatches n) = dispatch n s
  step s (settles n answer now fired_written missed_written) =
      settle calendar n answer now fired_written missed_written s

  unfoldable pub run : SchedulerService → List Event → SchedulerService
  unfolding step
  run s [] = s
  run s (e ∷ es) = run (step s e) es

unfoldable pub initial : List CronJob → SchedulerService
initial jobs = record {
  jobs = jobs;
  timers = [];
  fire_seq = 0;
  running = false;
  starting = [];
  lifecycle_generation = 0;
  is_closing = false;
  admitted = [];
  in_flight = [];
  submissions = [];
}
