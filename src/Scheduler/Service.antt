-- ===== src/Scheduler/Service.antt =====
-- scheduler/index.ts: SchedulerService.
use dreamux.Base.{
  ℕ, suc, String, Bool, true, false, not, ◌&&◌, ◌||◌, Option, none, some, List, [], ◌∷◌, ◌++◌,
  if◌then◌else◌, ◌==◌, ltb, nat_eq,
}
use dreamux.Base.Dict.{insert, remove}
use dreamux.Scheduler.Store.{
  CronJob, Advance, find_job, replace_job, delete_job, or_kept, apply_missed,
}

-- The cron package: the next run after an instant, and whether a schedule obeys the rules.
pub record Calendar : Type 0 where
  pub next_run_after : String → String → ℕ → Option ℕ
  pub is_valid : String → String → Bool → Bool

-- A start that waits: for the list of the jobs, or for a reconciliation, with the ids that are still
-- to reconcile and the rows to arm.
pub data Starting : Type 0 where
  loading : Starting
  reconciling : List String → List CronJob → Starting

-- A fire that the fence admitted has the generation that its timer saw; one in flight has the row
-- that was submitted.
pub record SchedulerService : Type 0 where
  pub jobs : List CronJob
  pub timers : List (String × ℕ)
  pub fire_seq : ℕ
  pub running : Bool
  pub lifecycle_generation : ℕ
  pub starting : List Starting
  pub is_closing : Bool
  pub admitted : List (String × ℕ)
  pub in_flight : List (CronJob × ℕ)
  pub submissions : List (String × ℕ)

pub record CronCreateRequest : Type 0 where
  pub new_id : String
  pub new_title : Option String
  pub new_cron : String
  pub new_tz : String
  pub new_recurring : Bool
  pub new_prompt : String

-- Of `title` the outer option says whether it is given, the inner one whether it is not null.
pub record CronUpdateRequest : Type 0 where
  pub job_id : String
  pub set_title : Option (Option String)
  pub set_cron : Option String
  pub set_tz : Option String
  pub set_recurring : Option Bool
  pub set_prompt : Option String
  pub set_enabled : Option Bool

abbrev pub is_blank : Option String → Bool
is_blank none = false
is_blank (some t) = t == ""

abbrev pub given_title : Option (Option String) → Option String
given_title none = none
given_title (some t) = t

-- `arm`, on the timers.
unfoldable pub arm : Bool → CronJob → List (String × ℕ) → List (String × ℕ)
arm running job timers = elim job.next_run_at [
  | none ↦ remove job.id timers
  | some due_at ↦
      if running && job.enabled
      then insert job.id due_at (remove job.id timers)
      else remove job.id timers
]

unfoldable pub arm_row : Bool → Option CronJob → List (String × ℕ) → List (String × ℕ)
unfolding arm
arm_row running none timers = timers
arm_row running (some job) timers = arm running job timers

unfoldable pub stop : SchedulerService → SchedulerService
stop s = record s {
  running = false;
  lifecycle_generation = suc s.lifecycle_generation;
  timers = [];
}

unfoldable pub destroy : SchedulerService → SchedulerService
unfolding stop
destroy s = record (stop s) { jobs = [] }

abbrev pub same_time : Option ℕ → Option ℕ → Bool
same_time none none = true
same_time none (some b) = false
same_time (some a) none = false
same_time (some a) (some b) = nat_eq a b

abbrev pub is_future : Option ℕ → ℕ → Bool
is_future none now = false
is_future (some t) now = ltb now t

abbrev pub is_set {ℓ} : {A : Type ℓ} → Option A → Bool
is_set none = false
is_set (some a) = true

-- The last loop of `start`.
unfoldable pub arm_all : List CronJob → List (String × ℕ) → List (String × ℕ)
unfolding arm
arm_all [] timers = timers
arm_all (job ∷ rows) timers = arm_all rows (arm true job timers)

unfoldable pub job_ids : List CronJob → List String
job_ids [] = []
job_ids (job ∷ jobs) = job.id ∷ job_ids jobs

abbrev pub as_list {ℓ} : {A : Type ℓ} → Option A → List A
as_list none = []
as_list (some a) = a ∷ []

-- A service that does not run begins to load its jobs.
unfoldable pub start : SchedulerService → SchedulerService
start s = if s.running then s else record s { starting = s.starting ++ loading ∷ [] }

-- The timer goes before the durable delete, which may fail.
unfoldable pub delete : String → Bool → SchedulerService → SchedulerService
unfolding delete_job
delete id durable s = if s.is_closing then s else record s {
  timers = remove id s.timers;
  jobs = if durable then delete_job id s.jobs else s.jobs;
}

module _ (calendar : Calendar) where
  unfoldable pub advance_job : CronJob → ℕ → Advance
  advance_job job now =
      if job.recurring
      then record {
        advanced_enabled = none;
        advanced_next_run_at = calendar.next_run_after job.cron job.tz now;
      }
      else record { advanced_enabled = some false; advanced_next_run_at = none }

  unfoldable pub reconciled : ℕ → CronJob → Option Advance
  unfolding advance_job
  reconciled now current =
      if not current.enabled
      then none
      else if is_future current.next_run_at now
      then none
      else if not current.recurring && is_set current.next_run_at
      then some (advance_job current now)
      else some (record {
        advanced_enabled = none;
        advanced_next_run_at = calendar.next_run_after current.cron current.tz now;
      })

  unfoldable pub missed_outcome : ℕ → CronJob → Option Advance
  unfolding advance_job
  missed_outcome now current =
      if not current.enabled
      then none
      else if is_future current.next_run_at now
      then none
      else some (advance_job current now)

  unfoldable pub fired_outcome : CronJob → ℕ → CronJob → Option Advance
  unfolding advance_job
  fired_outcome job now current =
      if not current.enabled || not (same_time current.next_run_at job.next_run_at)
      then none
      else some (advance_job current now)

  -- The next step of a pending start, which is taken out of the others: the list of the jobs, the
  -- reconciliation of one, or the arming of all.
  unfoldable pub proceed_start : ℕ → Starting → SchedulerService → SchedulerService
  unfolding reconciled apply_missed job_ids arm_all
  proceed_start now loading s = record s {
    starting = s.starting ++ reconciling (job_ids s.jobs) [] ∷ [];
  }
  proceed_start now (reconciling (id ∷ ids) armable) s =
      let one = apply_missed id now (reconciled now) s.jobs in
      record s {
        jobs = one.0;
        starting = s.starting ++ reconciling ids (armable ++ as_list one.1) ∷ [];
      }
  proceed_start now (reconciling [] armable) s = record s {
    running = true;
    timers = arm_all armable s.timers;
  }

  abbrev pub created_row : CronCreateRequest → ℕ → CronJob
  created_row input now = record {
    id = input.new_id;
    title = input.new_title;
    cron = input.new_cron;
    tz = input.new_tz;
    recurring = input.new_recurring;
    prompt = input.new_prompt;
    enabled = true;
    created_at = now;
    updated_at = now;
    next_run_at = calendar.next_run_after input.new_cron input.new_tz now;
    last_fired_at = none;
  }

  unfoldable pub create : CronCreateRequest → ℕ → SchedulerService → SchedulerService
  unfolding arm
  create input now s =
      if s.is_closing
        || input.new_prompt == ""
        || is_blank input.new_title
        || not (calendar.is_valid input.new_cron input.new_tz input.new_recurring)
      then s
      else (let job = created_row input now in
          record s {
            jobs = s.jobs ++ job ∷ [];
            timers = if s.running then arm s.running job s.timers else s.timers;
          })

  -- What `update` writes over a row.
  unfoldable pub updated_row : CronUpdateRequest → ℕ → CronJob → CronJob
  updated_row input now current =
      let enabled = or_kept input.set_enabled current.enabled in
      let cron = or_kept input.set_cron current.cron in
      let tz = or_kept input.set_tz current.tz in
      record current {
        updated_at = now;
        title = or_kept input.set_title current.title;
        cron = cron;
        tz = tz;
        recurring = or_kept input.set_recurring current.recurring;
        prompt = or_kept input.set_prompt current.prompt;
        enabled = enabled;
        next_run_at = if enabled then calendar.next_run_after cron tz now else none;
      }

  abbrev pub is_valid_update : CronUpdateRequest → CronJob → Bool
  is_valid_update input current =
      not (or_kept input.set_prompt current.prompt == "")
      && not (is_blank (given_title input.set_title))
      && calendar.is_valid (or_kept input.set_cron current.cron) (or_kept input.set_tz current.tz)
          (or_kept input.set_recurring current.recurring)

  unfoldable pub update : CronUpdateRequest → ℕ → SchedulerService → SchedulerService
  unfolding find_job replace_job updated_row arm
  update input now s = elim (find_job input.job_id s.jobs) [
    | none ↦ s
    | some current ↦
        let next = updated_row input now current in
        if not s.is_closing && is_valid_update input current
        then record s {
          jobs = replace_job input.job_id next s.jobs;
          timers =
              if s.running
              then arm s.running next (remove next.id s.timers)
              else remove next.id s.timers;
        }
        else s
  ]
