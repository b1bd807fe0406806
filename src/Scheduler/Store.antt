-- ===== src/Scheduler/Store.antt =====
-- scheduler/store.ts and scheduler/types.ts: the rows and their changes.
use dreamux.Base.{
  ℕ, String, Bool, not, Option, none, some, List, [], ◌∷◌, if◌then◌else◌, ◌==◌, keep,
}

-- The action is its prompt.
pub record CronJob : Type 0 where
  pub id : String
  pub title : Option String
  pub cron : String
  pub tz : String
  pub recurring : Bool
  pub prompt : String
  pub enabled : Bool
  pub created_at : ℕ
  pub updated_at : ℕ
  pub next_run_at : Option ℕ
  pub last_fired_at : Option ℕ

-- What a settlement writes: an absent `enabled` stays as it is.
pub record Advance : Type 0 where
  pub advanced_enabled : Option Bool
  pub advanced_next_run_at : Option ℕ

unfoldable pub find_job : String → List CronJob → Option CronJob
find_job id [] = none
find_job id (job ∷ jobs) = if job.id == id then some job else find_job id jobs

-- `jobs[index] = next`, at the first job with the id.
unfoldable pub replace_job : String → CronJob → List CronJob → List CronJob
replace_job id next [] = []
replace_job id next (job ∷ jobs) =
    if job.id == id then next ∷ jobs else job ∷ replace_job id next jobs

unfoldable pub delete_job : String → List CronJob → List CronJob
delete_job id jobs = keep (λ job. not (job.id == id)) jobs

abbrev pub or_kept {ℓ} : {A : Type ℓ} → Option A → A → A
or_kept none kept = kept
or_kept (some a) kept = a

abbrev pub fired_row : CronJob → ℕ → Option Advance → CronJob
fired_row existing fired_at none = record existing {
  last_fired_at = some fired_at;
  updated_at = fired_at;
}
fired_row existing fired_at (some derived) = record existing {
  last_fired_at = some fired_at;
  updated_at = fired_at;
  next_run_at = derived.advanced_next_run_at;
  enabled = or_kept derived.advanced_enabled existing.enabled;
}

-- The rows, and the row as it stands then; none if the job is gone.
unfoldable pub set_fired :
    String → ℕ → (CronJob → Option Advance) → List CronJob → List CronJob × Option CronJob
unfolding find_job replace_job
set_fired id fired_at advance jobs = elim (find_job id jobs) [
  | none ↦ (jobs, none)
  | some existing ↦
      let next = fired_row existing fired_at (advance existing) in
      (replace_job id next jobs, some next)
]

abbrev pub missed_row : CronJob → ℕ → Advance → CronJob
missed_row existing now derived = record existing {
  next_run_at = derived.advanced_next_run_at;
  updated_at = now;
  enabled = or_kept derived.advanced_enabled existing.enabled;
}

unfoldable pub apply_missed :
    String → ℕ → (CronJob → Option Advance) → List CronJob → List CronJob × Option CronJob
unfolding find_job replace_job
apply_missed id now advance jobs = elim (find_job id jobs) [
  | none ↦ (jobs, none)
  | some existing ↦ elim (advance existing) [
    | none ↦ (jobs, some existing)
    | some derived ↦
        let next = missed_row existing now derived in (replace_job id next jobs, some next)
  ]
]
