-- ===== src/Scheduler/Rows.antt =====
-- Laws of the rows and the timers. (scheduler/store.ts, scheduler/index.ts)
use dreamux.Base.{
  ℕ, zero, suc, ◌≡◌, refl, String, Bool, ◌&&◌, ◌||◌, Option, none, some, List, [], ◌∷◌, ◌++◌,
  if◌then◌else◌, ◌==◌, exists, Option-cases, inl, inr, arith,
}
use dreamux.Base.Dict.{lookup, remove, lookup-insert, lookup-remove}
use dreamux.Scheduler.Store.{
  CronJob, find_job, replace_job, delete_job, set_fired, apply_missed, Advance, fired_row,
  missed_row,
}
use dreamux.Scheduler.Service.{arm, arm_row, same_time}
use dreamux.Scheduler.Fire.{take_nth}

abbrev pub or_else {ℓ} : {A : Type ℓ} → Option A → Option A → Option A
or_else none fallback = fallback
or_else (some a) fallback = some a

pub find_job_id :
    (id : String) (jobs : List CronJob) (job : CronJob) → find_job id jobs ≡ some job → job.id ≡ id
unfolding find_job
find_job_id id [] job h = ground arith
find_job_id id (j ∷ jobs) job h = ground (arith, find_job_id id jobs job)

pub find_job-replace_job :
    (id key : String) (next : CronJob) (jobs : List CronJob) (job : CronJob)
    → next.id ≡ key
    → find_job key jobs ≡ some job
    → find_job id (replace_job key next jobs) ≡ (if key == id then some next else find_job id jobs)
unfolding find_job replace_job
find_job-replace_job id key next [] job h e = ground arith
find_job-replace_job id key next (j ∷ jobs) job h e =
    ground (arith, find_job-replace_job id key next jobs job h)

pub find_job-append :
    (id : String) (jobs : List CronJob) (job : CronJob)
    → find_job id (jobs ++ job ∷ [])
      ≡ or_else (find_job id jobs) (if job.id == id then some job else none)
unfolding find_job
find_job-append id [] job = refl
find_job-append id (j ∷ jobs) job = ground (arith, find_job-append id jobs job)

pub find_job-delete_job :
    (id key : String) (jobs : List CronJob)
    → find_job id (delete_job key jobs) ≡ (if key == id then none else find_job id jobs)
unfolding find_job delete_job
find_job-delete_job id key [] = ground arith
find_job-delete_job id key (j ∷ jobs) = ground (arith, find_job-delete_job id key jobs)

-- A settlement writes at most one row, and returns it as it stands then.
pub find_job-set_fired :
    (key id : String) (at : ℕ) (advance : CronJob → Option Advance) (jobs : List CronJob)
    → find_job id (set_fired key at advance jobs).0
      ≡ (if key == id then (set_fired key at advance jobs).1 else find_job id jobs)
unfolding set_fired
find_job-set_fired key id at advance jobs = elim (Option-cases (find_job key jobs)) [
  | inl e ↦ rw (set_fired, e) (ground arith)
  | inr (job, e) ↦
      let next = fired_row job at (advance job) in
      let named = find_job_id key jobs job e in
      let same : next.id ≡ key = ground arith in
      rw (set_fired, e) (ground (arith, find_job-replace_job id key next jobs job same e))
]

pub find_job-apply_missed :
    (key id : String) (now : ℕ) (advance : CronJob → Option Advance) (jobs : List CronJob)
    → find_job id (apply_missed key now advance jobs).0
      ≡ (if key == id then (apply_missed key now advance jobs).1 else find_job id jobs)
unfolding apply_missed
find_job-apply_missed key id now advance jobs = elim (Option-cases (find_job key jobs)) [
  | inl e ↦ rw (apply_missed, e) (ground arith)
  | inr (job, e) ↦
      let named = find_job_id key jobs job e in
      elim (Option-cases (advance job)) [
        | inl none_due ↦ rw (apply_missed, e, none_due) (ground arith)
        | inr (derived, due) ↦
            let next = missed_row job now derived in
            rw (apply_missed, e, due)
              (ground (arith, find_job-replace_job id key next jobs job named e))
      ]
]

-- The row that a settlement returns.
pub set_fired-row :
    (key : String) (at : ℕ) (advance : CronJob → Option Advance) (jobs : List CronJob)
    (row : CronJob)
    → find_job key jobs ≡ some row
    → (set_fired key at advance jobs).1 ≡ some (fired_row row at (advance row))
unfolding set_fired
set_fired-row key at advance jobs row found = rw (set_fired, found) refl

-- The row that a miss leaves.
abbrev pub settled_row : CronJob → ℕ → Option Advance → CronJob
settled_row row now none = row
settled_row row now (some derived) = missed_row row now derived

pub apply_missed-row :
    (key : String) (now : ℕ) (advance : CronJob → Option Advance) (jobs : List CronJob)
    (row : CronJob)
    → find_job key jobs ≡ some row
    → (apply_missed key now advance jobs).1 ≡ some (settled_row row now (advance row))
unfolding apply_missed
apply_missed-row key now advance jobs row found = elim (Option-cases (advance row)) [
  | inl e ↦ rw (apply_missed, found, e) refl
  | inr (derived, e) ↦ rw (apply_missed, found, e) refl
]

pub set_fired-id :
    (key : String) (at : ℕ) (advance : CronJob → Option Advance) (jobs : List CronJob)
    → (job : CronJob) → (set_fired key at advance jobs).1 ≡ some job
    → job.id ≡ key
unfolding set_fired
set_fired-id key at advance jobs job h = elim (Option-cases (find_job key jobs)) [
  | inl e ↦ ground arith
  | inr (row, e) ↦
      let named = find_job_id key jobs row e in
      elim (Option-cases (advance row)) [
        | inl left ↦ ground arith
        | inr (derived, due) ↦ ground arith
      ]
]

pub apply_missed-id :
    (key : String) (now : ℕ) (advance : CronJob → Option Advance) (jobs : List CronJob)
    → (job : CronJob) → (apply_missed key now advance jobs).1 ≡ some job
    → job.id ≡ key
unfolding apply_missed
apply_missed-id key now advance jobs job h = elim (Option-cases (find_job key jobs)) [
  | inl e ↦ ground arith
  | inr (row, e) ↦
      let named = find_job_id key jobs row e in
      elim (Option-cases (advance row)) [
        | inl left ↦ ground arith
        | inr (derived, due) ↦ ground arith
      ]
]

-- The timer that a job has once it is armed.
abbrev pub armed_at : Bool → CronJob → Option ℕ
armed_at running job = if running && job.enabled then job.next_run_at else none

pub lookup-arm :
    (id : String) (running : Bool) (job : CronJob) (timers : List (String × ℕ))
    → lookup id (arm running job timers)
      ≡ (if job.id == id then armed_at running job else lookup id timers)
unfolding arm
lookup-arm id running job timers =
    let gone = lookup-remove job.id id timers in
    elim (Option-cases job.next_run_at) [
      | inl e ↦ ground arith
      | inr (due_at, e) ↦
          let set = lookup-insert job.id id due_at (remove job.id timers) in ground arith
    ]

-- The same for the row, if any, that the store returns for the key.
abbrev pub armed_by : Bool → Option CronJob → Option ℕ → Option ℕ
armed_by running none before = before
armed_by running (some job) before = armed_at running job

pub lookup-arm_row :
    (id key : String) (running : Bool) (row : Option CronJob) (timers : List (String × ℕ))
    → ((job : CronJob) → row ≡ some job → job.id ≡ key)
    → lookup id (arm_row running row timers)
      ≡ (if key == id then armed_by running row (lookup id timers) else lookup id timers)
unfolding arm_row
lookup-arm_row id key running none timers named = ground arith
lookup-arm_row id key running (some job) timers named =
    let law = lookup-arm id running job timers in let same = named job refl in ground arith

pub same_time_sym : (a b : Option ℕ) → same_time a b ≡ same_time b a
same_time_sym none none = refl
same_time_sym none (some b) = refl
same_time_sym (some a) none = refl
same_time_sym (some a) (some b) = ground arith

pub exists-take_nth :
    {A : Type 0}
    → (p : A → Bool) (n : ℕ) (xs : List A) (found : A) (others : List A)
    → take_nth n xs ≡ some (found, others)
    → exists p xs ≡ p found || exists p others
unfolding take_nth
exists-take_nth p n [] found others h = ground arith
exists-take_nth p zero (x ∷ xs) found others h = ground arith
exists-take_nth p (suc n) (x ∷ xs) found others h = elim (Option-cases (take_nth n xs)) [
  | inl e ↦ ground arith
  | inr ((f, os), e) ↦ ground (arith, exists-take_nth p n xs f os e)
]
