-- ===== src/Scheduler/Starting.antt =====
-- The timers that `start` sets. (scheduler/index.ts)
use dreamux.Base.{
  includes, ◌++◌, ◌⊎◌, ℕ, ◌≡◌, refl, String, Bool, true, false, not, ◌||◌, Option, none, some, List,
  [], ◌∷◌, if◌then◌else◌, ◌==◌, Bool-cases, inl, inr, arith,
}
use dreamux.Base.Dict.{lookup}
use dreamux.Scheduler.Store.{CronJob, find_job, apply_missed}
use dreamux.Scheduler.Service.{
  Calendar, arm_row, is_set, reconciled, arm_all, same_time, Starting, loading, reconciling,
  job_ids, as_list, arm,
}
use dreamux.Scheduler.Rows.{find_job-apply_missed, apply_missed-id, lookup-arm}

-- The run that a row waits for.
abbrev pub due_time : Option CronJob → Option ℕ
due_time none = none
due_time (some row) = if row.enabled then row.next_run_at else none

-- A timer is set for the run that is waited for, if any is.
abbrev pub is_synced : Option ℕ → Option ℕ → Bool
is_synced due set = not (is_set due) || same_time set due

pub same_time_refl : (t : Option ℕ) → same_time t t ≡ true
same_time_refl none = refl
same_time_refl (some t) = ground arith

pub same_time-some : (o : Option ℕ) (t : ℕ) → same_time o (some t) ≡ true → o ≡ some t
same_time-some none t h = ground arith
same_time-some (some u) t h = ground arith

listed_or_missing :
    (id : String) (jobs : List CronJob) (set : Option ℕ)
    → includes id (job_ids jobs) || is_synced (due_time (find_job id jobs)) set ≡ true
unfolding find_job job_ids
listed_or_missing id [] set = refl
listed_or_missing id (job ∷ jobs) set = ground (arith, listed_or_missing id jobs set)

-- A pending start is ready for a job: it has yet to reconcile it, or will arm its coming run.
unfoldable pub is_ready : Starting → List CronJob → String → Bool
unfolding find_job arm_all
is_ready loading jobs id = true
is_ready (reconciling ids armable) jobs id =
    includes id ids || is_synced (due_time (find_job id jobs)) (lookup id (arm_all armable []))

-- At most one start is pending, of a service that does not run, and it is ready for every job.
abbrev pub IsReady : List Starting → Bool → List CronJob → Type 0
IsReady [] running jobs = Unit {0}
IsReady (pending ∷ []) running jobs =
    (running ≡ false) × ((id : String) → is_ready pending jobs id ≡ true)
IsReady (pending ∷ other ∷ more) running jobs = ⊥

-- The jobs have lost coming runs at most.
pub fewer-IsReady :
    (starting : List Starting) (running : Bool) (before after : List CronJob)
    → ((id : String)
        → (due_time (find_job id after) ≡ none)
          ⊎ (due_time (find_job id after) ≡ due_time (find_job id before)))
    → IsReady starting running before
    → IsReady starting running after
unfolding is_ready
fewer-IsReady [] running before after same v = tt
fewer-IsReady (loading ∷ []) running before after same v = (v.0, λ id. refl)
fewer-IsReady (reconciling ids armable ∷ []) running before after same v = (
  v.0,
  λ id. let ready = v.1 id in elim (same id) [ inl gone ↦ ground arith | inr kept ↦ ground arith ],
)
fewer-IsReady (pending ∷ other ∷ more) running before after same v = elim v [ ]

arm_all-append :
    (rows : List CronJob) (row : Option CronJob) (timers : List (String × ℕ))
    → arm_all (rows ++ as_list row) timers ≡ arm_row true row (arm_all rows timers)
unfolding arm_all arm_row
arm_all-append [] none timers = refl
arm_all-append [] (some job) timers = refl
arm_all-append (r ∷ rows) row timers = arm_all-append rows row (arm true r timers)

-- A timer that the loop sets does not depend on those before it.
arm_all_set :
    (rows : List CronJob) (a b : List (String × ℕ)) (id : String) (t : ℕ)
    → (lookup id a ≡ some t → lookup id b ≡ some t)
    → lookup id (arm_all rows a) ≡ some t
    → lookup id (arm_all rows b) ≡ some t
unfolding arm_all
arm_all_set [] a b id t same h = same h
arm_all_set (r ∷ rows) a b id t same h =
    let in_a = lookup-arm id true r a in
    let in_b = lookup-arm id true r b in
    arm_all_set rows (arm true r a) (arm true r b) id t (λ g. ground (arith, same)) h

arm_row_sync :
    (id key : String) (row : Option CronJob) (timers : List (String × ℕ)) (due : Option ℕ)
    → ((job : CronJob) → row ≡ some job → job.id ≡ key)
    → (key == id || is_synced due (lookup id timers)) ≡ true
    → is_synced (if key == id then due_time row else due) (lookup id (arm_row true row timers))
      ≡ true
unfolding arm_row
arm_row_sync id key none timers due named h = ground arith
arm_row_sync id key (some job) timers due named h =
    let law = lookup-arm id true job timers in
    let same = named job refl in let whole = same_time_refl (due_time (some job)) in ground arith

module _ (calendar : Calendar) where
  reconcile_sync :
      (now : ℕ) (key id : String) (jobs : List CronJob) (timers : List (String × ℕ))
      → (key == id || is_synced (due_time (find_job id jobs)) (lookup id timers)) ≡ true
      → is_synced
          (due_time (find_job id (apply_missed key now (reconciled calendar now) jobs).0))
          (lookup id (arm_row true (apply_missed key now (reconciled calendar now) jobs).1 timers))
        ≡ true
  reconcile_sync now key id jobs timers h =
      let row = (apply_missed key now (reconciled calendar now) jobs).1 in
      let law = find_job-apply_missed key id now (reconciled calendar now) jobs in
      let set =
        arm_row_sync id key row timers (due_time (find_job id jobs))
          (apply_missed-id key now (reconciled calendar now) jobs) h in
      ground arith

  -- One more job is reconciled, and will be armed.
  pub reconcile_ready :
      (now : ℕ) (key id : String) (ids : List String) (armable jobs : List CronJob)
      → is_ready (reconciling (key ∷ ids) armable) jobs id ≡ true
      → is_ready
          (reconciling ids
            (armable ++ as_list (apply_missed key now (reconciled calendar now) jobs).1))
          (apply_missed key now (reconciled calendar now) jobs).0
          id
        ≡ true
  unfolding is_ready
  reconcile_ready now key id ids armable jobs h =
      let row = (apply_missed key now (reconciled calendar now) jobs).1 in
      let more = arm_all-append armable row [] in
      elim (Bool-cases (includes id ids)) [
        | inl later ↦ ground arith
        | inr last ↦
            let set = reconcile_sync now key id jobs (arm_all armable []) (ground arith) in
            ground arith
      ]

-- The list of the jobs is ready for each of them.
pub listed_ready :
    (jobs : List CronJob) (id : String) → is_ready (reconciling (job_ids jobs) []) jobs id ≡ true
unfolding is_ready
listed_ready jobs id = listed_or_missing id jobs (lookup id (arm_all [] []))

-- Once all are reconciled, each coming run has its timer.
pub armed_timer :
    (armable jobs : List CronJob) (timers : List (String × ℕ)) (id : String) (t : ℕ)
    → is_ready (reconciling [] armable) jobs id ≡ true
    → due_time (find_job id jobs) ≡ some t
    → lookup id (arm_all armable timers) ≡ some t
unfolding is_ready lookup
armed_timer armable jobs timers id t ready due =
    let set = same_time-some (lookup id (arm_all armable [])) t (ground arith) in
    arm_all_set armable [] timers id t (λ h. ground arith) set
