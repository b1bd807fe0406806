-- ===== src/Scheduler/Covering.antt =====
-- Which coming runs are covered, and the steps of the timers and of the requests. (scheduler/index.ts)
use dreamux.Base.{
  ℕ, ◌≡◌, sym, ap, ◌∙◌, String, String-discrete, Bool, true, false, ◌&&◌, ◌||◌, none, some, List,
  [], ◌∷◌, ◌==◌, nat_eq, exists, exists-append, Option-cases, inl, inr, arith,
}
use dreamux.Base.Dict.{lookup, remove, lookup-remove}
use dreamux.Scheduler.Store.{CronJob, find_job}
use dreamux.Scheduler.Service.{
  Calendar, SchedulerService, CronCreateRequest, CronUpdateRequest, same_time, created_row,
  updated_row, Starting, loading, reconciling, proceed_start, create, update, delete,
}
use dreamux.Scheduler.Fire.{take_nth, fire, submit_due, dispatch}
use dreamux.Scheduler.Rows.{
  find_job_id, find_job-replace_job, find_job-append, find_job-delete_job, lookup-arm,
  exists-take_nth,
}
use dreamux.Scheduler.Starting.{due_time, same_time_refl, is_ready, armed_timer}

-- An admitted fire of the job, of this generation.
abbrev pub is_queued : String → ℕ → String × ℕ → Bool
is_queued id generation entry = entry.0 == id && nat_eq entry.1 generation

-- A submitted fire of the job, of this generation and for this run.
abbrev pub is_flying : String → ℕ → ℕ → CronJob × ℕ → Bool
is_flying id generation t entry =
    entry.0.id == id && nat_eq entry.1 generation && same_time entry.0.next_run_at (some t)

-- A timer is set for the run, or its fire is admitted or submitted.
unfoldable pub is_covered : SchedulerService → String → ℕ → Bool
is_covered s id t =
    same_time (lookup id s.timers) (some t)
    || exists (is_queued id s.lifecycle_generation) s.admitted
    || exists (is_flying id s.lifecycle_generation t) s.in_flight

-- The coming runs of a service that runs and is not closing are covered.
abbrev pub IsStanding : SchedulerService → Type 0
IsStanding s =
    (id : String) (t : ℕ)
    → s.running ≡ true
    → s.is_closing ≡ false
    → due_time (find_job id s.jobs) ≡ some t
    → is_covered s id t ≡ true

pub fire-IsStanding :
    (key : String) (now : ℕ) (s : SchedulerService) → IsStanding s → IsStanding (fire key now s)
unfolding fire is_covered
fire-IsStanding key now s v = λ id t up accepting due.
    let gone = lookup-remove key id s.timers in
    let more =
      exists-append (is_queued id s.lifecycle_generation) s.admitted
        ((key, s.lifecycle_generation) ∷ []) in
    ground (arith, v id t)

pub delete-IsStanding :
    (key : String) (s : SchedulerService) → IsStanding s → IsStanding (delete key true s)
unfolding delete is_covered
delete-IsStanding key s v = λ id t up accepting due.
    let gone = lookup-remove key id s.timers in
    let less = find_job-delete_job id key s.jobs in ground (arith, v id t)

submit_due-IsStanding :
    (n : ℕ) (key : String) (generation : ℕ) (others : List (String × ℕ)) (s : SchedulerService)
    → take_nth n s.admitted ≡ some ((key, generation), others)
    → IsStanding s
    → IsStanding (submit_due key generation (record s { admitted = others }))
unfolding submit_due is_covered
submit_due-IsStanding n key generation others s taken v = λ id t up accepting due.
    let queued =
      exists-take_nth (is_queued id s.lifecycle_generation) n s.admitted (key, generation) others
        taken in
    elim (Option-cases (find_job key s.jobs)) [
      | inl e ↦ elim (String-discrete key id) [
        | yes same ↦ ground (arith, v id t)
        | no differ ↦ ground (arith, v id t)
      ]
      | inr (job, e) ↦
          let more =
            exists-append (is_flying id s.lifecycle_generation t) s.in_flight
              ((job, generation) ∷ []) in
          let named = find_job_id key s.jobs job e in
          let whole = same_time_refl job.next_run_at in
          elim (String-discrete key id) [
            | yes same ↦
                let here : find_job id s.jobs ≡ some job =
                  ap (λ k. find_job k s.jobs) (sym same) ∙ e in
                ground (arith, v id t)
            | no differ ↦ ground (arith, v id t)
          ]
    ]

pub dispatch-IsStanding : (n : ℕ) (s : SchedulerService) → IsStanding s → IsStanding (dispatch n s)
unfolding dispatch
dispatch-IsStanding n s v = elim (Option-cases (take_nth n s.admitted)) [
  | inl e ↦ rw (dispatch, e) v
  | inr (((key, generation), others), e) ↦
      rw (dispatch, e) (submit_due-IsStanding n key generation others s e v)
]

module _ (calendar : Calendar) where
  pub proceed_start-IsStanding :
      (now : ℕ) (pending : Starting) (s : SchedulerService)
      → s.running ≡ false
      → ((id : String) → is_ready pending s.jobs id ≡ true)
      → IsStanding (proceed_start calendar now pending s)
  unfolding proceed_start is_covered
  proceed_start-IsStanding now loading s halted ready = λ id t up accepting due. ground arith
  proceed_start-IsStanding now (reconciling (key ∷ ids) armable) s halted ready =
      λ id t up accepting due. ground arith
  proceed_start-IsStanding now (reconciling [] armable) s halted ready = λ id t up accepting due.
      let set = armed_timer armable s.jobs s.timers id t (ready id) due in
      let whole = same_time_refl (some t) in ground arith

  pub create-IsStanding :
      (input : CronCreateRequest) (now : ℕ) (s : SchedulerService)
      → find_job input.new_id s.jobs ≡ none
      → IsStanding s
      → IsStanding (create calendar input now s)
  unfolding create is_covered
  create-IsStanding input now s fresh v = λ id t up accepting due.
      let job = created_row calendar input now in
      let rows = find_job-append id s.jobs job in
      let set = lookup-arm id s.running job s.timers in
      let whole = same_time_refl (some t) in
      elim (String-discrete input.new_id id) [
        | no differ ↦ ground (arith, v id t)
        | yes same ↦
            let new : find_job id s.jobs ≡ none = ap (λ k. find_job k s.jobs) (sym same) ∙ fresh in
            ground (arith, v id t)
      ]

  pub update-IsStanding :
      (input : CronUpdateRequest) (now : ℕ) (s : SchedulerService)
      → IsStanding s
      → IsStanding (update calendar input now s)
  unfolding update is_covered
  update-IsStanding input now s v = λ id t up accepting due.
      elim (Option-cases (find_job input.job_id s.jobs)) [
        | inl e ↦ ground (arith, v id t)
        | inr (current, e) ↦
            let next = updated_row calendar input now current in
            let named = find_job_id input.job_id s.jobs current e in
            let same : next.id ≡ input.job_id = named in
            let rows = find_job-replace_job id input.job_id next s.jobs current same e in
            let set = lookup-arm id s.running next (remove next.id s.timers) in
            let gone = lookup-remove next.id id s.timers in
            let whole = same_time_refl (some t) in
            elim (String-discrete input.job_id id) [
              | no differ ↦ ground (arith, v id t)
              | yes here ↦ ground (arith, v id t)
            ]
      ]
