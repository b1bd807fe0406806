-- ===== src/Scheduler/Beside.antt =====
-- Pending starts beside the other steps. (scheduler/index.ts)
use dreamux.Base.{
  ℕ, ◌≡◌, refl, sym, ap, ◌∙◌, String, Bool, true, false, not, ◌&&◌, ◌||◌, Option, none, some, List,
  [], ◌∷◌, nat_eq, Option-cases, Bool-cases, inl, inr, arith, String-discrete, ◌==◌,
}
use dreamux.Ledger.Admission.{AdmissionStatus}
use dreamux.Scheduler.Store.{CronJob, find_job, delete_job, set_fired}
use dreamux.Scheduler.Service.{
  Calendar, SchedulerService, Starting, create, update, delete, fired_outcome, CronCreateRequest,
  CronUpdateRequest,
}
use dreamux.Scheduler.Fire.{
  take_nth, is_advanced, was_accepted, rearm_fired, rearm_missed, settle_fire, settle, fire,
  dispatch, submit_due, settles,
}
use dreamux.Scheduler.Rows.{find_job-set_fired, set_fired-row, find_job-delete_job}
use dreamux.Scheduler.Starting.{due_time, IsReady, fewer-IsReady}
use dreamux.Scheduler.Fair.{is_idle, is_fair}

pub same-IsReady :
    (s after : SchedulerService)
    → after.starting ≡ s.starting
    → after.running ≡ s.running
    → after.jobs ≡ s.jobs
    → IsReady s.starting s.running s.jobs
    → IsReady after.starting after.running after.jobs
same-IsReady s after a b c v = rw (a, b, c) v

idle-IsReady :
    (starting : List Starting) (running : Bool) (jobs : List CronJob)
    → is_idle starting ≡ true
    → IsReady starting running jobs
idle-IsReady [] running jobs h = tt
idle-IsReady (pending ∷ others) running jobs h = ground arith

pub halted-IsReady :
    (starting : List Starting) (running : Bool) (jobs : List CronJob)
    → IsReady starting running jobs
    → IsReady starting false jobs
halted-IsReady [] running jobs v = tt
halted-IsReady (one ∷ []) running jobs v = (refl, v.1)
halted-IsReady (one ∷ two ∷ more) running jobs v = elim v [ ]

pub destroyed-IsReady :
    (starting : List Starting) (running : Bool) (jobs : List CronJob)
    → IsReady starting running jobs
    → IsReady starting false []
unfolding find_job
destroyed-IsReady starting running jobs v =
    fewer-IsReady starting false jobs [] (λ id. inl refl) (halted-IsReady starting running jobs v)

deleted-IsReady :
    (key : String) (starting : List Starting) (running : Bool) (jobs : List CronJob)
    → IsReady starting running jobs
    → IsReady starting running (delete_job key jobs)
deleted-IsReady key starting running jobs v =
    fewer-IsReady starting running jobs (delete_job key jobs)
      (λ id.
        let less = find_job-delete_job id key jobs in
        elim (Bool-cases (key == id)) [
          | inl same ↦ inl (ground arith)
          | inr differ ↦ inr (ground arith)
        ])
      v

pub delete-IsReady :
    (key : String) (s : SchedulerService)
    → IsReady s.starting s.running s.jobs
    → IsReady (delete key true s).starting (delete key true s).running (delete key true s).jobs
unfolding delete
delete-IsReady key s v = elim (Bool-cases s.is_closing) [
  | inl up ↦ same-IsReady s (delete key true s) (ground arith) (ground arith) (ground arith) v
  | inr admits ↦
      let after : SchedulerService = record s { jobs = delete_job key s.jobs } in
      same-IsReady after (delete key true s) (ground arith) (ground arith) (ground arith)
        (deleted-IsReady key s.starting s.running s.jobs v)
]

pub fire-IsReady :
    (id : String) (now : ℕ) (s : SchedulerService)
    → IsReady s.starting s.running s.jobs
    → IsReady (fire id now s).starting (fire id now s).running (fire id now s).jobs
unfolding fire
fire-IsReady id now s v =
    same-IsReady s (fire id now s) (ground arith) (ground arith) (ground arith) v

submit_due_keeps :
    (id : String) (generation : ℕ) (s : SchedulerService)
    → ((submit_due id generation s).starting ≡ s.starting)
      × ((submit_due id generation s).running ≡ s.running)
      × ((submit_due id generation s).jobs ≡ s.jobs)
unfolding submit_due
submit_due_keeps id generation s = ground arith

pub dispatch-IsReady :
    (n : ℕ) (s : SchedulerService)
    → IsReady s.starting s.running s.jobs
    → IsReady (dispatch n s).starting (dispatch n s).running (dispatch n s).jobs
unfolding dispatch
dispatch-IsReady n s v = elim (Option-cases (take_nth n s.admitted)) [
  | inl e ↦ rw (dispatch, e) v
  | inr (((key, generation), others), e) ↦
      let s' : SchedulerService = record s { admitted = others } in
      let kept = submit_due_keeps key generation s' in
      rw (dispatch, e) (same-IsReady s (submit_due key generation s') kept.0 kept.1 kept.2 v)
]

module _ (calendar : Calendar) where
  pub create-IsReady :
      (input : CronCreateRequest) (now : ℕ) (s : SchedulerService)
      → is_idle s.starting ≡ true
      → IsReady
          (create calendar input now s).starting
          (create calendar input now s).running
          (create calendar input now s).jobs
  unfolding create
  create-IsReady input now s idle = idle-IsReady _ _ _ (ground arith)

  pub update-IsReady :
      (input : CronUpdateRequest) (now : ℕ) (s : SchedulerService)
      → is_idle s.starting ≡ true
      → IsReady
          (update calendar input now s).starting
          (update calendar input now s).running
          (update calendar input now s).jobs
  unfolding update
  update-IsReady input now s idle = idle-IsReady _ _ _ (ground arith)

  unadvanced_due :
      (job : CronJob) (now : ℕ) (jobs : List CronJob) (id : String)
      → is_advanced calendar job now (find_job job.id jobs) ≡ false
      → due_time (find_job id (set_fired job.id now (fired_outcome calendar job now) jobs).0)
        ≡ due_time (find_job id jobs)
  unfolding set_fired
  unadvanced_due job now jobs id h =
      let outcome = fired_outcome calendar job now in
      let rows = find_job-set_fired job.id id now outcome jobs in
      elim (String-discrete job.id id) [
        | no differ ↦ ground arith
        | yes same ↦ elim (Option-cases (find_job job.id jobs)) [
          | inl e ↦
              let gone : find_job id jobs ≡ none = ap (λ k. find_job k jobs) (sym same) ∙ e in
              let lost : (set_fired job.id now outcome jobs).1 ≡ none = rw (set_fired, e) refl in
              ground arith
          | inr (row, e) ↦
              let here : find_job id jobs ≡ some row = ap (λ k. find_job k jobs) (sym same) ∙ e in
              let written = set_fired-row job.id now outcome jobs row e in
              elim (Option-cases (outcome row)) [
                | inl left ↦ ground arith
                | inr (derived, advanced) ↦ ground arith
              ]
        ]
      ]

  rearm_fired-IsReady :
      (job : CronJob) (generation now : ℕ) (s : SchedulerService)
      → (is_idle s.starting || not (is_advanced calendar job now (find_job job.id s.jobs))) ≡ true
      → IsReady s.starting s.running s.jobs
      → IsReady s.starting s.running (rearm_fired calendar job now generation s).jobs
  unfolding rearm_fired
  rearm_fired-IsReady job generation now s settled v = elim (Bool-cases (is_idle s.starting)) [
    | inl idle ↦ idle-IsReady _ _ _ idle
    | inr pending ↦
        fewer-IsReady s.starting s.running s.jobs (rearm_fired calendar job now generation s).jobs
          (λ id. inr (unadvanced_due job now s.jobs id (ground arith))) v
  ]

  rearm_missed-IsReady :
      (job : CronJob) (generation now : ℕ) (s : SchedulerService)
      → (is_idle s.starting || not (nat_eq generation s.lifecycle_generation)) ≡ true
      → IsReady s.starting s.running s.jobs
      → IsReady
          (rearm_missed calendar job now generation s).starting
          (rearm_missed calendar job now generation s).running
          (rearm_missed calendar job now generation s).jobs
  unfolding rearm_missed
  rearm_missed-IsReady job generation now s settled v = elim (Bool-cases (is_idle s.starting)) [
    | inl idle ↦ idle-IsReady _ _ _ (ground arith)
    | inr pending ↦
        let stale : nat_eq generation s.lifecycle_generation ≡ false = ground arith in
        same-IsReady s (rearm_missed calendar job now generation s) (ground arith) (ground arith)
          (ground arith) v
  ]

  pub settle-IsReady :
      (n : ℕ) (answer : Option AdmissionStatus) (now : ℕ) (first second : Bool)
      (s : SchedulerService)
      → is_fair calendar s (settles n answer now first second) ≡ true
      → IsReady s.starting s.running s.jobs
      → IsReady
          (settle calendar n answer now first second s).starting
          (settle calendar n answer now first second s).running
          (settle calendar n answer now first second s).jobs
  unfolding settle settle_fire is_fair rearm_fired
  settle-IsReady n answer now first second s fair v = elim (Option-cases (take_nth n s.in_flight)) [
    | inl e ↦ rw (settle, e) v
    | inr (((job, generation), others), e) ↦
        let s' : SchedulerService = record s { in_flight = others } in
        elim (Bool-cases (was_accepted answer && first)) [
          | inl h ↦
              rw (settle, e, settle_fire, h)
                (rearm_fired-IsReady job generation now s' (ground arith) v)
          | inr h ↦
              let w : second ≡ true = ground arith in
              rw (settle, e, settle_fire, h, w)
                (rearm_missed-IsReady job generation now s' (ground arith) v)
        ]
  ]
