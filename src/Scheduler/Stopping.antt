-- ===== src/Scheduler/Stopping.antt =====
-- A stopped scheduler. (scheduler/index.ts)
use dreamux.Base.{
  ℕ, suc, ◌≡◌, refl, ap, ◌∙◌, String, Bool, true, false, ◌&&◌, inl, inr, Option, none, some, List,
  [], ◌∷◌, nat_eq, Option-cases, Bool-cases, arith,
}
use dreamux.Base.Dict.{lookup, remove}
use dreamux.Scheduler.Store.{CronJob, set_fired, apply_missed, find_job}
use dreamux.Ledger.Admission.{AdmissionStatus}
use dreamux.Scheduler.Service.{
  CronCreateRequest, CronUpdateRequest, Calendar, SchedulerService, arm, arm_row, stop, destroy,
  create, update, delete, updated_row, fired_outcome, missed_outcome,
}
use dreamux.Scheduler.Fire.{
  was_accepted, take_nth, fire, submit_due, dispatch, rearm_fired, rearm_missed, settle_fire,
  settle, proceed, Event, starts, proceeds, stops, destroys, closes, creates, updates, deletes,
  fires, dispatches, settles, step, run, initial,
}
use dreamux.Scheduler.Generations.{
  AllBelow, AllUpTo-AllBelow, AllBelow-mono, AllBelow-take_nth, run-IsOrdered,
}

record IsQuiet (s : SchedulerService) : Type 0 where
  halted : s.running ≡ false
  unarmed : s.timers ≡ []
  stale : AllBelow s.lifecycle_generation s.admitted
  settled : s.starting ≡ []

arm_halted : (job : CronJob) → arm false job [] ≡ []
unfolding arm remove
arm_halted job = ground arith

arm_row_halted : (row : Option CronJob) → arm_row false row [] ≡ []
unfolding arm_row
arm_row_halted none = refl
arm_row_halted (some job) = arm_halted job

remove-nil : (id : String) → remove {A = ℕ} id [] ≡ []
unfolding remove
remove-nil id = refl

-- What a stopped service keeps in a step, and that it submits nothing.
abbrev Kept : SchedulerService → SchedulerService → Type 0
Kept s after = IsQuiet after × (after.submissions ≡ s.submissions)

stop-Kept : (s : SchedulerService) → IsQuiet s → Kept s (stop s)
unfolding stop
stop-Kept s v = (
  record {
    halted = refl;
    unarmed = refl;
    stale =
        AllBelow-mono s.lifecycle_generation (suc s.lifecycle_generation) s.admitted (omega arith)
          v.stale;
    settled = v.settled;
  },
  refl,
)

destroy-Kept : (s : SchedulerService) → IsQuiet s → Kept s (destroy s)
unfolding destroy stop
destroy-Kept s v =
    let w = stop-Kept s v in
    (record { halted = refl; unarmed = refl; stale = w.0.stale; settled = w.0.settled }, refl)

fire-Kept : (id : String) (now : ℕ) (s : SchedulerService) → IsQuiet s → Kept s (fire id now s)
unfolding fire lookup
fire-Kept id now s v = rw (fire, v.unarmed) (v, refl)

dispatch-Kept : (n : ℕ) (s : SchedulerService) → IsQuiet s → Kept s (dispatch n s)
unfolding dispatch submit_due
dispatch-Kept n s v = elim (Option-cases (take_nth n s.admitted)) [
  | inl e ↦ rw (dispatch, e) (v, refl)
  | inr (((id, generation), others), e) ↦
      let old =
        AllBelow-take_nth s.lifecycle_generation n s.admitted (id, generation) others e v.stale in
      let past : nat_eq generation s.lifecycle_generation ≡ false = ground (arith, old.0) in
      rw (dispatch, e, submit_due, past)
        (
          record { halted = v.halted; unarmed = v.unarmed; stale = old.1; settled = v.settled },
          refl,
        )
]

-- A step that leaves the fields that a stopped service stands on.
abbrev Untouched : SchedulerService → SchedulerService → Type 0
Untouched s after =
    (after.running ≡ s.running)
    × (after.starting ≡ s.starting)
    × (after.lifecycle_generation ≡ s.lifecycle_generation)
    × (after.admitted ≡ s.admitted)
    × (after.submissions ≡ s.submissions)

Untouched-Kept :
    (s after : SchedulerService) → IsQuiet s → Untouched s after → after.timers ≡ [] → Kept s after
Untouched-Kept s after v same unarmed = (
  record {
    halted = same.0 ∙ v.halted;
    unarmed = unarmed;
    stale = rw (same.2, same.3) v.stale;
    settled = same.1 ∙ v.settled;
  },
  same.4,
)

module _ (calendar : Calendar) where
  create-Kept :
      (input : CronCreateRequest) (now : ℕ) (s : SchedulerService)
      → IsQuiet s
      → Kept s (create calendar input now s)
  unfolding create
  create-Kept input now s v =
      let halted = v.halted in
      let unarmed = v.unarmed in
      Untouched-Kept s (create calendar input now s) v (ground arith) (ground arith)

  update-Kept :
      (input : CronUpdateRequest) (now : ℕ) (s : SchedulerService)
      → IsQuiet s
      → Kept s (update calendar input now s)
  unfolding update
  update-Kept input now s v =
      let halted = v.halted in
      let unarmed = v.unarmed in
      let cleared : (job : CronJob) → remove job.id s.timers ≡ [] =
        λ job. ap (remove job.id) v.unarmed ∙ remove-nil job.id in
      elim (Option-cases (find_job input.job_id s.jobs)) [
        | inl e ↦ rw (update, e) (v, refl)
        | inr (current, e) ↦
            let none_left = cleared (updated_row calendar input now current) in
            Untouched-Kept s (update calendar input now s) v (rw (update, e) (ground arith))
              (rw (update, e) (ground arith))
      ]

  delete-Kept :
      (id : String) (durable : Bool) (s : SchedulerService)
      → IsQuiet s
      → Kept s (delete id durable s)
  unfolding delete
  delete-Kept id durable s v =
      let cleared = ap (remove id) v.unarmed ∙ remove-nil id in
      let unarmed = v.unarmed in
      Untouched-Kept s (delete id durable s) v (ground arith) (ground arith)

  rearm_fired-Kept :
      (job : CronJob) (now generation : ℕ) (s : SchedulerService)
      → IsQuiet s
      → Kept s (rearm_fired calendar job now generation s)
  unfolding rearm_fired
  rearm_fired-Kept job now generation s v =
      let row = (set_fired job.id now (fired_outcome calendar job now) s.jobs).1 in
      let unarmed = v.unarmed in
      let armed : arm_row s.running row s.timers ≡ [] =
        rw (v.halted, v.unarmed) (arm_row_halted row) in
      Untouched-Kept s (rearm_fired calendar job now generation s) v (refl, refl, refl, refl, refl)
        (ground arith)

  rearm_missed-Kept :
      (job : CronJob) (now generation : ℕ) (s : SchedulerService)
      → IsQuiet s
      → Kept s (rearm_missed calendar job now generation s)
  unfolding rearm_missed
  rearm_missed-Kept job now generation s v =
      let row = (apply_missed job.id now (missed_outcome calendar now) s.jobs).1 in
      let unarmed = v.unarmed in
      let armed : arm_row s.running row s.timers ≡ [] =
        rw (v.halted, v.unarmed) (arm_row_halted row) in
      Untouched-Kept s (rearm_missed calendar job now generation s) v (ground arith) (ground arith)

  settle_fire-Kept :
      (answer : Option AdmissionStatus) (now : ℕ) (first second : Bool) (job : CronJob)
      → (generation : ℕ) (s : SchedulerService) → IsQuiet s
      → Kept s (settle_fire calendar answer now first second job generation s)
  unfolding settle_fire
  settle_fire-Kept answer now first second job generation s v =
      let fired = rearm_fired-Kept job now generation s v in
      let missed = rearm_missed-Kept job now generation s v in
      elim (Bool-cases (was_accepted answer && first)) [
        | inl h ↦ rw (settle_fire, h) fired
        | inr h ↦ elim (Bool-cases second) [
          | inl w ↦ rw (settle_fire, h, w) missed
          | inr w ↦ rw (settle_fire, h, w) (v, refl)
        ]
      ]

  settle-Kept :
      (n : ℕ) (answer : Option AdmissionStatus) (now : ℕ) (first second : Bool)
      (s : SchedulerService)
      → IsQuiet s
      → Kept s (settle calendar n answer now first second s)
  unfolding settle
  settle-Kept n answer now first second s v = elim (Option-cases (take_nth n s.in_flight)) [
    | inl e ↦ rw (settle, e) (v, refl)
    | inr (((job, generation), others), e) ↦
        let w : IsQuiet (record s { in_flight = others }) = record {
          halted = v.halted;
          unarmed = v.unarmed;
          stale = v.stale;
          settled = v.settled;
        } in
        rw (settle, e)
          (settle_fire-Kept answer now first second job generation (record s { in_flight = others })
            w)
  ]

  proceed-Kept :
      (n now : ℕ) (done : Bool) (s : SchedulerService)
      → IsQuiet s
      → Kept s (proceed calendar n now done s)
  unfolding proceed take_nth
  proceed-Kept n now done s v = rw (proceed, v.settled) (v, refl)

  abbrev pub NoStart : List Event → Type 0
  NoStart [] = Unit {0}
  NoStart (starts ∷ es) = ⊥
  NoStart (proceeds n now done ∷ es) = NoStart es
  NoStart (stops ∷ es) = NoStart es
  NoStart (destroys ∷ es) = NoStart es
  NoStart (closes ∷ es) = NoStart es
  NoStart (creates input now ∷ es) = NoStart es
  NoStart (updates input now ∷ es) = NoStart es
  NoStart (deletes id durable ∷ es) = NoStart es
  NoStart (fires id now ∷ es) = NoStart es
  NoStart (dispatches n ∷ es) = NoStart es
  NoStart (settles n answer now first second ∷ es) = NoStart es

  run_quiet :
      (s : SchedulerService) (es : List Event)
      → NoStart es
      → IsQuiet s
      → (run calendar s es).submissions ≡ s.submissions
  unfolding run step
  run_quiet s [] calm v = refl
  run_quiet s (starts ∷ es) calm v = elim calm [ ]
  run_quiet s (proceeds n now done ∷ es) calm v =
      let k = proceed-Kept n now done s v in
      run_quiet (proceed calendar n now done s) es calm k.0 ∙ k.1
  run_quiet s (stops ∷ es) calm v = let k = stop-Kept s v in run_quiet (stop s) es calm k.0 ∙ k.1
  run_quiet s (destroys ∷ es) calm v =
      let k = destroy-Kept s v in run_quiet (destroy s) es calm k.0 ∙ k.1
  run_quiet s (closes ∷ es) calm v =
      run_quiet (record s { is_closing = true }) es calm
        (record { halted = v.halted; unarmed = v.unarmed; stale = v.stale; settled = v.settled })
  run_quiet s (creates input now ∷ es) calm v =
      let k = create-Kept input now s v in run_quiet (create calendar input now s) es calm k.0 ∙ k.1
  run_quiet s (updates input now ∷ es) calm v =
      let k = update-Kept input now s v in run_quiet (update calendar input now s) es calm k.0 ∙ k.1
  run_quiet s (deletes id durable ∷ es) calm v =
      let k = delete-Kept id durable s v in run_quiet (delete id durable s) es calm k.0 ∙ k.1
  run_quiet s (fires id now ∷ es) calm v =
      let k = fire-Kept id now s v in run_quiet (fire id now s) es calm k.0 ∙ k.1
  run_quiet s (dispatches n ∷ es) calm v =
      let k = dispatch-Kept n s v in run_quiet (dispatch n s) es calm k.0 ∙ k.1
  run_quiet s (settles n answer now first second ∷ es) calm v =
      let k = settle-Kept n answer now first second s v in
      run_quiet (settle calendar n answer now first second s) es calm k.0 ∙ k.1

  -- After a stop at which no start is pending, and until the service is started again, nothing is
  -- submitted: not by a timer, not by a fire that was admitted before, and not by a settlement or a
  -- change that comes late.
  pub stopped_never_submits :
      (jobs : List CronJob) (before after : List Event)
      → (run calendar (initial jobs) before).starting ≡ []
      → NoStart after
      → (run calendar (stop (run calendar (initial jobs) before)) after).submissions
        ≡ (run calendar (initial jobs) before).submissions
  unfolding stop initial
  stopped_never_submits jobs before after settled calm =
      let s = run calendar (initial jobs) before in
      let v = run-IsOrdered calendar (initial jobs) before tt in
      run_quiet (stop s) after calm (record {
        halted = refl;
        unarmed = refl;
        stale = AllUpTo-AllBelow s.lifecycle_generation s.admitted v;
        settled = settled;
      })
