-- ===== src/Scheduler/Pending.antt =====
-- Pending starts and what holds of them. (scheduler/index.ts)
use dreamux.Base.{
  ℕ, zero, suc, ◌≡◌, refl, sym, ap, ◌∙◌, String, Bool, true, false, some, List, [], ◌∷◌, ◌++◌,
  if◌then◌else◌, Option-cases, Bool-cases, inl, inr, arith,
}
use dreamux.Scheduler.Store.{CronJob}
use dreamux.Scheduler.Service.{
  Calendar, SchedulerService, start, proceed_start, Starting, loading, reconciling,
}
use dreamux.Scheduler.Fire.{proceed, take_nth}
use dreamux.Scheduler.Starting.{IsReady, is_ready, reconcile_ready, listed_ready}
use dreamux.Scheduler.Covering.{is_covered, IsStanding, proceed_start-IsStanding}
use dreamux.Scheduler.Fair.{is_idle}

-- What holds between the steps.
abbrev pub Holds : SchedulerService → Type 0
Holds s = IsStanding s × IsReady s.starting s.running s.jobs

taken_ready :
    (n : ℕ) (starting : List Starting) (running : Bool) (jobs : List CronJob)
    → (pending : Starting) (others : List Starting) → IsReady starting running jobs
    → take_nth n starting ≡ some (pending, others)
    → (others ≡ []) × (running ≡ false) × ((id : String) → is_ready pending jobs id ≡ true)
unfolding take_nth
taken_ready n [] running jobs pending others v h = ground arith
taken_ready zero (one ∷ []) running jobs pending others v h =
    let same : one ≡ pending = ground arith in
    (ground arith, v.0, λ id. ap (λ o. is_ready o jobs id) (sym same) ∙ v.1 id)
taken_ready (suc n) (one ∷ []) running jobs pending others v h = ground arith
taken_ready n (one ∷ two ∷ more) running jobs pending others v h = elim v [ ]

idle_empty : (starting : List Starting) → is_idle starting ≡ true → starting ≡ []
idle_empty [] h = refl
idle_empty (pending ∷ others) h = ground arith

start_running : (s : SchedulerService) → s.running ≡ true → start s ≡ s
unfolding start
start_running s h =
    ap (λ running. if running then s else record s { starting = s.starting ++ loading ∷ [] }) h

start_halted :
    (s : SchedulerService)
    → s.running ≡ false
    → s.starting ≡ []
    → start s ≡ record s { starting = loading ∷ [] }
unfolding start
start_halted s h alone =
    ap (λ running. if running then s else record s { starting = s.starting ++ loading ∷ [] }) h
    ∙ ap (λ starting. record s { starting = starting ++ loading ∷ [] }) alone

pub start-Holds : (s : SchedulerService) → is_idle s.starting ≡ true → Holds s → Holds (start s)
unfolding is_ready is_covered
start-Holds s idle v = elim (Bool-cases s.running) [
  | inl up ↦ rw (start_running s up) v
  | inr halted ↦ rw (start_halted s halted (idle_empty s.starting idle)) (v.0, (halted, λ id. refl))
]

module _ (calendar : Calendar) where
  proceed_start-IsReady :
      (now : ℕ) (pending : Starting) (s : SchedulerService)
      → s.starting ≡ []
      → s.running ≡ false
      → ((id : String) → is_ready pending s.jobs id ≡ true)
      → IsReady
          (proceed_start calendar now pending s).starting
          (proceed_start calendar now pending s).running
          (proceed_start calendar now pending s).jobs
  unfolding proceed_start
  proceed_start-IsReady now loading s alone halted ready =
      rw (alone) (halted, λ id. listed_ready s.jobs id)
  proceed_start-IsReady now (reconciling (key ∷ ids) armable) s alone halted ready =
      rw (alone) (halted, λ id. reconcile_ready calendar now key id ids armable s.jobs (ready id))
  proceed_start-IsReady now (reconciling [] armable) s alone halted ready = rw (alone) tt

  pub proceed-Holds :
      (n now : ℕ) (done : Bool) (s : SchedulerService)
      → Holds s
      → Holds (proceed calendar n now done s)
  unfolding proceed is_covered
  proceed-Holds n now done s v = elim (Option-cases (take_nth n s.starting)) [
    | inl e ↦ rw (proceed, e) v
    | inr ((pending, others), e) ↦
        let one = taken_ready n s.starting s.running s.jobs pending others v.1 e in
        let s' : SchedulerService = record s { starting = others } in
        elim (Bool-cases done) [
          | inl on ↦
              rw (proceed, e, on)
                (
                  proceed_start-IsStanding calendar now pending s' one.1 one.2,
                  proceed_start-IsReady now pending s' one.0 one.1 one.2,
                )
          | inr failed ↦ rw (proceed, e, failed, one.0) (v.0, tt)
        ]
  ]
