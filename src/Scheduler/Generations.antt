-- ===== src/Scheduler/Generations.antt =====
-- The generations of admitted fires. (scheduler/index.ts)
use dreamux.Base.{
  refl, ℕ, zero, suc, ◌≤◌, ◌<◌, ◌≡◌, String, Bool, inl, inr, Option, some, List, [], ◌∷◌, ◌++◌, ltb,
  Option-cases, Bool-cases, arith,
}
use dreamux.Base.Dict.{lookup}
use dreamux.Ledger.Admission.{AdmissionStatus}
use dreamux.Scheduler.Service.{
  Calendar, SchedulerService, Starting, loading, reconciling, proceed_start, start, stop, destroy,
  create, update, delete,
}
use dreamux.Scheduler.Fire.{
  take_nth, fire, submit_due, dispatch, rearm_fired, rearm_missed, settle_fire, settle, Event,
  starts, proceeds, proceed, stops, destroys, closes, creates, updates, deletes, fires, dispatches,
  settles, step, run,
}

-- Every admitted fire has a generation up to this one.
abbrev pub AllUpTo : ℕ → List (String × ℕ) → Type 0
AllUpTo bound [] = Unit {0}
AllUpTo bound (a ∷ rest) = (a.1 ≤ bound) × AllUpTo bound rest

abbrev pub AllBelow : ℕ → List (String × ℕ) → Type 0
AllBelow bound [] = Unit {0}
AllBelow bound (a ∷ rest) = (a.1 < bound) × AllBelow bound rest

AllUpTo-mono : (a b : ℕ) (xs : List (String × ℕ)) → a ≤ b → AllUpTo a xs → AllUpTo b xs
AllUpTo-mono a b [] le all = tt
AllUpTo-mono a b (x ∷ xs) le all = (omega (arith, all.0), AllUpTo-mono a b xs le all.1)

pub AllUpTo-AllBelow : (a : ℕ) (xs : List (String × ℕ)) → AllUpTo a xs → AllBelow (suc a) xs
AllUpTo-AllBelow a [] all = tt
AllUpTo-AllBelow a (x ∷ xs) all = (omega (arith, all.0), AllUpTo-AllBelow a xs all.1)

pub AllBelow-mono : (a b : ℕ) (xs : List (String × ℕ)) → a ≤ b → AllBelow a xs → AllBelow b xs
AllBelow-mono a b [] le all = tt
AllBelow-mono a b (x ∷ xs) le all = (omega (arith, all.0), AllBelow-mono a b xs le all.1)

AllUpTo-append :
    (a : ℕ) (xs : List (String × ℕ)) (id : String) → AllUpTo a xs → AllUpTo a (xs ++ (id, a) ∷ [])
AllUpTo-append a [] id all = (omega arith, tt)
AllUpTo-append a (x ∷ xs) id all = (all.0, AllUpTo-append a xs id all.1)

AllUpTo-take_nth :
    (a n : ℕ) (xs : List (String × ℕ)) (found : String × ℕ) (others : List (String × ℕ))
    → take_nth n xs ≡ some (found, others)
    → AllUpTo a xs
    → AllUpTo a others
unfolding take_nth
AllUpTo-take_nth a n [] found others h all = ground arith
AllUpTo-take_nth a zero (x ∷ xs) found others h all = ground arith
AllUpTo-take_nth a (suc n) (x ∷ xs) found others h all = elim (Option-cases (take_nth n xs)) [
  | inl e ↦ ground arith
  | inr ((f, os), e) ↦ ground (arith, AllUpTo-take_nth a n xs f os e)
]

pub AllBelow-take_nth :
    (a n : ℕ) (xs : List (String × ℕ)) (found : String × ℕ) (others : List (String × ℕ))
    → take_nth n xs ≡ some (found, others)
    → AllBelow a xs
    → (found.1 < a) × AllBelow a others
unfolding take_nth
AllBelow-take_nth a n [] found others h all = ground arith
AllBelow-take_nth a zero (x ∷ xs) found others h all = ground arith
AllBelow-take_nth a (suc n) (x ∷ xs) found others h all = elim (Option-cases (take_nth n xs)) [
  | inl e ↦ ground arith
  | inr ((f, os), e) ↦ ground (arith, AllBelow-take_nth a n xs f os e)
]

module _ (calendar : Calendar) where
  -- An admitted fire has a generation up to the current one, in every reachable state.
  abbrev pub IsOrdered : SchedulerService → Type 0
  IsOrdered s = AllUpTo s.lifecycle_generation s.admitted

  same-IsOrdered :
      (s after : SchedulerService)
      → after.lifecycle_generation ≡ s.lifecycle_generation
      → after.admitted ≡ s.admitted
      → IsOrdered s
      → IsOrdered after
  same-IsOrdered s after g a v = rw (g, a) v

  fire-IsOrdered :
      (id : String) (now : ℕ) (s : SchedulerService) → IsOrdered s → IsOrdered (fire id now s)
  unfolding fire
  fire-IsOrdered id now s v =
      let more = AllUpTo-append s.lifecycle_generation s.admitted id v in
      elim (Option-cases (lookup id s.timers)) [
        | inl e ↦ rw (fire, e) v
        | inr (due_at, e) ↦ elim (Bool-cases (ltb now due_at)) [
          | inl early ↦ rw (fire, e, early) v
          | inr due ↦ elim (Bool-cases s.is_closing) [
            | inl closing ↦ rw (fire, e, due, closing) v
            | inr accepting ↦ rw (fire, e, due, accepting) more
          ]
        ]
      ]

  submit_due_same :
      (id : String) (generation : ℕ) (s : SchedulerService)
      → ((submit_due id generation s).lifecycle_generation ≡ s.lifecycle_generation)
        × ((submit_due id generation s).admitted ≡ s.admitted)
  unfolding submit_due
  submit_due_same id generation s = ground arith

  dispatch-IsOrdered : (n : ℕ) (s : SchedulerService) → IsOrdered s → IsOrdered (dispatch n s)
  unfolding dispatch
  dispatch-IsOrdered n s v = elim (Option-cases (take_nth n s.admitted)) [
    | inl e ↦ rw (dispatch, e) v
    | inr (((id, generation), others), e) ↦
        let less : SchedulerService = record s { admitted = others } in
        let same = submit_due_same id generation less in
        rw (dispatch, e)
          (same-IsOrdered less (submit_due id generation less) same.0 same.1
            (AllUpTo-take_nth s.lifecycle_generation n s.admitted (id, generation) others e v))
  ]

  settle_same :
      (n : ℕ) (answer : Option AdmissionStatus) (now : ℕ) (first second : Bool)
      (s : SchedulerService)
      → ((settle calendar n answer now first second s).lifecycle_generation
          ≡ s.lifecycle_generation)
        × ((settle calendar n answer now first second s).admitted ≡ s.admitted)
  unfolding settle settle_fire rearm_fired rearm_missed
  settle_same n answer now first second s = ground arith

  proceed_start_same :
      (now : ℕ) (pending : Starting) (s : SchedulerService)
      → ((proceed_start calendar now pending s).lifecycle_generation ≡ s.lifecycle_generation)
        × ((proceed_start calendar now pending s).admitted ≡ s.admitted)
  unfolding proceed_start
  proceed_start_same now loading s = (refl, refl)
  proceed_start_same now (reconciling [] armable) s = (refl, refl)
  proceed_start_same now (reconciling (id ∷ ids) armable) s = (refl, refl)

  proceed_same :
      (n now : ℕ) (done : Bool) (s : SchedulerService)
      → ((proceed calendar n now done s).lifecycle_generation ≡ s.lifecycle_generation)
        × ((proceed calendar n now done s).admitted ≡ s.admitted)
  unfolding proceed
  proceed_same n now done s = elim (Option-cases (take_nth n s.starting)) [
    | inl e ↦ rw (proceed, e) (refl, refl)
    | inr ((pending, others), e) ↦
        let same = proceed_start_same now pending (record s { starting = others }) in ground arith
  ]

  step-IsOrdered : (s : SchedulerService) (e : Event) → IsOrdered s → IsOrdered (step calendar s e)
  unfolding step start stop destroy create update delete
  step-IsOrdered s starts v = same-IsOrdered s (start s) (ground arith) (ground arith) v
  step-IsOrdered s (proceeds n now done) v =
      let same = proceed_same n now done s in
      same-IsOrdered s (proceed calendar n now done s) same.0 same.1 v
  step-IsOrdered s stops v =
      AllUpTo-mono s.lifecycle_generation (suc s.lifecycle_generation) s.admitted (omega arith) v
  step-IsOrdered s destroys v =
      AllUpTo-mono s.lifecycle_generation (suc s.lifecycle_generation) s.admitted (omega arith) v
  step-IsOrdered s closes v = v
  step-IsOrdered s (creates input now) v =
      same-IsOrdered s (create calendar input now s) (ground arith) (ground arith) v
  step-IsOrdered s (updates input now) v =
      same-IsOrdered s (update calendar input now s) (ground arith) (ground arith) v
  step-IsOrdered s (deletes id durable) v =
      same-IsOrdered s (delete id durable s) (ground arith) (ground arith) v
  step-IsOrdered s (fires id now) v = fire-IsOrdered id now s v
  step-IsOrdered s (dispatches n) v = dispatch-IsOrdered n s v
  step-IsOrdered s (settles n answer now first second) v =
      let same = settle_same n answer now first second s in
      same-IsOrdered s (settle calendar n answer now first second s) same.0 same.1 v

  pub run-IsOrdered :
      (s : SchedulerService) (es : List Event) → IsOrdered s → IsOrdered (run calendar s es)
  unfolding run
  run-IsOrdered s [] v = v
  run-IsOrdered s (e ∷ es) v = run-IsOrdered (step calendar s e) es (step-IsOrdered s e v)
