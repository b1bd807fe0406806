-- ===== src/Scheduler/Fair.antt =====
-- Steps that lose no coming run. (scheduler/index.ts)
use dreamux.Base.{
  ◌≡◌, Bool, true, false, not, ◌&&◌, ◌||◌, none, some, List, [], ◌∷◌, if◌then◌else◌, nat_eq,
}
use dreamux.Scheduler.Store.{find_job}
use dreamux.Scheduler.Service.{Calendar, SchedulerService, is_set, Starting}
use dreamux.Scheduler.Fire.{
  take_nth, is_advanced, was_accepted, Event, proceeds, starts, stops, destroys, closes, creates,
  updates, deletes, fires, dispatches, settles, step,
}

abbrev pub is_idle : List Starting → Bool
is_idle [] = true
is_idle (pending ∷ others) = false

module _ (calendar : Calendar) where
  -- Of each step, what keeps a coming run from being lost. A start begins, and a job is created or
  -- changed, only while no start is pending; an id drawn for a new job is fresh; a delete is
  -- written; a settlement is written, and one of an earlier generation or during a start finds the
  -- schedule moved on.
  unfoldable pub is_fair : SchedulerService → Event → Bool
  unfolding take_nth
  is_fair s starts = is_idle s.starting
  is_fair s (creates input now) = is_idle s.starting && not (is_set (find_job input.new_id s.jobs))
  is_fair s (updates input now) = is_idle s.starting
  is_fair s (deletes id durable) = durable
  is_fair s (settles n answer now fired_written missed_written) = elim (take_nth n s.in_flight) [
    | none ↦ true
    | some ((job, generation), others) ↦
        let is_ours = is_idle s.starting && nat_eq generation s.lifecycle_generation in
        if was_accepted answer && fired_written
        then is_ours || not (is_advanced calendar job now (find_job job.id s.jobs))
        else missed_written
          && (is_idle s.starting || not (nat_eq generation s.lifecycle_generation))
  ]
  is_fair s stops = true
  is_fair s destroys = true
  is_fair s closes = true
  is_fair s (proceeds n now done) = true
  is_fair s (fires id now) = true
  is_fair s (dispatches n) = true

  abbrev pub AllFair : SchedulerService → List Event → Type 0
  AllFair s [] = Unit {0}
  AllFair s (e ∷ es) = (is_fair s e ≡ true) × AllFair (step calendar s e) es
