-- ===== src/Leases/Tests.antt =====
-- A runtime that starts, publishes and is stopped. (agent/runtime-state.ts)
use dreamux.Base.{
  String-discrete, ◌==◌, ◌<◌, ◌≡◌, ◌⊎◌, refl, false, none, some, List, [], ◌∷◌, ◌++◌, arith,
}
use dreamux.Base.Result.{thrown}
use dreamux.Leases.State.{
  AgentRuntimeStateUpdate, status, session, Publish, AgentRuntimeStateStore, is_stopped, is_running,
  ready, starting, lease_runtime_generation, revoke_runtime_generation, publish, begin_write,
  end_write, settle_next, Event, begins, publishes, step, run, lease_revoked,
}
use dreamux.Leases.Fence.{revoked_lease_refused, revoked_lease_fenced}
use dreamux.Leases.Receipt.{calls, rounds, merged, last_status, publishes_in_receipt_order}

program : Unit {0}
unfolding String-discrete lease_runtime_generation revoke_runtime_generation publish begin_write
    end_write settle_next step run
program = tt

abbrev started : AgentRuntimeStateStore
started = record {
  current_lease = 1;
  last_runtime_status = none;
  identity = record { session_id = none; identity_status = is_stopped; last_error = none };
  waiting = [];
  writing = none;
  durable = [];
}

abbrev became_ready : Publish
became_ready = record { lease = 1; update = status ready none }

abbrev writing_ready : AgentRuntimeStateStore
writing_ready = record started { writing = some became_ready }

abbrev facts : List AgentRuntimeStateUpdate
facts = status starting none ∷ session "s1" ∷ status ready none ∷ []

started_running :
    (run started (calls 1 facts ++ rounds facts)).identity
    ≡ record { session_id = some "s1"; identity_status = is_running; last_error = none }
unfolding program
started_running = refl

session_named : ("s1" == "") ≡ false
unfolding program
session_named = refl

-- The lease is revoked while a write is in flight.
abbrev interrupted : List Event
interrupted = begins ∷ []

still_writing :
    (run (revoke_runtime_generation writing_ready) interrupted).writing ≡ some became_ready
unfolding program
still_writing = refl

revoked_lease_refused_example :
    (publish (run (revoke_runtime_generation writing_ready) interrupted) 1 (session "s2")
      ≡ thrown lease_revoked)
    × (step (run (revoke_runtime_generation writing_ready) interrupted) (publishes 1 (session "s2"))
        ≡ run (revoke_runtime_generation writing_ready) interrupted)
revoked_lease_refused_example =
    revoked_lease_refused writing_ready interrupted 1 (session "s2") (omega arith)

revoked_lease_fenced_example :
    (writing_ready.writing ≡ some became_ready) ⊎ (writing_ready.current_lease < became_ready.lease)
revoked_lease_fenced_example =
    revoked_lease_fenced writing_ready interrupted became_ready still_writing

publishes_in_receipt_order_example : run started (calls 1 facts ++ rounds facts) ≡ record started {
  waiting = [];
  identity = merged started.identity facts;
  last_runtime_status = last_status none facts;
}
publishes_in_receipt_order_example =
    publishes_in_receipt_order started facts refl refl refl (refl, (session_named, (refl, tt)))
