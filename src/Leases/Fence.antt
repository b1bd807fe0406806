-- ===== src/Leases/Fence.antt =====
-- What a revocation stops. (agent/runtime-state.ts)
use dreamux.Base.{ℕ, suc, ◌≤◌, ◌<◌, ◌≡◌, some, List, [], ◌∷◌, arith, inl, inr, ◌⊎◌}
use dreamux.Base.Result.{thrown}
use dreamux.Leases.State.{
  lease_revoked, AgentRuntimeStateUpdate, Publish, AgentRuntimeStateStore, lease_runtime_generation,
  revoke_runtime_generation, publish, begin_write, end_write, settle_next, Event, leases, revokes,
  begins, settles, publishes, ends, step, run,
}

step_counter : (s : AgentRuntimeStateStore) (e : Event) → s.current_lease ≤ (step s e).current_lease
unfolding step lease_runtime_generation revoke_runtime_generation publish begin_write end_write
    settle_next
step_counter s leases = omega arith
step_counter s revokes = omega arith
step_counter s begins = ground arith
step_counter s settles = ground arith
step_counter s (publishes lease update) = ground arith
step_counter s (ends succeeded) = ground arith

pub run_counter :
    (s : AgentRuntimeStateStore) (es : List Event) → s.current_lease ≤ (run s es).current_lease
unfolding run
run_counter s [] = omega arith
run_counter s (e ∷ es) =
    let here = step_counter s e in
    let later = run_counter (step s e) es in omega (arith, here, later)

step_writing :
    (s : AgentRuntimeStateStore) (e : Event) (p : Publish) (bound : ℕ)
    → bound ≤ s.current_lease
    → (step s e).writing ≡ some p
    → (s.writing ≡ some p) ⊎ (bound ≤ p.lease)
unfolding step lease_runtime_generation revoke_runtime_generation publish begin_write end_write
    settle_next
step_writing s leases p bound le h = inl h
step_writing s revokes p bound le h = inl h
step_writing s begins p bound le h = ground arith
step_writing s settles p bound le h = ground arith
step_writing s (publishes lease update) p bound le h = ground arith
step_writing s (ends succeeded) p bound le h = ground arith

run_writing :
    (s : AgentRuntimeStateStore) (es : List Event) (p : Publish) (bound : ℕ)
    → bound ≤ s.current_lease
    → (run s es).writing ≡ some p
    → (s.writing ≡ some p) ⊎ (bound ≤ p.lease)
unfolding run
run_writing s [] p bound le h = inl h
run_writing s (e ∷ es) p bound le h =
    elim (run_writing (step s e) es p bound (omega (arith, step_counter s e)) h) [
      | inl before ↦ step_writing s e p bound le before
      | inr new ↦ inr new
    ]

-- After a generation is revoked, whatever happens next, a publish under its lease or an earlier one
-- is refused and changes nothing.
pub revoked_lease_refused :
    (s : AgentRuntimeStateStore) (es : List Event) (lease : ℕ) (update : AgentRuntimeStateUpdate)
    → lease ≤ s.current_lease
    → (publish (run (revoke_runtime_generation s) es) lease update ≡ thrown lease_revoked)
      × (step (run (revoke_runtime_generation s) es) (publishes lease update)
          ≡ run (revoke_runtime_generation s) es)
unfolding revoke_runtime_generation publish step
revoked_lease_refused s es lease update le =
    let later = run_counter (revoke_runtime_generation s) es in
    (ground (arith, later), ground (arith, later))

-- After a generation is revoked, whatever happens next, a write that is under way was under way at
-- the revocation or belongs to a lease that was opened after it: a publish that waited is dropped.
pub revoked_lease_fenced :
    (s : AgentRuntimeStateStore) (es : List Event) (p : Publish)
    → (run (revoke_runtime_generation s) es).writing ≡ some p
    → (s.writing ≡ some p) ⊎ (s.current_lease < p.lease)
unfolding revoke_runtime_generation
revoked_lease_fenced s es p h =
    run_writing (revoke_runtime_generation s) es p (suc s.current_lease) (omega arith) h
