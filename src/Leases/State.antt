-- ===== src/Leases/State.antt =====
-- agent/runtime-state.ts, with mergeIdentity of agent/store.ts: publishing under a lease.
use dreamux.Base.{
  ℕ, suc, String, Bool, false, not, Option, none, some, List, [], ◌∷◌, ◌++◌, nat_eq, if◌then◌else◌,
  ◌==◌,
}
use dreamux.Base.Result.{Result, thrown, returned}

pub data AgentRuntimeStatus : Type 0 where
  declared starting ready degraded stopping stopped : AgentRuntimeStatus

pub data AgentRuntimeStateUpdate : Type 0 where
  status : AgentRuntimeStatus → Option String → AgentRuntimeStateUpdate
  session : String → AgentRuntimeStateUpdate
  session_lost : String → AgentRuntimeStateUpdate

pub data AgentEntityIdentityStatus : Type 0 where
  is_starting is_running is_degraded is_closed is_stopped : AgentEntityIdentityStatus

abbrev pub runtime_status_to_identity_status : AgentRuntimeStatus → AgentEntityIdentityStatus
runtime_status_to_identity_status declared = is_stopped
runtime_status_to_identity_status starting = is_starting
runtime_status_to_identity_status ready = is_running
runtime_status_to_identity_status degraded = is_degraded
runtime_status_to_identity_status stopping = is_stopped
runtime_status_to_identity_status stopped = is_stopped

pub record AgentEntityIdentity : Type 0 where
  pub session_id : Option String
  pub identity_status : AgentEntityIdentityStatus
  pub last_error : Option String

-- A field that is absent stays as it is.
pub record AgentIdentityUpdateInput : Type 0 where
  pub new_session_id : Option String
  pub new_status : Option AgentEntityIdentityStatus
  pub new_last_error : Option String

abbrev or_kept {ℓ} : {A : Type ℓ} → Option A → A → A
or_kept none kept = kept
or_kept (some a) kept = a

abbrev some_or_kept {ℓ} : {A : Type ℓ} → Option A → Option A → Option A
some_or_kept none kept = kept
some_or_kept (some a) kept = some a

abbrev pub merge_identity : AgentEntityIdentity → AgentIdentityUpdateInput → AgentEntityIdentity
merge_identity identity input = record {
  session_id = some_or_kept input.new_session_id identity.session_id;
  identity_status = or_kept input.new_status identity.identity_status;
  last_error = some_or_kept input.new_last_error identity.last_error;
}

abbrev pub identity_patch : AgentRuntimeStateUpdate → AgentIdentityUpdateInput
identity_patch (session id) = record {
  new_session_id = some id;
  new_status = none;
  new_last_error = none;
}
identity_patch (session_lost reason) = record {
  new_session_id = none;
  new_status = some is_degraded;
  new_last_error = some reason;
}
identity_patch (status s e) = record {
  new_session_id = none;
  new_status = some (runtime_status_to_identity_status s);
  new_last_error = e;
}

-- A publish that waits on the store's tail or whose write is under way.
pub record Publish : Type 0 where
  pub lease : ℕ
  pub update : AgentRuntimeStateUpdate

-- The store's fields, the identity that it committed, the publishes that wait on its tail, the one
-- whose write is under way, and the durable ones whose continuation has not run.
pub record AgentRuntimeStateStore : Type 0 where
  pub current_lease : ℕ
  pub last_runtime_status : Option AgentRuntimeStatus
  pub identity : AgentEntityIdentity
  pub waiting : List Publish
  pub writing : Option Publish
  pub durable : List Publish

pub data PublishError : Type 0 where
  lease_revoked session_id_invalid : PublishError

-- The new lease is the counter's value.
unfoldable pub lease_runtime_generation : AgentRuntimeStateStore → AgentRuntimeStateStore
lease_runtime_generation s = record s { current_lease = suc s.current_lease }

unfoldable pub revoke_runtime_generation : AgentRuntimeStateStore → AgentRuntimeStateStore
revoke_runtime_generation s = record s {
  current_lease = suc s.current_lease;
  last_runtime_status = none;
}

abbrev pub has_empty_session : AgentRuntimeStateUpdate → Bool
has_empty_session (status s e) = false
has_empty_session (session id) = id == ""
has_empty_session (session_lost reason) = false

unfoldable pub publish :
    AgentRuntimeStateStore
    → ℕ
    → AgentRuntimeStateUpdate
    → Result PublishError AgentRuntimeStateStore
publish s lease update =
    if not (nat_eq lease s.current_lease)
    then thrown lease_revoked
    else if has_empty_session update
    then thrown session_id_invalid
    else (let job : Publish = record { lease = lease; update = update } in
        returned (record s { waiting = s.waiting ++ job ∷ [] }))

-- The tail reaches a publish: its callback checks the lease again, and its write begins.
abbrev pub begin_next : AgentRuntimeStateStore → List Publish → AgentRuntimeStateStore
begin_next s [] = s
begin_next s (p ∷ rest) =
    if nat_eq p.lease s.current_lease
    then record s { waiting = rest; writing = some p }
    else record s { waiting = rest }

unfoldable pub begin_write : AgentRuntimeStateStore → AgentRuntimeStateStore
begin_write s = elim s.writing [ none ↦ begin_next s s.waiting | some p ↦ s ]

-- The write ends: the identity is committed, or the write failed and nothing is.
unfoldable pub end_write : AgentRuntimeStateStore → Bool → AgentRuntimeStateStore
end_write s succeeded = elim s.writing [
  | none ↦ s
  | some p ↦
      if succeeded
      then record s {
        identity = merge_identity s.identity (identity_patch p.update);
        writing = none;
        durable = s.durable ++ p ∷ [];
      }
      else record s { writing = none }
]

abbrev pub recorded_status :
    AgentRuntimeStateUpdate → Option AgentRuntimeStatus → Option AgentRuntimeStatus
recorded_status (status s e) last = some s
recorded_status (session id) last = last
recorded_status (session_lost reason) last = last

-- The continuation of a durable publish.
unfoldable pub settle_next : AgentRuntimeStateStore → AgentRuntimeStateStore
settle_next s = elim s.durable [
  | [] ↦ s
  | p ∷ rest ↦ record s {
    durable = rest;
    last_runtime_status = recorded_status p.update s.last_runtime_status;
  }
]

pub data Event : Type 0 where
  leases revokes begins settles : Event
  publishes : ℕ → AgentRuntimeStateUpdate → Event
  ends : Bool → Event

abbrev pub or_unchanged :
    AgentRuntimeStateStore → Result PublishError AgentRuntimeStateStore → AgentRuntimeStateStore
or_unchanged s (thrown e) = s
or_unchanged s (returned next) = next

unfoldable pub step : AgentRuntimeStateStore → Event → AgentRuntimeStateStore
unfolding lease_runtime_generation revoke_runtime_generation publish begin_write end_write
    settle_next
step s leases = lease_runtime_generation s
step s revokes = revoke_runtime_generation s
step s begins = begin_write s
step s settles = settle_next s
step s (publishes lease update) = or_unchanged s (publish s lease update)
step s (ends succeeded) = end_write s succeeded

unfoldable pub run : AgentRuntimeStateStore → List Event → AgentRuntimeStateStore
unfolding step
run s [] = s
run s (e ∷ es) = run (step s e) es
